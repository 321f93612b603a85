-- ===== src/Cycle/Cold.antt =====
-- src/logic/cycle_runner.cpp: which cycle a wake-up runs, the cold cycle, and the reset of the panel.
use bustaferl.Prelude.{
  ℕ, ◌+◌, ◌%◌, ◌<◌, ◌≡◌, ◌≢◌, refl, ◌↔◌, ◌⊎◌, arith, Bool, true, false, ltb, ◌&&◌, ◌||◌, not,
  if◌then◌else◌, length, ◌==◌,
}
use bustaferl.Data.{StreamSnapshot, ScheduleSnapshot}
use bustaferl.Trace.{cold_boot}
use bustaferl.Refresh.Apply.{deep_clean_of, light_full_of}
use bustaferl.Policy.Sleep.{plan_sleep}
use bustaferl.Fetch.Snapshot.{FetchSummary}
use bustaferl.Screen.{
  boot, normal, offline, select_display_state, no_input, compose_render_input, BootResult, booted,
  retry_later, give_up, run_cold_boot,
}
use bustaferl.Cycle.Store.{frame_bytes, save_framebuffer, load_framebuffer}
use bustaferl.Cycle.Push.{do_sleep_or_loop, stamped, set_updated}
use bustaferl.Cycle.Gather.{no_fetch_result, signals, fetch_and_log, refresh_schedule}
use bustaferl.Cycle.Trail.{no_cycle_outcome, trace_cycle}
use bustaferl.Cycle.Warm.{is_auth_failure, wrong_password, cleaned_counters}
use bustaferl.Cycle.{
  World, Env, PersistedMeta, connected, ntp_asked, painted, paused, deep_slept, emit, save_meta,
  set_meta, set_curr,
}

pub data WakeCause : Type 0 where
  cold_boot_wake timer_wake button_wake other_wake : WakeCause

pub data CycleKind : Type 0 where
  cold_cycle warm_cycle button_cycle : CycleKind

unfoldable pub select_cycle : WakeCause → ℕ → Bool → CycleKind
select_cycle button_wake cold_boot_retries has_any_data = button_cycle
select_cycle cold_boot_wake cold_boot_retries has_any_data =
    if ltb 0 cold_boot_retries || not has_any_data then cold_cycle else warm_cycle
select_cycle timer_wake cold_boot_retries has_any_data =
    if ltb 0 cold_boot_retries || not has_any_data then cold_cycle else warm_cycle
select_cycle other_wake cold_boot_retries has_any_data =
    if ltb 0 cold_boot_retries || not has_any_data then cold_cycle else warm_cycle

-- The cold path, with its boot screen, is for a wake-up that no button caused, of a device that is in
-- its cold retries or has nothing to show: no reset while there is a board takes it.
pub select_cycle-cold_iff :
    (cause : WakeCause) (retries : ℕ) (has_any_data : Bool)
    → (select_cycle cause retries has_any_data ≡ cold_cycle)
      ↔ ((cause ≢ button_wake) × ((0 < retries) ⊎ (has_any_data ≡ false)))
unfolding select_cycle
select_cycle-cold_iff button_wake retries has_any_data = (λ e. cc, λ h. absurd (h.0 refl))
select_cycle-cold_iff cold_boot_wake retries has_any_data =
    (λ e. (λ c. cc, ground arith), λ h. ground arith)
select_cycle-cold_iff timer_wake retries has_any_data =
    (λ e. (λ c. cc, ground arith), λ h. ground arith)
select_cycle-cold_iff other_wake retries has_any_data =
    (λ e. (λ c. cc, ground arith), λ h. ground arith)

-- The retries are a uint8_t, and so is the free-running count of cycles without a network.
unfoldable pub count_no_wifi : Env → PersistedMeta → PersistedMeta
count_no_wifi env meta = record meta {
  cold_boot_retries =
      if ltb meta.cold_boot_retries env.cfg.cold_boot_max_retries
      then (meta.cold_boot_retries + 1) % 256
      else meta.cold_boot_retries;
  no_wifi_cycles = (meta.no_wifi_cycles + 1) % 256;
  framebuffer_valid = false;
}

unfoldable pub paint_no_network_screen : Env → Bool → World → World
paint_no_network_screen env first_paint w =
    let drawn = set_curr (env.render w.log (no_input offline)) w in
    emit (painted (if first_paint then deep_clean_of drawn.curr else light_full_of drawn.curr))
      drawn

abbrev pub clear_retries : PersistedMeta → PersistedMeta
clear_retries meta = record meta { cold_boot_retries = 0; no_wifi_cycles = 0 }

-- No network: the screen is repainted on every n-th of the cycles, and the next try is a sleep away.
unfoldable pub no_network : Env → World → World
no_network env w =
    let every = if ltb 0 env.cfg.no_wifi_repaint_every then env.cfg.no_wifi_repaint_every else 1 in
    let shown =
      if w.meta.no_wifi_cycles % every == 0
      then paint_no_network_screen env (w.meta.no_wifi_cycles == 0) w
      else w in
    emit (deep_slept env.cfg.cold_boot_retry_s)
      (save_meta (set_meta (count_no_wifi env shown.meta) shown))

abbrev pub is_booted : BootResult → Bool
is_booted booted = true
is_booted retry_later = false
is_booted give_up = false

-- The result, and the world after it.
unfoldable pub handle_cold_boot_outcome : Env → BootResult → World → Bool × World
handle_cold_boot_outcome env r w =
    let cleared = set_meta (clear_retries w.meta) w in
    if is_booted r
    then (true, cleared)
    else if is_auth_failure (env.last_failure w.log)
    then (false, wrong_password env cleared)
    else (false, no_network env w)

unfoldable pub show_boot_screen : Env → World → World
show_boot_screen env w =
    let input = record (no_input boot) { firmware_version = env.version } in
    let drawn = set_curr (env.render w.log input) w in
    if w.meta.framebuffer_valid || ltb 0 w.meta.cold_boot_retries
    then w
    else emit (painted (light_full_of drawn.curr)) drawn

unfoldable pub show_boot_check : Env → World → World
show_boot_check env w =
    let drawn = set_curr (env.render_boot_check w.log) w in
    if env.cfg.boot_info_show_s == 0
    then w
    else emit (paused env.cfg.boot_info_show_s) (emit (painted (deep_clean_of drawn.curr)) drawn)

unfoldable pub finish_cold_cycle :
    Env → StreamSnapshot → ScheduleSnapshot → FetchSummary → World → World
finish_cold_cycle env snap schedule summary w =
    let now = env.now w.log in
    let state = select_display_state w.meta.has_any_data (signals w (env.is_connected w.log) now) in
    let input = compose_render_input env.version state snap schedule w.meta.last_success_at now in
    let drawn = set_updated env now (stamped env now (set_curr (env.render w.log input) w)) in
    let paint =
      if ltb 0 env.cfg.boot_info_show_s
      then light_full_of drawn.curr
      else deep_clean_of drawn.curr in
    let shown = emit (painted paint) drawn in
    let counted =
      set_meta
        (record shown.meta {
          counters = record shown.meta.counters { last_light_full = now; last_deep_clean = now };
          last_ntp_sync = env.last_sync shown.log;
        })
        shown in
    let saved = (save_framebuffer counted).1 in
    let valid = set_meta (record saved.meta { framebuffer_valid = true }) saved in
    let sd = plan_sleep input.snapshot now env.cfg.sleep in
    do_sleep_or_loop env sd now (
      trace_cycle env (record no_fetch_result { snap = snap; summary = summary; state = state }) sd
        (record (no_cycle_outcome cold_boot) { rendered = true }) now valid)

-- The first fetch of a device, and the time of its success.
unfoldable pub first_fetch : Env → World → World
first_fetch env w =
    let (p, asked) = fetch_and_log env w in
    let now = env.now asked.log in
    let noted =
      if p.out.api_ok
      then set_meta
          (record asked.meta { last_api_success = now; last_success_at = now; has_any_data = true })
          asked
      else asked in
    let (schedule, ready) = refresh_schedule env noted.saved_schedule noted in
    finish_cold_cycle env p.out schedule p.summary (show_boot_check env ready)

abbrev pub if_booted : Env → Bool × World → World
if_booted env (true, w) = first_fetch env w
if_booted env (false, w) = w

-- The calls of `runColdBoot`: the clock is asked after a connection.
unfoldable pub boot_calls : Env → World → BootResult × World
boot_calls env w =
    let asked = emit connected w in
    let r =
      run_cold_boot (env.connect w.log) (env.ntp_sync asked.log) w.meta.cold_boot_retries (record {
        wifi_timeout_ms = env.cfg.wifi_timeout_ms;
        max_retries = env.cfg.cold_boot_max_retries;
      }) in
    if env.connect w.log env.cfg.wifi_timeout_ms then (r, emit ntp_asked asked) else (r, asked)

unfoldable pub run_cold_cycle : Env → World → World
run_cold_cycle env w =
    let (r, tried) = boot_calls env (show_boot_screen env w) in
    if_booted env (handle_cold_boot_outcome env r tried)

-- The last good frame, or an empty one, is cleaned onto the panel.
unfoldable pub run_bw_reset : Env → World → World
run_bw_reset env w =
    let loaded = load_framebuffer w frame_bytes in
    let have = w.meta.framebuffer_valid && length loaded == frame_bytes in
    let drawn = set_curr (if have then loaded else env.render w.log (no_input normal)) w in
    let clean = emit (painted (deep_clean_of drawn.curr)) drawn in
    let kept = (save_framebuffer clean).1 in
    let saved =
      if have then clean else set_meta (record kept.meta { framebuffer_valid = true }) kept in
    let now = env.now saved.log in
    save_meta
      (set_meta (record saved.meta { counters = cleaned_counters now saved.meta.counters }) saved)
