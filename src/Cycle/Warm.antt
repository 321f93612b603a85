-- ===== src/Cycle/Warm.antt =====
-- src/logic/cycle_runner.cpp: the warm cycle, its guards of the clock and of the network, the nightly
-- clean, and the reset of the panel by a long press.
use bustaferl.Prelude.{ℕ, ◌+◌, Bool, true, false, ltb, ◌&&◌, ◌||◌, not, if◌then◌else◌}
use bustaferl.Data.{ScheduleSnapshot, empty_snapshot}
use bustaferl.Trace.{CycleTrigger, timer, button, cold_boot}
use bustaferl.Refresh.Apply.{Counters, deep_clean_of}
use bustaferl.Policy.Sleep.{SleepDecision, deep_sleep, plan_sleep, should_promote_to_nightly_clean}
use bustaferl.Screen.{
  DisplayState, normal, offline, wifi_auth, select_display_state, no_input, compose_render_input,
}
use bustaferl.Schedule.{need_schedule_refresh}
use bustaferl.Cycle.Store.{save_framebuffer}
use bustaferl.Cycle.Push.{render_and_push, do_sleep_or_loop, stamped, set_updated}
use bustaferl.Cycle.Gather.{
  FetchCycleResult, no_fetch_result, fetch_complete, signals, do_fetch_cycle, refresh_schedule,
  Rescued, run_rescue_fetch, not_rescued,
}
use bustaferl.Cycle.Trail.{CycleOutcome, no_cycle_outcome, is_deep, trace_cycle}
use bustaferl.Cycle.{
  World, Env, WifiFailure, no_failure, not_found, auth_failed, connected, ntp_asked, painted,
  deep_slept, emit, save_meta, set_meta, set_curr, min_plausible_epoch,
}

unfoldable pub clock_drifted_ahead : Env → World → Bool
clock_drifted_ahead env w =
    if ltb w.meta.expected_wake_at min_plausible_epoch
    then false
    else ltb (w.meta.expected_wake_at + env.cfg.max_wake_overshoot_s) (env.now w.log)

-- ntpSync, and its time in the meta data after a success.
unfoldable pub sync_clock : Env → World → Bool × World
sync_clock env w =
    let asked = emit ntp_asked w in
    if env.ntp_sync w.log
    then (true, set_meta (record w.meta { last_ntp_sync = env.now asked.log }) asked)
    else (false, asked)

abbrev pub unless_synced : Env → Bool × World → Bool × World
unless_synced env (true, w) = (true, w)
unless_synced env (false, w) = (false, emit (deep_slept env.cfg.cold_boot_retry_s) w)

unfoldable pub ensure_clock_synced : Env → World → Bool × World
ensure_clock_synced env w =
    if ltb (env.now w.log) min_plausible_epoch || clock_drifted_ahead env w
    then unless_synced env (sync_clock env w)
    else (true, w)

-- `now - last_ntp_sync > interval` is over signed times.
unfoldable pub periodic_sync : Env → World → World
periodic_sync env w =
    if ltb (w.meta.last_ntp_sync + env.cfg.ntp_interval_s) (env.now w.log)
    then (sync_clock env w).1
    else w

-- The slot is written and the flag set, whatever `saveFramebuffer` answers.
abbrev pub cleaned_counters : ℕ → Counters → Counters
cleaned_counters now c = record { partial_count = 0; last_light_full = now; last_deep_clean = now }

unfoldable pub do_nightly_clean : Env → ScheduleSnapshot → FetchCycleResult → ℕ → World → World
do_nightly_clean env schedule fc now w =
    let input =
      compose_render_input env.version fc.state fc.snap schedule w.meta.last_success_at now in
    let drawn = set_updated env now (stamped env now (set_curr (env.render w.log input) w)) in
    let clean = emit (painted (deep_clean_of drawn.curr)) drawn in
    let counted =
      set_meta (record clean.meta { counters = cleaned_counters now clean.meta.counters }) clean in
    let saved = (save_framebuffer counted).1 in
    set_meta (record saved.meta { framebuffer_valid = true }) saved

abbrev pub is_button : CycleTrigger → Bool
is_button button = true
is_button timer = false
is_button cold_boot = false

abbrev is_normal : DisplayState → Bool
is_normal normal = true
is_normal _ = false

-- What the first half of `finishWarmCycle` does to the panel, and whether it rendered.
unfoldable pub show_board :
    Env → ScheduleSnapshot → FetchCycleResult → ℕ → Bool → Bool → World → Bool × World
show_board env schedule fc now nightly force_stamp w =
    if nightly
    then (true, do_nightly_clean env schedule fc now w)
    else if fc.fetched_ok || not (is_normal fc.state) || force_stamp
    then (true, render_and_push env fc.state fc.snap schedule force_stamp w)
    else (false, w)

-- The trace and the sleep at the end.
unfoldable pub close_cycle :
    Env → FetchCycleResult → SleepDecision → CycleOutcome → ℕ → World → World
close_cycle env fc sd oc now w = do_sleep_or_loop env sd now (trace_cycle env fc sd oc now w)

-- After the rescue: a plan from the rescued snapshot replaces the one from the partial snapshot.
unfoldable pub after_rescue : Env → SleepDecision → ℕ → CycleTrigger → Bool → Bool → Rescued → World
after_rescue env pre now trigger rendered tried r =
    let oc : CycleOutcome = record {
      trigger = trigger;
      rendered = rendered || r.ok;
      rescue_tried = tried;
      rescue_ok = r.ok;
      wifi_failed = false;
    } in
    let later = env.now r.world.log in
    if r.ok
    then close_cycle env r.fc (plan_sleep r.fc.merged later env.cfg.sleep) oc later r.world
    else close_cycle env r.fc pre oc now r.world

unfoldable pub is_nightly : Env → SleepDecision → ℕ → World → Bool
is_nightly env pre now w =
    is_deep pre.mode
    && should_promote_to_nightly_clean pre.seconds now w.meta.counters.last_deep_clean
        env.cfg.long_sleep_for_nightly_clean_s env.cfg.nightly_deep_clean_interval_s

unfoldable pub finish_warm_cycle :
    Env → ScheduleSnapshot → FetchCycleResult → ℕ → CycleTrigger → World → World
finish_warm_cycle env schedule fc now trigger w =
    let pre = plan_sleep fc.merged now env.cfg.sleep in
    let nightly = is_nightly env pre now w in
    let (rendered, shown) = show_board env schedule fc now nightly (is_button trigger) w in
    let tried = not nightly && not (fetch_complete fc.summary) in
    after_rescue env pre now trigger rendered tried (
      if tried
      then run_rescue_fetch env schedule fc (env.now shown.log) shown
      else not_rescued fc shown)

abbrev pub is_auth_failure : WifiFailure → Bool
is_auth_failure auth_failed = true
is_auth_failure no_failure = false
is_auth_failure not_found = false

-- The wrong password: the dedicated screen, and a long sleep.
unfoldable pub wrong_password : Env → World → World
wrong_password env w =
    let drawn = set_curr (env.render w.log (no_input wifi_auth)) w in
    let shown = emit (painted (deep_clean_of drawn.curr)) drawn in
    emit (deep_slept env.cfg.wifi_auth_sleep_s)
      (save_meta (set_meta (record shown.meta { framebuffer_valid = false }) shown))

abbrev pub is_offline : DisplayState → Bool
is_offline offline = true
is_offline _ = false

unfoldable pub handle_warm_wifi_down : Env → ScheduleSnapshot → CycleTrigger → Bool → World → World
handle_warm_wifi_down env schedule trigger force_stamp w =
    let now = env.now w.log in
    let s = select_display_state w.meta.has_any_data (signals w false now) in
    let shown =
      if is_offline s then render_and_push env s empty_snapshot schedule force_stamp w else w in
    let oc = record (no_cycle_outcome trigger) { rendered = is_offline s; wifi_failed = true } in
    let poll : SleepDecision = record { mode = deep_sleep; seconds = env.cfg.poll_interval_s } in
    let traced = trace_cycle env (record no_fetch_result { state = s }) poll oc now shown in
    if is_auth_failure (env.last_failure w.log)
    then wrong_password env w
    else emit (deep_slept env.cfg.poll_interval_s) traced

-- From the fetch on, with the network up and the clock right.
unfoldable pub fetch_and_finish : Env → ScheduleSnapshot → CycleTrigger → World → World
fetch_and_finish env schedule trigger w =
    let (fc, gathered) = do_fetch_cycle env schedule w in
    let now = env.now gathered.log in
    let (fresh, ready) =
      if need_schedule_refresh env.midnight schedule now
      then refresh_schedule env schedule gathered
      else (schedule, gathered) in
    finish_warm_cycle env fresh fc now trigger ready

abbrev pub if_synced : Env → ScheduleSnapshot → CycleTrigger → Bool × World → World
if_synced env schedule trigger (true, w) =
    fetch_and_finish env schedule trigger (periodic_sync env w)
if_synced env schedule trigger (false, w) = w

unfoldable pub run_warm_cycle : Env → CycleTrigger → World → World
run_warm_cycle env trigger w =
    let asked = emit connected w in
    if env.connect w.log env.cfg.wifi_connect_ms
    then if_synced env w.saved_schedule trigger (ensure_clock_synced env asked)
    else handle_warm_wifi_down env w.saved_schedule trigger (is_button trigger) asked
