-- ===== src/Cycle/Push.antt =====
-- src/logic/cycle_runner.cpp: a frame is rendered, stamped, compared and pushed, and a cycle is put to
-- sleep.
use bustaferl.Prelude.{
  ℕ, ◌+◌, Bool, true, false, List, [], leb, ◌&&◌, ◌==◌, not, if◌then◌else◌, length,
}
use bustaferl.Data.{StreamSnapshot, ScheduleSnapshot}
use bustaferl.Refresh.{
  RefreshDecision, RefreshKind, no_refresh, plan_refresh, default_refresh_config,
}
use bustaferl.Refresh.Apply.{apply_display_decision}
use bustaferl.Policy.Sleep.{SleepDecision, Mode, deep_sleep, active}
use bustaferl.Screen.{DisplayState, compose_render_input}
use bustaferl.Cycle.Store.{frame_bytes, save_framebuffer, load_framebuffer}
use bustaferl.Cycle.{
  World, Env, Event, paused, deep_slept, emit, emit_paints, save_meta, set_meta, set_curr,
  min_plausible_epoch,
}

abbrev pub is_refresh : RefreshKind → Bool
is_refresh no_refresh = false
is_refresh _ = true

-- drawUpdateStamp, if it is compiled in.
abbrev pub stamped : Env → ℕ → World → World
stamped env t w = if env.cfg.update_stamp_enabled then set_curr (env.stamp w.curr t) w else w

abbrev pub set_updated : Env → ℕ → World → World
set_updated env t w =
    if env.cfg.update_stamp_enabled
    then set_meta (record w.meta { last_display_update = t }) w
    else w

-- With `prev_valid`, the frame that planRefresh compares with.
unfoldable pub prev_frame : World → Bool × List ℕ
prev_frame w =
    let loaded = load_framebuffer w frame_bytes in
    if w.meta.framebuffer_valid then (length loaded == frame_bytes, loaded) else (false, [])

abbrev pub plan_push : Env → ℕ → Bool × List ℕ → World → RefreshDecision
plan_push env now (prev_valid, prev) w =
    plan_refresh prev w.curr prev_valid now w.meta.counters.last_light_full
      w.meta.counters.partial_count default_refresh_config env.cfg.deep_wake

-- A refresh that is not forced is stamped with the present time and planned again.
unfoldable pub restamp :
    Env → ℕ → Bool → Bool × List ℕ → RefreshDecision → World → RefreshDecision × World
restamp env now force_stamp prev d w =
    let again = set_updated env now (stamped env now w) in
    if env.cfg.update_stamp_enabled && not force_stamp && is_refresh d.kind
    then (plan_push env now prev again, again)
    else (d, w)

unfoldable pub apply_decision : RefreshDecision → ℕ → World → World
apply_decision d now w =
    let (paints, counters) = apply_display_decision d w.curr w.meta.counters now in
    emit_paints paints (set_meta (record w.meta { counters = counters }) w)

-- saveFramebuffer, with its result in the meta data.
unfoldable pub keep_frame : World → World
keep_frame w =
    let (saved, kept) = save_framebuffer w in
    set_meta (record kept.meta { framebuffer_valid = saved }) kept

-- renderAndPush from the rendered frame on.
unfoldable pub push_frame : Env → ℕ → Bool → World → World
push_frame env now force_stamp w =
    let first = stamped env (if force_stamp then now else w.meta.last_display_update) w in
    let forced = if force_stamp then set_updated env now first else first in
    let prev = prev_frame forced in
    let (d, planned) = restamp env now force_stamp prev (plan_push env now prev forced) forced in
    keep_frame (apply_decision d now planned)

-- The diagnostic fields of the offline screen are read off the network by `render`.
unfoldable pub render_and_push :
    Env → DisplayState → StreamSnapshot → ScheduleSnapshot → Bool → World → World
render_and_push env state snap schedule force_stamp w =
    let now = env.now w.log in
    let input = compose_render_input env.version state snap schedule w.meta.last_success_at now in
    push_frame env now force_stamp (set_curr (env.render w.log input) w)

abbrev pub sleep_seconds : Env → SleepDecision → ℕ
sleep_seconds env sd = sleep_of sd.mode
  where
    sleep_of : Mode → ℕ
    sleep_of deep_sleep = sd.seconds
    sleep_of active = env.cfg.poll_interval_s

abbrev pub sleep_event : Mode → ℕ → Event
sleep_event deep_sleep s = deep_slept s
sleep_event active s = paused s

unfoldable pub do_sleep_or_loop : Env → SleepDecision → ℕ → World → World
do_sleep_or_loop env sd now w =
    let sleep_s = sleep_seconds env sd in
    let target = if leb min_plausible_epoch now then now + sleep_s else 0 in
    emit (sleep_event sd.mode sleep_s)
      (save_meta (set_meta (record w.meta { expected_wake_at = target }) w))
