-- ===== src/Cycle/Gather.antt =====
-- src/logic/cycle_runner.cpp: the fetch of a cycle with its merge, the refresh of the timetable, and
-- the rescue of an incomplete snapshot.
use bustaferl.Prelude.{
  ℕ, zero, suc, ◌+◌, ◌%◌, ◌^◌, Bool, true, false, ltb, ◌==◌, ◌&&◌, not, any, get_or, if◌then◌else◌,
}
use bustaferl.Data.{
  StreamData, StreamSnapshot, ScheduleSnapshot, no_departure, empty_stream, empty_snapshot,
  stream_58b_atz,
}
use bustaferl.Slots.{merge_slots}
use bustaferl.Policy.Health.{FilterHealth, record_call}
use bustaferl.Policy.Rescue.{RescueStep, wait, retry, stop, next_rescue_step}
use bustaferl.Fetch.Snapshot.{FetchSummary, Progress, no_summary, fetch_snapshot}
use bustaferl.Screen.{DisplayState, normal, SelectorSignals, select_display_state}
use bustaferl.Schedule.{ScheduleFetchConfig, fetch_schedule, apply_schedule_fetch_result}
use bustaferl.Cycle.Push.{render_and_push}
use bustaferl.Cycle.{
  World, Env, PersistedMeta, fetched, efa_asked, schedule_saved, paused, emit, set_meta,
}

pub record FetchCycleResult : Type 0 where
  pub snap : StreamSnapshot
  pub merged : StreamSnapshot
  pub summary : FetchSummary
  pub state : DisplayState
  pub fetched_ok : Bool

abbrev pub no_fetch_result : FetchCycleResult
no_fetch_result = record {
  snap = empty_snapshot;
  merged = empty_snapshot;
  summary = no_summary;
  state = normal;
  fetched_ok = false;
}

unfoldable pub fetch_complete : FetchSummary → Bool
fetch_complete s = ltb 0 s.total_batches && s.failed_batches == 0

-- fetchSnapshotAndLog: the snapshot and the summary, with the auth fields of the meta data.
unfoldable pub fetch_and_log : Env → World → Progress × World
fetch_and_log env w =
    let p =
      fetch_snapshot env.parse_ogd (env.parse_oebb (env.now w.log)) (env.ogd w.log)
        (env.hafas w.log) env.mgate w.meta.auth in
    (p, emit fetched (set_meta (record w.meta { auth = p.meta }) w))

abbrev slot_0_valid : StreamData → Bool
slot_0_valid s = (get_or s.slot 0 no_departure).valid

-- The meta data after a fetch that succeeded at `now`.
unfoldable pub note_success : Env → ℕ → StreamSnapshot → PersistedMeta → PersistedMeta
note_success env now snap meta =
    let stream_58b = get_or snap.stream stream_58b_atz empty_stream in
    let health : FilterHealth = record {
      streak = meta.filter_miss_streak;
      dead_after = env.cfg.filter_health_dead_after;
    } in
    let counted = record_call health stream_58b.endpoint_responded stream_58b.filter_matched in
    record meta {
      last_api_success = now;
      last_success_at = now;
      has_any_data = true;
      filter_miss_streak =
          if any slot_0_valid snap.stream then counted.streak else meta.filter_miss_streak;
    }

abbrev pub signals : World → Bool → ℕ → SelectorSignals
signals w wifi_up now = record {
  first_render_ever = not w.meta.has_any_data;
  auth_error_seen = w.meta.auth.auth_error_seen;
  wifi_up = wifi_up;
  now = now;
  last_success = w.meta.last_success_at;
}

unfoldable pub do_fetch_cycle : Env → ScheduleSnapshot → World → FetchCycleResult × World
do_fetch_cycle env schedule w =
    let (p, asked) = fetch_and_log env w in
    let now = env.now asked.log in
    let noted =
      if p.out.api_ok then set_meta (note_success env now p.out asked.meta) asked else asked in
    let state =
      select_display_state noted.meta.has_any_data
        (signals noted (env.is_connected noted.log) now) in
    (
      record {
        snap = p.out;
        merged = merge_slots p.out schedule now;
        summary = p.summary;
        state = state;
        fetched_ok = p.out.api_ok;
      },
      noted,
    )

abbrev pub efa_config : ScheduleFetchConfig
efa_config = record { query_hour = 22; query_minute = 0; cutoff_hour = 3 }

-- refreshSchedule, and saveSchedule after its success.
unfoldable pub refresh_schedule : Env → ScheduleSnapshot → World → ScheduleSnapshot × World
refresh_schedule env schedule w =
    let now = env.now w.log in
    let r = fetch_schedule (env.efa w.log) env.local_at now env.divas efa_config in
    let (ok, fresh) = apply_schedule_fetch_result r now schedule in
    let asked = emit efa_asked w in
    if ok
    then (fresh, record (emit schedule_saved asked) { saved_schedule = fresh })
    else (fresh, asked)

-- What a rescue leaves: whether it succeeded, the fetch that counts now, and the world.
pub record Rescued : Type 0 where
  pub ok : Bool
  pub fc : FetchCycleResult
  pub world : World

abbrev pub not_rescued : FetchCycleResult → World → Rescued
not_rescued fc w = record { ok = false; fc = fc; world = w }

-- One attempt; `go_on` is the rest of the loop.
unfoldable pub rescue_attempt :
    Env → ScheduleSnapshot → FetchCycleResult → (World → Rescued) → World → Rescued
rescue_attempt env schedule fc go_on w =
    let (again, tried) = do_fetch_cycle env schedule w in
    if again.fetched_ok && fetch_complete again.summary
    then record {
      ok = true;
      fc = again;
      world = render_and_push env again.state again.snap schedule false tried;
    }
    else go_on (emit (paused (env.cfg.rescue.retry_pause_s % 2 ^ 32)) tried)

abbrev pub rescue_step :
    Env
    → ScheduleSnapshot
    → FetchCycleResult
    → (World → Rescued)
    → (World → Rescued)
    → World
    → RescueStep × ℕ
    → Rescued
rescue_step env schedule fc after_wait after_try w (stop, s) = not_rescued fc w
rescue_step env schedule fc after_wait after_try w (wait, s) = after_wait (emit (paused s) w)
rescue_step env schedule fc after_wait after_try w (retry, s) =
    rescue_attempt env schedule fc after_try w

-- while (attempts < max && waits <= max); `attempts` and `waits` are those that are left.
unfoldable pub rescue_loop : Env → ScheduleSnapshot → FetchCycleResult → ℕ → ℕ → ℕ → World → Rescued
rescue_loop env schedule fc anchored_at zero waits w = not_rescued fc w
rescue_loop env schedule fc anchored_at (suc attempts) zero w = not_rescued fc w
rescue_loop env schedule fc anchored_at (suc attempts) (suc waits) w =
    rescue_step env schedule fc (rescue_loop env schedule fc anchored_at (suc attempts) waits)
      (rescue_loop env schedule fc anchored_at attempts (suc waits)) w
      (next_rescue_step (env.now w.log) anchored_at env.cfg.rescue)

unfoldable pub run_rescue_fetch : Env → ScheduleSnapshot → FetchCycleResult → ℕ → World → Rescued
run_rescue_fetch env schedule fc anchored_at w =
    rescue_loop env schedule fc anchored_at env.cfg.rescue_max_attempts
      (env.cfg.rescue_max_attempts + 1) w
