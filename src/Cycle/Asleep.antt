-- ===== src/Cycle/Asleep.antt =====
-- A warm cycle ends with one sleep, and saves what it has learned before it.
use bustaferl.Prelude.{
  both, ℕ, ◌≡◌, refl, Bool, true, false, ◌∷◌, ◌&&◌, ◌||◌, not, ltb, Bool-cases, inl, inr,
  if◌then◌else◌,
}
use bustaferl.Data.{empty_snapshot, ScheduleSnapshot}
use bustaferl.Trace.{CycleTrigger}
use bustaferl.Schedule.{need_schedule_refresh}
use bustaferl.Policy.Sleep.{plan_sleep, SleepDecision, Mode, deep_sleep, active}
use bustaferl.Cycle.Awake.{
  IsAwake, Awake, render_and_push-Awake, do_fetch_cycle-Awake, refresh_schedule-Awake,
  rescue_loop-Awake, sync_clock-Awake, periodic_sync-Awake, show_board-Awake,
}
use bustaferl.Cycle.Push.{do_sleep_or_loop, sleep_event, sleep_seconds}
use bustaferl.Cycle.Gather.{
  FetchCycleResult, fetch_complete, do_fetch_cycle, refresh_schedule, Rescued, run_rescue_fetch,
  not_rescued,
}
use bustaferl.Cycle.Trail.{CycleOutcome, trace_cycle}
use bustaferl.Cycle.Warm.{
  sync_clock, ensure_clock_synced, periodic_sync, show_board, close_cycle, after_rescue,
  finish_warm_cycle, wrong_password, handle_warm_wifi_down, fetch_and_finish, run_warm_cycle,
  is_nightly, is_button, clock_drifted_ahead, is_auth_failure, if_synced, unless_synced,
}
use bustaferl.Cycle.{
  World, Env, min_plausible_epoch, History, connected, meta_saved, paused, deep_slept, emit,
}

-- The last event is a deep sleep or a pause, and no event before it a deep sleep.
abbrev pub EndsAsleep : History → Type 0
EndsAsleep (deep_slept s ∷ es) = IsAwake es
EndsAsleep (paused s ∷ es) = IsAwake es
EndsAsleep _ = ⊥

module _ (env : Env) where
  pub do_sleep_or_loop-EndsAsleep :
      (sd : SleepDecision) (now : ℕ) (w : World)
      → Awake w
      → EndsAsleep (do_sleep_or_loop env sd now w).log
  unfolding do_sleep_or_loop
  do_sleep_or_loop-EndsAsleep sd now w h = by_mode sd.mode
    where
      by_mode : (m : Mode) → EndsAsleep (sleep_event m (sleep_seconds env sd) ∷ meta_saved ∷ w.log)
      by_mode deep_sleep = (refl, h)
      by_mode active = (refl, h)

  close_cycle-EndsAsleep :
      (fc : FetchCycleResult) (sd : SleepDecision) (oc : CycleOutcome) (now : ℕ) (w : World)
      → Awake w
      → EndsAsleep (close_cycle env fc sd oc now w).log
  unfolding close_cycle trace_cycle
  close_cycle-EndsAsleep fc sd oc now w h = do_sleep_or_loop-EndsAsleep sd now _ (refl, h)

  after_rescue-EndsAsleep :
      (pre : SleepDecision) (now : ℕ) (trigger : CycleTrigger) (rendered tried : Bool) (r : Rescued)
      → Awake r.world
      → EndsAsleep (after_rescue env pre now trigger rendered tried r).log
  unfolding after_rescue
  after_rescue-EndsAsleep pre now trigger rendered tried r h =
      both (λ (w : World). EndsAsleep w.log) r.ok _ _ (close_cycle-EndsAsleep r.fc _ _ _ r.world h)
        (close_cycle-EndsAsleep r.fc pre _ now r.world h)

  finish_warm_cycle-EndsAsleep :
      (schedule : ScheduleSnapshot) (fc : FetchCycleResult) (now : ℕ) (trigger : CycleTrigger)
      (w : World)
      → Awake w
      → EndsAsleep (finish_warm_cycle env schedule fc now trigger w).log
  unfolding finish_warm_cycle run_rescue_fetch
  finish_warm_cycle-EndsAsleep schedule fc now trigger w h =
      let shown = show_board-Awake env schedule fc now _ _ w h in
      after_rescue-EndsAsleep _ now trigger _ _ _ (
        both (λ (r : Rescued). Awake r.world) _ _ _
          (rescue_loop-Awake env schedule fc _ _ _ _ shown) shown)

  pub wrong_password-EndsAsleep : (w : World) → Awake w → EndsAsleep (wrong_password env w).log
  unfolding wrong_password
  wrong_password-EndsAsleep w h = (refl, (refl, h))

  handle_warm_wifi_down-EndsAsleep :
      (schedule : ScheduleSnapshot) (trigger : CycleTrigger) (force : Bool) (w : World)
      → Awake w
      → EndsAsleep (handle_warm_wifi_down env schedule trigger force w).log
  unfolding handle_warm_wifi_down trace_cycle
  handle_warm_wifi_down-EndsAsleep schedule trigger force w h =
      let shown =
        both Awake _ _ w (render_and_push-Awake env _ empty_snapshot schedule force w h) h in
      elim (Bool-cases (is_auth_failure (env.last_failure w.log))) [
        | inl e ↦ rw (e, handle_warm_wifi_down) (wrong_password-EndsAsleep w h)
        | inr e ↦ rw (e, handle_warm_wifi_down) (refl, shown)
      ]

  fetch_and_finish-EndsAsleep :
      (schedule : ScheduleSnapshot) (trigger : CycleTrigger) (w : World)
      → Awake w
      → EndsAsleep (fetch_and_finish env schedule trigger w).log
  unfolding fetch_and_finish
  fetch_and_finish-EndsAsleep schedule trigger w h =
      let gathered = do_fetch_cycle-Awake env schedule w h in
      finish_warm_cycle-EndsAsleep _ _ _ trigger _ (
        both (λ (r : ScheduleSnapshot × World). Awake r.1) _ _ _
          (refresh_schedule-Awake env schedule _ gathered) gathered)

  -- The clock is right and the device awake, or it went to sleep.
  abbrev Synced : Bool × World → Type 0
  Synced (true, w) = Awake w
  Synced (false, w) = EndsAsleep w.log

  ensure_clock_synced-Synced : (w : World) → Awake w → Synced (ensure_clock_synced env w)
  unfolding ensure_clock_synced
  ensure_clock_synced-Synced w h =
      both Synced (ltb (env.now w.log) min_plausible_epoch || clock_drifted_ahead env w)
        (unless_synced env (sync_clock env w)) (true, w)
        (by_sync (sync_clock env w) (sync_clock-Awake env w h)) h
    where
      by_sync : (r : Bool × World) → Awake r.1 → Synced (unless_synced env r)
      by_sync (true, v) k = k
      by_sync (false, v) k = k

  if_synced-EndsAsleep :
      (schedule : ScheduleSnapshot) (trigger : CycleTrigger) (r : Bool × World)
      → Synced r
      → EndsAsleep (if_synced env schedule trigger r).log
  if_synced-EndsAsleep schedule trigger (true, w) h =
      fetch_and_finish-EndsAsleep schedule trigger (periodic_sync env w)
        (periodic_sync-Awake env w h)
  if_synced-EndsAsleep schedule trigger (false, w) h = h

  -- Whatever the hardware and the services answer, a warm cycle that starts awake ends with one sleep,
  -- a deep sleep or the pause of the active phase, as its last act, and with no deep sleep before it.
  pub run_warm_cycle-EndsAsleep :
      (trigger : CycleTrigger) (w : World)
      → IsAwake w.log
      → EndsAsleep (run_warm_cycle env trigger w).log
  unfolding run_warm_cycle
  run_warm_cycle-EndsAsleep trigger w h =
      elim (Bool-cases (env.connect w.log env.cfg.wifi_connect_ms)) [
        | inl e ↦
            rw (e, run_warm_cycle)
              (if_synced-EndsAsleep w.saved_schedule trigger
                (ensure_clock_synced env (emit connected w))
                (ensure_clock_synced-Synced (emit connected w) (refl, h)))
        | inr e ↦
            rw (e, run_warm_cycle)
              (handle_warm_wifi_down-EndsAsleep w.saved_schedule trigger _ (emit connected w)
                (refl, h))
      ]

module _ (env : Env) where
  after_rescue_saves :
      (pre : SleepDecision) (now : ℕ) (trigger : CycleTrigger) (rendered tried : Bool) (r : Rescued)
      → (after_rescue env pre now trigger rendered tried r).saved_meta
        ≡ (after_rescue env pre now trigger rendered tried r).meta
  unfolding after_rescue close_cycle do_sleep_or_loop
  after_rescue_saves pre now trigger rendered tried r = elim (Bool-cases r.ok) [
    | inl e ↦ rw (e, after_rescue)
    | inr e ↦ rw (e, after_rescue)
  ]

  finish_warm_cycle_saves :
      (schedule : ScheduleSnapshot) (fc : FetchCycleResult) (now : ℕ) (trigger : CycleTrigger)
      (w : World)
      → (finish_warm_cycle env schedule fc now trigger w).saved_meta
        ≡ (finish_warm_cycle env schedule fc now trigger w).meta
  unfolding finish_warm_cycle
  finish_warm_cycle_saves schedule fc now trigger w =
      let pre = plan_sleep fc.merged now env.cfg.sleep in
      let nightly = is_nightly env pre now w in
      let (rendered, shown) = show_board env schedule fc now nightly (is_button trigger) w in
      let tried = not nightly && not (fetch_complete fc.summary) in
      after_rescue_saves pre now trigger rendered tried (
        if tried
        then run_rescue_fetch env schedule fc (env.now shown.log) shown
        else not_rescued fc shown)

  fetched_saves :
      (schedule : ScheduleSnapshot) (trigger : CycleTrigger) (w : World)
      → (fetch_and_finish env schedule trigger w).saved_meta
        ≡ (fetch_and_finish env schedule trigger w).meta
  unfolding fetch_and_finish
  fetched_saves schedule trigger w =
      let (fc, gathered) = do_fetch_cycle env schedule w in
      let now = env.now gathered.log in
      let (fresh, ready) =
        if need_schedule_refresh env.midnight schedule now
        then refresh_schedule env schedule gathered
        else (schedule, gathered) in
      finish_warm_cycle_saves fresh fc now trigger ready

  -- If the network connects and the clock is right, or is set, then a warm cycle ends with all its meta
  -- data saved; so the next one starts from what this one counted and planned.
  pub run_warm_cycle_saves :
      (trigger : CycleTrigger) (w : World)
      → env.connect w.log env.cfg.wifi_connect_ms ≡ true
      → (ensure_clock_synced env (emit connected w)).0 ≡ true
      → (run_warm_cycle env trigger w).saved_meta ≡ (run_warm_cycle env trigger w).meta
  unfolding run_warm_cycle
  run_warm_cycle_saves trigger w up synced = rw (up, run_warm_cycle) (by_sync _ synced)
    where
      by_sync :
          (r : Bool × World)
          → r.0 ≡ true
          → (if_synced env w.saved_schedule trigger r).saved_meta
            ≡ (if_synced env w.saved_schedule trigger r).meta
      by_sync (true, v) e = fetched_saves w.saved_schedule trigger (periodic_sync env v)
      by_sync (false, v) e = cc
