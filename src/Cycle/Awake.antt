-- ===== src/Cycle/Awake.antt =====
-- What the parts of a cycle log: none of them goes to deep sleep.
use bustaferl.Prelude.{
  ℕ, zero, suc, ◌≡◌, refl, sym, subst, Bool, true, false, List, [], ◌∷◌, ◌++◌, map, All, Bool-cases,
  inl, inr, if◌then◌else◌, both,
}
use bustaferl.Data.{StreamSnapshot, ScheduleSnapshot}
use bustaferl.Refresh.{RefreshDecision}
use bustaferl.Refresh.Apply.{Paint}
use bustaferl.Schedule.{fetch_schedule, apply_schedule_fetch_result}
use bustaferl.Screen.{DisplayState}
use bustaferl.Policy.Rescue.{RescueStep, wait, retry, stop, next_rescue_step}
use bustaferl.Cycle.Store.{save_framebuffer}
use bustaferl.Cycle.Push.{
  restamp, apply_decision, keep_frame, push_frame, render_and_push, stamped, set_updated,
}
use bustaferl.Cycle.Gather.{
  FetchCycleResult, efa_config, fetch_and_log, do_fetch_cycle, refresh_schedule, Rescued,
  rescue_attempt, rescue_step, rescue_loop,
}
use bustaferl.Cycle.Warm.{sync_clock, periodic_sync, do_nightly_clean, show_board}
use bustaferl.Cycle.{World, Env, Event, History, fetched, painted, deep_slept}

abbrev is_deep_sleep : Event → Bool
is_deep_sleep (deep_slept s) = true
is_deep_sleep _ = false

-- No event is a deep sleep.
abbrev pub IsAwake : History → Type 0
IsAwake = All (λ e. is_deep_sleep e ≡ false)

IsAwake-paints : (ps : List Paint) (es : History) → IsAwake es → IsAwake (map painted ps ++ es)
IsAwake-paints [] es h = h
IsAwake-paints (p ∷ ps) es h = (refl, IsAwake-paints ps es h)

apply_decision-IsAwake :
    (d : RefreshDecision) (now : ℕ) (w : World)
    → IsAwake w.log
    → IsAwake (apply_decision d now w).log
unfolding apply_decision
apply_decision-IsAwake d now w h = IsAwake-paints _ w.log h

keep_frame-IsAwake : (w : World) → IsAwake w.log → IsAwake (keep_frame w).log
unfolding keep_frame save_framebuffer
keep_frame-IsAwake w h = (refl, h)

if_same : {A B : Type 0} (f : A → B) (b : Bool) (x y : A) → f x ≡ f y → f (if b then x else y) ≡ f y
if_same f true x y e = e
if_same f false x y e = refl

abbrev pub Awake : World → Type 0
Awake w = IsAwake w.log

module _ (env : Env) where
  pub stamped-Awake : (t : ℕ) (w : World) → Awake w → Awake (stamped env t w)
  stamped-Awake t w h = both Awake env.cfg.update_stamp_enabled _ _ h h

  pub set_updated-Awake : (t : ℕ) (w : World) → Awake w → Awake (set_updated env t w)
  set_updated-Awake t w h = both Awake env.cfg.update_stamp_enabled _ _ h h

  restamp-Awake :
      (now : ℕ) (force : Bool) (prev : Bool × List ℕ) (d : RefreshDecision) (w : World)
      → Awake w
      → Awake (restamp env now force prev d w).1
  unfolding restamp
  restamp-Awake now force prev d w h =
      both (λ (r : RefreshDecision × World). Awake r.1) _ _ _
        (set_updated-Awake now _ (stamped-Awake now w h)) h

  push_frame-Awake :
      (now : ℕ) (force : Bool) (w : World) → Awake w → Awake (push_frame env now force w)
  unfolding push_frame
  push_frame-Awake now force w h =
      let first = stamped-Awake (if force then now else w.meta.last_display_update) w h in
      let forced = both Awake force _ _ (set_updated-Awake now _ first) first in
      keep_frame-IsAwake _ (apply_decision-IsAwake _ now _ (restamp-Awake now force _ _ _ forced))

  pub render_and_push-Awake :
      (state : DisplayState) (snap : StreamSnapshot) (schedule : ScheduleSnapshot) (force : Bool)
      (w : World)
      → Awake w
      → Awake (render_and_push env state snap schedule force w)
  unfolding render_and_push
  render_and_push-Awake state snap schedule force w h = push_frame-Awake _ force _ h

  log-do_fetch_cycle :
      (schedule : ScheduleSnapshot) (w : World)
      → (do_fetch_cycle env schedule w).1.log ≡ fetched ∷ w.log
  unfolding do_fetch_cycle fetch_and_log
  log-do_fetch_cycle schedule w = if_same (λ (v : World). v.log) _ _ _ refl

  pub do_fetch_cycle-Awake :
      (schedule : ScheduleSnapshot) (w : World) → Awake w → Awake (do_fetch_cycle env schedule w).1
  do_fetch_cycle-Awake schedule w h = subst IsAwake (sym (log-do_fetch_cycle schedule w)) (refl, h)

  pub refresh_schedule-Awake :
      (schedule : ScheduleSnapshot) (w : World)
      → Awake w
      → Awake (refresh_schedule env schedule w).1
  unfolding refresh_schedule
  refresh_schedule-Awake schedule w h =
      let now = env.now w.log in
      let r = fetch_schedule (env.efa w.log) env.local_at now env.divas efa_config in
      elim (Bool-cases (apply_schedule_fetch_result r now schedule).0) [
        | inl e ↦ rw (e, refresh_schedule) (refl, (refl, h))
        | inr e ↦ rw (e, refresh_schedule) (refl, h)
      ]

  module _ (schedule : ScheduleSnapshot) (fc : FetchCycleResult) where
    rescue_attempt-Awake :
        (go_on : World → Rescued) (w : World)
        → ((v : World) → Awake v → Awake (go_on v).world)
        → Awake w
        → Awake (rescue_attempt env schedule fc go_on w).world
    unfolding rescue_attempt
    rescue_attempt-Awake go_on w k h =
        let tried = do_fetch_cycle-Awake schedule w h in
        both (λ (r : Rescued). Awake r.world) _ _ _
          (render_and_push-Awake _ _ schedule false _ tried) (k _ (refl, tried))

    rescue_step-Awake :
        (after_wait after_try : World → Rescued) (w : World) (s : RescueStep × ℕ)
        → ((v : World) → Awake v → Awake (after_wait v).world)
        → ((v : World) → Awake v → Awake (after_try v).world)
        → Awake w
        → Awake (rescue_step env schedule fc after_wait after_try w s).world
    rescue_step-Awake after_wait after_try w (stop, s) a b h = h
    rescue_step-Awake after_wait after_try w (wait, s) a b h = a _ (refl, h)
    rescue_step-Awake after_wait after_try w (retry, s) a b h = rescue_attempt-Awake after_try w b h

    pub rescue_loop-Awake :
        (anchored_at attempts waits : ℕ) (w : World)
        → Awake w
        → Awake (rescue_loop env schedule fc anchored_at attempts waits w).world
    unfolding rescue_loop
    rescue_loop-Awake anchored_at zero waits w h = h
    rescue_loop-Awake anchored_at (suc attempts) zero w h = h
    rescue_loop-Awake anchored_at (suc attempts) (suc waits) w h =
        rescue_step-Awake (rescue_loop env schedule fc anchored_at (suc attempts) waits)
          (rescue_loop env schedule fc anchored_at attempts (suc waits)) w
          (next_rescue_step (env.now w.log) anchored_at env.cfg.rescue)
          (rescue_loop-Awake anchored_at (suc attempts) waits)
          (rescue_loop-Awake anchored_at attempts (suc waits)) h

  pub sync_clock-Awake : (w : World) → Awake w → Awake (sync_clock env w).1
  unfolding sync_clock
  sync_clock-Awake w h = elim (Bool-cases (env.ntp_sync w.log)) [
    | inl e ↦ rw (e, sync_clock) (refl, h)
    | inr e ↦ rw (e, sync_clock) (refl, h)
  ]

  pub periodic_sync-Awake : (w : World) → Awake w → Awake (periodic_sync env w)
  unfolding periodic_sync
  periodic_sync-Awake w h = both Awake _ _ _ (sync_clock-Awake w h) h

  pub do_nightly_clean-Awake :
      (schedule : ScheduleSnapshot) (fc : FetchCycleResult) (now : ℕ) (w : World)
      → Awake w
      → Awake (do_nightly_clean env schedule fc now w)
  unfolding do_nightly_clean save_framebuffer
  do_nightly_clean-Awake schedule fc now w h =
      (refl, (refl, set_updated-Awake now _ (stamped-Awake now _ h)))

  pub show_board-Awake :
      (schedule : ScheduleSnapshot) (fc : FetchCycleResult) (now : ℕ) (nightly force : Bool)
      (w : World)
      → Awake w
      → Awake (show_board env schedule fc now nightly force w).1
  unfolding show_board
  show_board-Awake schedule fc now nightly force w h =
      both (λ (r : Bool × World). Awake r.1) nightly _ _
        (do_nightly_clean-Awake schedule fc now w h)
        (both (λ (r : Bool × World). Awake r.1) _ _ _
          (render_and_push-Awake fc.state fc.snap schedule force w h) h)
