-- ===== src/Cycle/Settled.antt =====
-- A cold cycle ends with one sleep too, on each of its branches.
use bustaferl.Prelude.{both, refl, Bool, true, false, ◌||◌, ltb, ◌==◌, Bool-cases, inl, inr}
use bustaferl.Data.{StreamSnapshot, ScheduleSnapshot}
use bustaferl.Fetch.Snapshot.{FetchSummary}
use bustaferl.Screen.{BootResult}
use bustaferl.Cycle.Awake.{IsAwake, Awake, stamped-Awake, set_updated-Awake, refresh_schedule-Awake}
use bustaferl.Cycle.Asleep.{EndsAsleep, do_sleep_or_loop-EndsAsleep, wrong_password-EndsAsleep}
use bustaferl.Cycle.Store.{save_framebuffer}
use bustaferl.Cycle.Gather.{fetch_and_log}
use bustaferl.Cycle.Trail.{trace_cycle}
use bustaferl.Cycle.Warm.{is_auth_failure}
use bustaferl.Cycle.Cold.{
  paint_no_network_screen, no_network, handle_cold_boot_outcome, is_booted, show_boot_screen,
  show_boot_check, finish_cold_cycle, first_fetch, if_booted, boot_calls, run_cold_cycle,
}
use bustaferl.Cycle.{World, Env}

module _ (env : Env) where
  no_network-EndsAsleep : (w : World) → Awake w → EndsAsleep (no_network env w).log
  unfolding no_network paint_no_network_screen
  no_network-EndsAsleep w h =
      let painted : Awake (paint_no_network_screen env (w.meta.no_wifi_cycles == 0) w) =
        (refl, h) in
      (refl, both Awake _ (paint_no_network_screen env (w.meta.no_wifi_cycles == 0) w) w painted h)

  -- The boot succeeded and the device is awake, or it went to sleep.
  abbrev Booted : Bool × World → Type 0
  Booted (true, w) = Awake w
  Booted (false, w) = EndsAsleep w.log

  handle_cold_boot_outcome-Booted :
      (r : BootResult) (w : World) → Awake w → Booted (handle_cold_boot_outcome env r w)
  unfolding handle_cold_boot_outcome
  handle_cold_boot_outcome-Booted r w h = elim (Bool-cases (is_booted r)) [
    | inl e ↦ rw (e, handle_cold_boot_outcome) h
    | inr e ↦ elim (Bool-cases (is_auth_failure (env.last_failure w.log))) [
      | inl f ↦ rw (e, f, handle_cold_boot_outcome) (wrong_password-EndsAsleep env _ h)
      | inr f ↦ rw (e, f, handle_cold_boot_outcome) (no_network-EndsAsleep w h)
    ]
  ]

  show_boot_screen-Awake : (w : World) → Awake w → Awake (show_boot_screen env w)
  unfolding show_boot_screen
  show_boot_screen-Awake w h =
      elim (Bool-cases (w.meta.framebuffer_valid || ltb 0 w.meta.cold_boot_retries)) [
        | inl e ↦ rw (e, show_boot_screen) h
        | inr e ↦ rw (e, show_boot_screen) (refl, h)
      ]

  show_boot_check-Awake : (w : World) → Awake w → Awake (show_boot_check env w)
  unfolding show_boot_check
  show_boot_check-Awake w h = elim (Bool-cases (env.cfg.boot_info_show_s == 0)) [
    | inl e ↦ rw (e, show_boot_check) h
    | inr e ↦ rw (e, show_boot_check) (refl, (refl, h))
  ]

  finish_cold_cycle-EndsAsleep :
      (snap : StreamSnapshot) (schedule : ScheduleSnapshot) (summary : FetchSummary) (w : World)
      → Awake w
      → EndsAsleep (finish_cold_cycle env snap schedule summary w).log
  unfolding finish_cold_cycle trace_cycle save_framebuffer
  finish_cold_cycle-EndsAsleep snap schedule summary w h =
      let now = env.now w.log in
      do_sleep_or_loop-EndsAsleep env _ now _
        (refl, (refl, (refl, set_updated-Awake env now _ (stamped-Awake env now _ h))))

  first_fetch-EndsAsleep : (w : World) → Awake w → EndsAsleep (first_fetch env w).log
  unfolding first_fetch fetch_and_log
  first_fetch-EndsAsleep w h = elim (Bool-cases (fetch_and_log env w).0.out.api_ok) [
    | inl e ↦
        rw (e, first_fetch)
          (finish_cold_cycle-EndsAsleep _ _ _ _
            (show_boot_check-Awake _ (refresh_schedule-Awake env _ _ (refl, h))))
    | inr e ↦
        rw (e, first_fetch)
          (finish_cold_cycle-EndsAsleep _ _ _ _
            (show_boot_check-Awake _ (refresh_schedule-Awake env _ _ (refl, h))))
  ]

  if_booted-EndsAsleep : (r : Bool × World) → Booted r → EndsAsleep (if_booted env r).log
  if_booted-EndsAsleep (true, w) h = first_fetch-EndsAsleep w h
  if_booted-EndsAsleep (false, w) h = h

  boot_calls-Awake : (w : World) → Awake w → Awake (boot_calls env w).1
  unfolding boot_calls
  boot_calls-Awake w h = elim (Bool-cases (env.connect w.log env.cfg.wifi_timeout_ms)) [
    | inl e ↦ rw (e, boot_calls) (refl, (refl, h))
    | inr e ↦ rw (e, boot_calls) (refl, h)
  ]

  -- Whatever the hardware and the services answer, a cold cycle that starts awake ends with one sleep as
  -- its last act, and with no deep sleep before it: after its first fetch, for a wrong password, and
  -- for a boot without a network or a clock.
  pub run_cold_cycle-EndsAsleep :
      (w : World) → IsAwake w.log → EndsAsleep (run_cold_cycle env w).log
  unfolding run_cold_cycle
  run_cold_cycle-EndsAsleep w h =
      let tried = boot_calls-Awake (show_boot_screen env w) (show_boot_screen-Awake w h) in
      let (r, v) = boot_calls env (show_boot_screen env w) in
      if_booted-EndsAsleep (handle_cold_boot_outcome env r v)
        (handle_cold_boot_outcome-Booted r v tried)
