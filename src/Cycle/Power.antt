-- ===== src/Cycle/Power.antt =====
-- src/main.cpp: what the firmware does after a reset, and in its loop.
use bustaferl.Prelude.{ℕ, ◌≡◌, ◌<◌, ◌⊎◌, Bool, true, false, Option, some}
use bustaferl.Trace.{timer}
use bustaferl.Cycle.Awake.{Awake}
use bustaferl.Cycle.Asleep.{EndsAsleep}
use bustaferl.Cycle.Warm.{run_warm_cycle}
use bustaferl.Cycle.Cold.{
  WakeCause, CycleKind, cold_cycle, warm_cycle, button_cycle, select_cycle, run_cold_cycle,
}
use bustaferl.Cycle.Press.{show_brownout_screen, run_button_wake, poll_button_and_run_warm}
use bustaferl.Cycle.{ResetReason, World, Env, set_meta}

-- makeDeps: a cycle of `setup` finds the panel after a deep sleep, one of `loop` does not.
abbrev pub make_deps : Bool → Env → Env
make_deps deep_wake env = record env { cfg = record env.cfg { deep_wake = deep_wake } }

-- The meta data are loaded with the cause of the reset, and the overlay is shown.
unfoldable pub started : Env → ResetReason → World → World
unfolding show_brownout_screen
started env reason w =
    show_brownout_screen env reason
      (set_meta (record w.saved_meta { last_reset_reason = reason }) w)

abbrev dispatch : Env → ℕ → ℕ → CycleKind → World → Option World
dispatch env hold fuel cold_cycle w = some (run_cold_cycle env w)
dispatch env hold fuel button_cycle w = run_button_wake env hold fuel w
dispatch env hold fuel warm_cycle w = some (run_warm_cycle env timer w)

-- setup(), from the load of the meta data on.
unfoldable pub setup : Env → ℕ → ℕ → WakeCause → ResetReason → World → Option World
unfolding started
setup env hold fuel cause reason w =
    let deps = make_deps true env in
    let shown = started deps reason w in
    dispatch deps hold fuel
      (select_cycle cause shown.meta.cold_boot_retries shown.meta.has_any_data) shown

-- loop()
unfoldable pub loop : Env → ℕ → ℕ → World → Option World
loop env hold fuel w =
    poll_button_and_run_warm (make_deps false env) hold fuel (set_meta w.saved_meta w)

-- The device is in its cold retries, or never had anything to show.
abbrev pub IsCold : World → Type 0
IsCold w = (0 < w.saved_meta.cold_boot_retries) ⊎ (w.saved_meta.has_any_data ≡ false)

-- The run is that of the cycle for the state that outlasted the reset, and ends with the sleep.
abbrev pub RunsOne : Env → World → World → Option World → Type 0
RunsOne env w v o =
    (final : World) × (o ≡ some final)
    × EndsAsleep final.log
    × ((IsCold w × (final ≡ run_cold_cycle env v))
        ⊎ ((IsCold w → ⊥) × (final ≡ run_warm_cycle env timer v)))
