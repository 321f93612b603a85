-- ===== src/Examples/Policies.antt =====
-- The decision functions, the button and the diagnostic pages at concrete inputs.
use bustaferl.Prelude.{
  ℕ, ◌+◌, ◌≤◌, ◌≡◌, refl, true, false, [], ◌∷◌, some, ltb, if◌then◌else◌, All, arith,
}
use bustaferl.Data.{no_departure, StreamSnapshot, empty_stream, realtime}
use bustaferl.Button.{double, Line, classify_press}
use bustaferl.Button.Verdict.{Polls, classify_press-resolve}
use bustaferl.Policy.Health.{FilterHealth, Call}
use bustaferl.Policy.Rescue.{RescueConfig}
use bustaferl.Policy.Sleep.{
  SleepConfig, plan_sleep, earliest, earliest_slot, earlier, plan_sleep-InTime,
}

-- Held up to 75 ms, and again from 200 ms on.
abbrev tapped_twice : Line
tapped_twice t = if ltb t 75 then true else if ltb t 200 then false else true

abbrev hold_polls : Polls 10 100
hold_polls = record { reached = omega arith; needed = omega arith; no_wrap = omega arith }

abbrev window_polls : Polls 20 200
window_polls = record { reached = omega arith; needed = omega arith; no_wrap = omega arith }

-- Released at 80 ms, held again at 200 ms, and long at 220 + 100 ms.
classify_press-resolve_example : classify_press 31 tapped_twice 100 200 0 ≡ some (double, 320)
classify_press-resolve_example =
    classify_press-resolve 20 10 30 tapped_twice 100 200 0 (omega arith) (omega arith) (omega arith)
      hold_polls window_polls

abbrev filter : FilterHealth
filter = record { streak = 0; dead_after = 3 }

abbrev missed : Call
missed = record { endpoint_responded = true; filter_matched = false }

abbrev last_success : ℕ
last_success = 100

abbrev rescue : RescueConfig
rescue = record { window_start_s = 20; window_end_s = 110; retry_pause_s = 10 }

abbrev sleeper : SleepConfig
sleeper = record {
  wake_before_bus_s = 300;
  boot_margin_s = 30;
  active_threshold_s = 120;
  no_data_sleep_s = 900;
  api_failure_retry_s = 60;
}

abbrev one_bus : StreamSnapshot
one_bus = record {
  stream =
      record empty_stream {
        slot = record no_departure { when = 5000; source = realtime; valid = true } ∷ [];
      }
      ∷ [];
  api_ok = true;
}

plan_sleep-InTime_example :
    All
      (λ s.
        All
          (λ d.
            d.valid ≡ true → 1000 + (plan_sleep one_bus 1000 sleeper).seconds + 300 + 30 ≤ d.when)
          s.slot)
      one_bus.stream
unfolding plan_sleep earliest earliest_slot earlier
plan_sleep-InTime_example = plan_sleep-InTime one_bus 1000 sleeper refl refl
