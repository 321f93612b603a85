-- ===== src/Examples/Frames.antt =====
-- Frames, their codes, their differences and the trace at concrete inputs.
use bustaferl.Prelude.{ℕ, ◌≡◌, refl, true, false, List, [], ◌∷◌, arith}
use bustaferl.Rle.{take_run, delta, rle_encode, rle_encode_delta, rle_decode_delta}
use bustaferl.Rle.Delta.{rle_decode_delta-rle_encode_delta}
use bustaferl.Trace.{trace_cycle_at, trace_error_at, CycleRecord, ntp_fail, button}
use bustaferl.Trace.History.{
  Pushed, a_cycle, an_error, trace_of, recent, cycles_of, errors_of, trace_at-recent,
}
use bustaferl.Refresh.{RefreshConfig, plan_refresh}
use bustaferl.Refresh.Plan.{glass, glass-plan_refresh}
use bustaferl.Refresh.Apply.{Counters}

abbrev frame : List ℕ
frame = 255 ∷ 255 ∷ 255 ∷ 7 ∷ 7 ∷ 0 ∷ []

rle_encode_run : rle_encode frame 6 ≡ 3 ∷ 255 ∷ 2 ∷ 7 ∷ 1 ∷ 0 ∷ []
unfolding rle_encode take_run
rle_encode_run = refl

rle_decode_delta_example : rle_decode_delta (rle_encode_delta frame 2 8) 2 6 ≡ frame
unfolding take_run delta
rle_decode_delta_example =
    rle_decode_delta-rle_encode_delta frame 2 8 6 (omega arith) (omega arith) (omega arith)

abbrev a_record : CycleRecord
a_record = record {
  at = 1000;
  flags = 3;
  sleep_s = 60;
  trigger = button;
  failed_batches = 0;
  retried_batches = 1;
  heap_free_kb = 200;
}

abbrev pushes : List Pushed
pushes = a_cycle a_record ∷ an_error (record { at = 900; code = ntp_fail; detail = 0 }) ∷ []

trace_at-recent_example :
    (trace_cycle_at (trace_of pushes) 0 ≡ recent (cycles_of pushes) 0)
    × (trace_error_at (trace_of pushes) 0 ≡ recent (errors_of pushes) 0)
trace_at-recent_example = trace_at-recent pushes 0

-- A panel of 16 by 2 pixels.
abbrev before : List ℕ
before = 255 ∷ 255 ∷ 255 ∷ 255 ∷ []

abbrev after : List ℕ
after = 255 ∷ 255 ∷ 255 ∷ 0 ∷ []

abbrev last_full : ℕ
last_full = 900

abbrev small_panel : RefreshConfig
small_panel = record { width = 16; height = 2; light_full_every_s = 3600; partial_hardcap = 15 }

glass-plan_refresh_example :
    glass (plan_refresh before after true 1000 900 3 small_panel false) before after 2 1 1 ≡ 0
glass-plan_refresh_example =
    glass-plan_refresh before after true 1000 900 3 small_panel false 2 1 1 refl (omega arith)
      (omega arith)

abbrev counters : Counters
counters = record { partial_count = 15; last_light_full = 900; last_deep_clean = 0 }
