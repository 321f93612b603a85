-- ===== src/Examples/Board.antt =====
-- The slot merger on a stream of two realtime departures and a timetable.
use bustaferl.Prelude.{ℕ, ◌≤◌, ◌≡◌, refl, true, List, [], ◌∷◌, All, arith, replicate}
use bustaferl.Data.{
  Departure, realtime, no_departure, StreamSnapshot, ScheduleHint, ScheduleSnapshot,
}
use bustaferl.Slots.{
  merge_stream, merge_slots, hint_departure, add_all_hints, add_hint, add_all_realtime,
  add_realtime,
}
use bustaferl.Slots.Insert.{insert_sorted}
use bustaferl.Slots.Sorted.{IsOrdered}
use bustaferl.Slots.Content.{Shown, Covered}
use bustaferl.Slots.Merge.{IsUpcoming, IsAhead}
use bustaferl.Slots.Board.{
  Won, merge_slots-IsOrdered, merge_stream_realtime_wins, merge_stream_hints-Covered,
}

abbrev bus : ℕ → Departure
bus t = record no_departure { when = t; source = realtime; valid = true }

abbrev slots : List Departure
slots = bus 660 ∷ bus 120 ∷ no_departure ∷ []

abbrev timetable : ScheduleHint
timetable = record { last_today = 900; next_today = 130 ∷ 900 ∷ []; first_tomorrow = 0 ∷ 0 ∷ [] }

-- The hint at 130 shares its minute with the realtime departure at 120; the hint at 900 is added.
merged_slots : merge_stream true 100 slots timetable ≡ bus 120 ∷ bus 660 ∷ hint_departure 900 ∷ []
unfolding merge_stream add_all_hints add_hint insert_sorted add_all_realtime add_realtime
merged_slots = refl

abbrev board : StreamSnapshot
board = record {
  stream = replicate 4 (record { slot = slots; endpoint_responded = true; filter_matched = true });
  api_ok = true;
}

abbrev schedule : ScheduleSnapshot
schedule = record { hint = replicate 4 timetable; fetched_at = 50 }

merge_slots-IsOrdered_example :
    All
      (λ s. IsOrdered s.slot × Shown (λ d. 100 ≤ d.when) s.slot)
      (merge_slots board schedule 100).stream
merge_slots-IsOrdered_example = merge_slots-IsOrdered board schedule 100 refl

merge_stream_realtime_wins_example :
    All (λ d. IsUpcoming 100 d → Won d.when (merge_stream true 100 slots timetable)) slots
merge_stream_realtime_wins_example =
    merge_stream_realtime_wins true 100 slots timetable
      (λ e. ground arith, (λ e. ground arith, (λ e. ground arith, tt)))

merge_stream_hints-Covered_example :
    All (λ t. IsAhead 100 t → Covered t (merge_stream true 100 slots timetable)) (130 ∷ 900 ∷ [])
    × All (λ t. IsAhead 100 t → Covered t (merge_stream true 100 slots timetable)) (0 ∷ 0 ∷ [])
merge_stream_hints-Covered_example = merge_stream_hints-Covered 100 slots timetable
