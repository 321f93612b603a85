-- ===== src/Slots.antt =====
-- src/logic/slot_merger.cpp: the departures that a stream shows, merged from the realtime slots and
-- the timetable hints.
pub mod Insert
pub mod Sorted
pub mod Content
pub mod Merge
pub mod Board
use bustaferl.Prelude.{
  ℕ, zero, suc, ◌+◌, ◌*◌, Bool, true, false, List, [], ◌∷◌, ltb, leb, ◌==◌, ◌&&◌, ◌||◌, not,
  if◌then◌else◌,
}
use bustaferl.Data.{
  Departure, hint, StreamData, StreamSnapshot, ScheduleHint, ScheduleSnapshot, no_departure,
  empty_slots, empty_hint,
}
use Insert.{insert_sorted}

abbrev pub schedule_hint_max_age_s : ℕ
schedule_hint_max_age_s = 48 * 3600

-- `now - fetched_at < max_age` over signed times: a load in the future counts as fresh.
unfoldable pub schedule_usable : ScheduleSnapshot → ℕ → Bool
schedule_usable s now =
    if s.fetched_at == 0 then false else ltb now (s.fetched_at + schedule_hint_max_age_s)

abbrev pub hint_departure : ℕ → Departure
hint_departure t = record no_departure { when = t; source = hint; valid = true }

unfoldable pub add_realtime : ℕ → List Departure → Departure → List Departure
add_realtime now merged d = if d.valid && leb now d.when then insert_sorted merged d else merged

unfoldable pub add_hint : ℕ → List Departure → ℕ → List Departure
add_hint now merged t =
    if t == 0 || ltb t now then merged else insert_sorted merged (hint_departure t)

-- for (d : slots) add_realtime
unfoldable pub add_all_realtime : ℕ → List Departure → List Departure → List Departure
add_all_realtime now merged [] = merged
add_all_realtime now merged (d ∷ ds) = add_all_realtime now (add_realtime now merged d) ds

unfoldable pub add_all_hints : ℕ → List Departure → List ℕ → List Departure
add_all_hints now merged [] = merged
add_all_hints now merged (t ∷ ts) = add_all_hints now (add_hint now merged t) ts

-- The body of the loop over the streams.
unfoldable pub merge_stream : Bool → ℕ → List Departure → ScheduleHint → List Departure
merge_stream use_schedule now slots h =
    let merged = add_all_realtime now empty_slots slots in
    if use_schedule
    then add_all_hints now (add_all_hints now merged h.next_today) h.first_tomorrow
    else merged

unfoldable pub merge_streams : Bool → ℕ → List StreamData → List ScheduleHint → List StreamData
merge_streams use_schedule now [] hs = []
merge_streams use_schedule now (s ∷ ss) [] = s ∷ ss
merge_streams use_schedule now (s ∷ ss) (h ∷ hs) =
    record s { slot = merge_stream use_schedule now s.slot h }
    ∷ merge_streams use_schedule now ss hs

unfoldable pub merge_slots : StreamSnapshot → ScheduleSnapshot → ℕ → StreamSnapshot
merge_slots snap schedule now = record snap {
  stream = merge_streams (schedule_usable schedule now) now snap.stream schedule.hint;
}
