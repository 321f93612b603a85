-- ===== src/Slots/Board.antt =====
-- What `mergeSlots` promises of every stream: order, provenance, completeness, realtime first.
use bustaferl.Prelude.{
  ℕ, ◌≤◌, ◌≡◌, ◌≢◌, true, false, Bool, List, [], ◌∷◌, arith, All, All-map, length,
}
use bustaferl.Data.{
  Departure, hint, StreamData, StreamSnapshot, ScheduleHint, ScheduleSnapshot, empty_slots,
}
use bustaferl.Slots.{
  add_all_realtime, add_all_hints, merge_stream, merge_streams, merge_slots, schedule_usable,
  hint_departure,
}
use bustaferl.Slots.Sorted.{IsOrdered}
use bustaferl.Slots.Content.{
  Shown, Covered, NoHintAt, insert_sorted-Shown, insert_sorted-Covered, insert_sorted-NoHintAt,
}
use bustaferl.Slots.Merge.{
  IsUpcoming, IsAhead, every, merge_stream_keeps, merge_stream-IsOrdered, add_all_realtime_keeps,
  realtime-Covered, hints-Covered, realtime_keeps, hints_keep, Both, Both-Keeps, Keeps,
}

-- Whatever holds of the upcoming realtime departures, and of the departures made of the hints that
-- are set and ahead if the timetable is used, holds of every departure that a merged stream shows.
pub merge_stream-Shown :
    (P : Departure → Type 0) (use_schedule : Bool) (now : ℕ) (slots : List Departure)
    (h : ScheduleHint)
    → All (λ d. IsUpcoming now d → P d) slots
    → (use_schedule ≡ true → All (λ t. IsAhead now t → P (hint_departure t)) h.next_today)
    → (use_schedule ≡ true → All (λ t. IsAhead now t → P (hint_departure t)) h.first_tomorrow)
    → Shown P (merge_stream use_schedule now slots h)
merge_stream-Shown P use_schedule now slots h kd kt km =
    (merge_stream_keeps (Both (Shown P)) now use_schedule slots h (ground arith, ground arith)
      (All-map keeps slots kd) (λ e. All-map hint_keeps h.next_today (kt e))
      (λ e. All-map hint_keeps h.first_tomorrow (km e))).1
  where
    keeps : (d : Departure) → (IsUpcoming now d → P d) → IsUpcoming now d → Keeps (Both (Shown P)) d
    keeps d k u = Both-Keeps (Shown P) d (insert_sorted-Shown P d (λ _. k u))

    hint_keeps :
        (t : ℕ)
        → (IsAhead now t → P (hint_departure t))
        → IsAhead now t
        → Keeps (Both (Shown P)) (hint_departure t)
    hint_keeps t k u =
        Both-Keeps (Shown P) (hint_departure t)
          (insert_sorted-Shown P (hint_departure t) (λ _. k u))

merge_stream_future :
    (use_schedule : Bool) (now : ℕ) (slots : List Departure) (h : ScheduleHint)
    → Shown (λ d. now ≤ d.when) (merge_stream use_schedule now slots h)
merge_stream_future use_schedule now slots h =
    merge_stream-Shown (λ d. now ≤ d.when) use_schedule now slots h (every (λ d u. u.1) slots)
      (λ _. every (λ t u. u.1) h.next_today) (λ _. every (λ t u. u.1) h.first_tomorrow)

merge_streams-IsOrdered :
    (use_schedule : Bool) (now : ℕ) (ss : List StreamData) (hs : List ScheduleHint)
    → length ss ≡ length hs
    → All
        (λ s. IsOrdered s.slot × Shown (λ d. now ≤ d.when) s.slot)
        (merge_streams use_schedule now ss hs)
unfolding merge_streams
merge_streams-IsOrdered use_schedule now [] hs e = tt
merge_streams-IsOrdered use_schedule now (s ∷ ss) [] e = absurd (omega arith)
merge_streams-IsOrdered use_schedule now (s ∷ ss) (h ∷ hs) e = (
  (merge_stream-IsOrdered use_schedule now s.slot h, merge_stream_future use_schedule now s.slot h),
  merge_streams-IsOrdered use_schedule now ss hs (omega arith),
)

-- On every stream of the merged snapshot the slots are sorted by strictly rising minutes with the
-- free slots behind, and every departure shown is at `now` or later.
pub merge_slots-IsOrdered :
    (snap : StreamSnapshot) (schedule : ScheduleSnapshot) (now : ℕ)
    → length snap.stream ≡ length schedule.hint
    → All
        (λ s. IsOrdered s.slot × Shown (λ d. now ≤ d.when) s.slot)
        (merge_slots snap schedule now).stream
unfolding merge_slots
merge_slots-IsOrdered snap schedule now e =
    merge_streams-IsOrdered (schedule_usable schedule now) now snap.stream schedule.hint e

-- What a realtime departure has on the board outlasts the hints.
abbrev pub Won : ℕ → List Departure → Type 0
Won t out = Covered t out × NoHintAt t out

hints_keep_Won :
    (now t : ℕ) (ts : List ℕ) (out : List Departure)
    → Both (Won t) out
    → Both (Won t) (add_all_hints now out ts)
hints_keep_Won now t ts out =
    hints_keep now (Won t) ts out
      λ d o s w. (insert_sorted-Covered t d o s w.0, insert_sorted-NoHintAt t d o s w.0 w.1)

realtime_no_hint :
    (now : ℕ) (slots : List Departure)
    → All (λ d. d.source ≢ hint) slots
    → Both (Shown (λ d. d.source ≢ hint)) (add_all_realtime now empty_slots slots)
realtime_no_hint now slots src =
    add_all_realtime_keeps (Both (Shown (λ d. d.source ≢ hint))) now slots empty_slots
      (All-map (λ d n _. Both-Keeps _ d (insert_sorted-Shown (λ c. c.source ≢ hint) d (λ _. n)))
        slots src)
      (ground arith, ground arith)

-- Of a merged stream, every upcoming realtime departure has its minute on the board, or the board is
-- full of earlier minutes; and no hint is shown in its minute. The realtime slots hold no hint.
pub merge_stream_realtime_wins :
    (use_schedule : Bool) (now : ℕ) (slots : List Departure) (h : ScheduleHint)
    → All (λ d. d.source ≢ hint) slots
    → All (λ d. IsUpcoming now d → Won d.when (merge_stream use_schedule now slots h)) slots
unfolding merge_stream
merge_stream_realtime_wins use_schedule now slots h src =
    All-map (λ d c u. finish use_schedule d.when (c u)) slots
      (realtime-Covered now slots empty_slots (ground arith))
  where
    plain : Both (Shown (λ d. d.source ≢ hint)) (add_all_realtime now empty_slots slots)
    plain = realtime_no_hint now slots src

    start :
        (t : ℕ)
        → Covered t (add_all_realtime now empty_slots slots)
        → Both (Won t) (add_all_realtime now empty_slots slots)
    start t c =
        (plain.0, (c, All-map (λ d n v _. n v) (add_all_realtime now empty_slots slots) plain.1))

    finish :
        (b : Bool) (t : ℕ)
        → Covered t (add_all_realtime now empty_slots slots)
        → Won t (merge_stream b now slots h)
    finish false t c = (start t c).1
    finish true t c =
        (hints_keep_Won now t h.first_tomorrow _
          (hints_keep_Won now t h.next_today _ (start t c))).1

-- With a usable timetable every hint that is set and ahead has its minute on the merged board, or the
-- board is full of earlier minutes.
pub merge_stream_hints-Covered :
    (now : ℕ) (slots : List Departure) (h : ScheduleHint)
    → All (λ t. IsAhead now t → Covered t (merge_stream true now slots h)) h.next_today
      × All (λ t. IsAhead now t → Covered t (merge_stream true now slots h)) h.first_tomorrow
unfolding merge_stream
merge_stream_hints-Covered now slots h = (
  All-map
      (λ t c u.
        (hints_keep now (Covered t) h.first_tomorrow _ (λ d. insert_sorted-Covered t d)
          (today, c u)).1)
      h.next_today (hints-Covered now h.next_today _ base),
  hints-Covered now h.first_tomorrow _ today,
)
  where
    base : IsOrdered (add_all_realtime now empty_slots slots)
    base =
        (realtime_keeps now (λ _. Unit {0}) slots empty_slots (λ _ _ _ _. tt) (ground arith, tt)).0

    today : IsOrdered (add_all_hints now (add_all_realtime now empty_slots slots) h.next_today)
    today = (hints_keep now (λ _. Unit {0}) h.next_today _ (λ _ _ _ _. tt) (base, tt)).0
