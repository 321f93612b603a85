-- ===== src/Parse/Monitor.antt =====
-- src/data/wienerlinien_parse.cpp: the departures of a monitor response of the OGD service.
pub mod Shape
pub mod Merged
pub mod Responds
use bustaferl.Prelude.{
  ℕ, zero, suc, ◌+◌, ◌-◌, ◌%◌, ◌^◌, Bool, true, false, List, [], ◌∷◌, Option, none, some, ltb, leb,
  ◌==◌, ◌&&◌, not, if◌then◌else◌, get_or, set,
}
use bustaferl.Prelude.Int.{ℤ, pos, negsuc, pos_part, neg_part}
use bustaferl.Data.{
  Departure, DepartureSource, realtime, plan, no_departure, StreamData, StreamSnapshot,
  empty_stream, empty_snapshot, slots_per_stream,
}
use bustaferl.Parse.{Text, Reader, get_some, same_text, starts_with, key}
use bustaferl.Parse.Iso.{parse_iso8601}

pub record StreamFilter : Type 0 where
  pub rbl : ℤ
  pub line : Text
  pub towards_prefix : Text

abbrev pub same_int : ℤ → ℤ → Bool
same_int a b = pos_part a == pos_part b && neg_part a == neg_part b

abbrev next_index : Option ℕ → Option ℕ
next_index none = none
next_index (some i) = some (suc i)

-- `none` is -1.
unfoldable pub find_filter_for_rbl : ℤ → List StreamFilter → Option ℕ
find_filter_for_rbl rbl [] = none
find_filter_for_rbl rbl (f ∷ fs) =
    let rest = find_filter_for_rbl rbl fs in
    if same_int f.rbl rbl then some zero else next_index rest

-- A time_t has 64 bits.
abbrev pub time_bits : ℤ → ℕ
time_bits (pos n) = n % 2 ^ 64
time_bits (negsuc n) = 2 ^ 64 - 1 - n % 2 ^ 64

abbrev time_of : Option Text → ℤ
time_of none = pos 0
time_of (some []) = pos 0
time_of (some (c ∷ s)) = parse_iso8601 (c ∷ s)

abbrev pub is_zero : ℤ → Bool
is_zero = same_int (pos 0)

-- What is stored of a departure, or none for `continue`.
pub record Times : Type 0 where
  pub when : ℤ
  pub planned : ℤ
  pub source : DepartureSource

unfoldable pub read_times : Option Text → Option Text → Option Times
read_times real plan_text =
    let planned = time_of plan_text in
    let t = time_of real in
    if not (is_zero t)
    then some (record { when = t; planned = planned; source = realtime })
    else if not (is_zero planned)
    then some (record { when = planned; planned = planned; source = plan })
    else none

abbrev pub store : Times → Departure → Departure
store t d = record d {
  when = time_bits t.when;
  planned = time_bits t.planned;
  source = t.source;
  valid = true;
}

abbrev pub default_filter : StreamFilter
default_filter = record { rbl = pos 0; line = []; towards_prefix = [] }

module _ {V : Type 0} (r : Reader V) where
  abbrev pub times_of : V → Option Times
  times_of dep =
      let dt = r.member dep (key "departureTime") in
      read_times (r.text (r.member dt (key "timeReal"))) (r.text (r.member dt (key "timePlanned")))

  -- The loop over the departures of a line, with the number of slots filled so far.
  unfoldable pub fill_slots : List V → ℕ → List Departure → ℕ × List Departure
  fill_slots [] slot slots = (slot, slots)
  fill_slots (dep ∷ deps) slot slots =
      let skip = fill_slots deps slot slots in
      if leb slots_per_stream slot then (slot, slots) else elim (times_of dep) [
        | none ↦ skip
        | some t ↦
            fill_slots deps (suc slot) (set slots slot (store t (get_or slots slot no_departure)))
      ]

  unfoldable pub line_matches : StreamFilter → V → Bool
  unfolding same_text starts_with
  line_matches f line =
      same_text f.line (get_some (r.text (r.member line (key "name"))) [])
      && starts_with (get_some (r.text (r.member line (key "towards"))) []) f.towards_prefix

  abbrev pub items_of : V → List V
  items_of v = get_some (r.items v) []

  unfoldable pub take_line : V → StreamData → StreamData
  unfolding fill_slots
  take_line line sd =
      let (slot, slots) =
        fill_slots (items_of (r.member (r.member line (key "departures")) (key "departure"))) 0
          sd.slot in
      record sd { slot = slots; filter_matched = if ltb 0 slot then true else sd.filter_matched }

  -- The first line that matches, and no other.
  unfoldable pub read_lines : StreamFilter → List V → StreamData → StreamData
  read_lines f [] sd = sd
  read_lines f (line ∷ lines) sd =
      let rest = read_lines f lines sd in if line_matches f line then take_line line sd else rest

  abbrev pub rbl_of : V → ℤ
  rbl_of mon =
      get_some
        (r.int (
          r.member
            (r.member (r.member (r.member mon (key "locationStop")) (key "properties"))
              (key "attributes"))
            (key "rbl")))
        (pos 0)

  abbrev pub read_stream : StreamFilter → V → StreamData → StreamData
  read_stream f mon sd =
      read_lines f (items_of (r.member mon (key "lines"))) (record sd { endpoint_responded = true })

  unfoldable pub read_monitor : List StreamFilter → V → List StreamData → List StreamData
  unfolding find_filter_for_rbl
  read_monitor filters mon streams = elim (find_filter_for_rbl (rbl_of mon) filters) [
    | none ↦ streams
    | some fi ↦
        set streams fi
          (read_stream (get_or filters fi default_filter) mon (get_or streams fi empty_stream))
  ]

  unfoldable pub read_monitors : List StreamFilter → List V → List StreamData → List StreamData
  unfolding read_monitor
  read_monitors filters [] streams = streams
  read_monitors filters (mon ∷ monitors) streams =
      read_monitors filters monitors (read_monitor filters mon streams)

  abbrev pub monitors_of : V → List V
  monitors_of doc = items_of (r.member (r.member doc (key "data")) (key "monitors"))

  -- The result with `out`; without monitors the snapshot is empty and still a success.
  abbrev consume_monitors : List StreamFilter → Option V → Bool × StreamSnapshot
  consume_monitors filters none = (false, empty_snapshot)
  consume_monitors filters (some doc) = (
    true,
    record {
      stream = read_monitors filters (monitors_of doc) empty_snapshot.stream;
      api_ok = true;
    },
  )

  unfoldable pub parse_monitor_response : Text → List StreamFilter → Bool × StreamSnapshot
  unfolding read_monitors
  parse_monitor_response json filters = consume_monitors filters (r.deserialize json)
