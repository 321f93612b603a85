-- ===== src/Parse/Efa.antt =====
-- src/data/efa_parse.cpp: the timetable of a stop from an EFA response.
-- `mktime` turns a local date into seconds since the epoch; `none` is its failure, -1.
pub mod Hint
pub mod Streams
use bustaferl.Prelude.{
  ℕ, zero, suc, ◌+◌, Bool, true, false, List, [], ◌∷◌, Option, none, some, ltb, ◌==◌, ◌&&◌, ◌||◌,
  not, if◌then◌else◌, get_or, set, map, length,
}
use bustaferl.Prelude.Int.{ℤ, pos, ◌-ℤ◌}
use bustaferl.Data.{ScheduleHint, empty_hint}
use bustaferl.Parse.{LocalTime, Text, Reader, get_some, same_text, starts_with, key}
use bustaferl.Parse.Iso.{scan_int}

pub record ScheduleStreamFilter : Type 0 where
  pub diva : ℕ
  pub line : Text
  pub direction_prefix : Text
  pub direction_prefix_alt : Text

abbrev first_of : Option (ℤ × Text) → ℤ
first_of none = pos 0
first_of (some (n, s)) = n

-- std::atoi, 0 for an empty text; the width is no bound.
unfoldable pub atoi_safe : Text → ℤ
unfolding scan_int
atoi_safe s = first_of (scan_int (length s) s)

-- year, month, day, hour and minute
abbrev efa_time : (LocalTime → Option ℕ) → Text → Text → Text → Text → Text → ℕ
efa_time mktime y mo d h mi =
    get_some
      (mktime (record {
        tm_year = atoi_safe y -ℤ pos 1900;
        tm_mon = atoi_safe mo -ℤ pos 1;
        tm_mday = atoi_safe d;
        tm_hour = atoi_safe h;
        tm_min = atoi_safe mi;
        tm_sec = pos 0;
      }))
      0

unfoldable pub efa_time_of :
    (LocalTime → Option ℕ) → Option Text → Option Text → Option Text → Option Text → Option Text → ℕ
unfolding atoi_safe ◌-ℤ◌
efa_time_of mktime (some y) (some mo) (some d) (some h) (some mi) = efa_time mktime y mo d h mi
efa_time_of mktime y mo d h mi = 0

-- A hint while it is filled, with its entry of `tomorrow_fill`.
pub record Filling : Type 0 where
  pub hint : ScheduleHint
  pub tomorrow_fill : ℕ

unfoldable pub add_time : ℕ → ℕ → Filling → Filling
add_time cutoff t x =
    if ltb t cutoff
    then record x {
      hint = record x.hint { last_today = t; next_today = get_or x.hint.next_today 1 0 ∷ t ∷ [] };
    }
    else if ltb x.tomorrow_fill 2
    then record {
      hint = record x.hint { first_tomorrow = set x.hint.first_tomorrow x.tomorrow_fill t };
      tomorrow_fill = x.tomorrow_fill + 1;
    }
    else x

-- A line and a direction at the stop of the call.
unfoldable pub filter_matches : ℕ → Text → Text → ScheduleStreamFilter → Bool
unfolding same_text starts_with
filter_matches call_diva number direction f =
    f.diva == call_diva
    && same_text f.line number
    && (starts_with direction f.direction_prefix
        || not (same_text f.direction_prefix_alt [])
          && starts_with direction f.direction_prefix_alt)

-- The loop over the streams, up to the first filter that matches.
unfoldable pub add_to_first :
    (ScheduleStreamFilter → Bool) → ℕ → ℕ → List ScheduleStreamFilter → List Filling → List Filling
unfolding add_time
add_to_first matches cutoff t [] xs = xs
add_to_first matches cutoff t (f ∷ fs) [] = []
add_to_first matches cutoff t (f ∷ fs) (x ∷ xs) =
    let rest = add_to_first matches cutoff t fs xs in
    if matches f then add_time cutoff t x ∷ xs else x ∷ rest

unfoldable pub reset_hints : ℕ → List ScheduleStreamFilter → List ScheduleHint → List Filling
reset_hints call_diva fs [] = []
reset_hints call_diva [] (h ∷ hs) =
    record { hint = h; tomorrow_fill = 0 } ∷ reset_hints call_diva [] hs
reset_hints call_diva (f ∷ fs) (h ∷ hs) =
    record { hint = if f.diva == call_diva then empty_hint else h; tomorrow_fill = 0 }
    ∷ reset_hints call_diva fs hs

module _ {V : Type 0} (r : Reader V) (mktime : LocalTime → Option ℕ) where
  unfoldable pub parse_efa_date_time : V → ℕ
  unfolding efa_time_of
  parse_efa_date_time dt =
      if not (r.is_object dt)
      then 0
      else efa_time_of mktime (r.text (r.member dt (key "year")))
          (r.text (r.member dt (key "month"))) (r.text (r.member dt (key "day")))
          (r.text (r.member dt (key "hour"))) (r.text (r.member dt (key "minute")))

  abbrev pub time_of : V → ℕ
  time_of dep = parse_efa_date_time (r.member dep (key "dateTime"))

  abbrev pub matches : ℕ → V → ScheduleStreamFilter → Bool
  matches call_diva dep =
      let sl = r.member dep (key "servingLine") in
      filter_matches call_diva (get_some (r.text (r.member sl (key "number"))) [])
        (get_some (r.text (r.member sl (key "direction"))) [])

  unfoldable pub add_departures :
      ℕ → ℕ → List ScheduleStreamFilter → List V → List Filling → List Filling
  unfolding parse_efa_date_time filter_matches add_to_first
  add_departures call_diva cutoff fs [] xs = xs
  add_departures call_diva cutoff fs (dep ∷ deps) xs = add_departures call_diva cutoff fs deps (
      if time_of dep == 0
      then xs
      else add_to_first (matches call_diva dep) cutoff (time_of dep) fs xs)

  abbrev pub departures_of : V → List V
  departures_of doc = get_some (r.items (r.member doc (key "departureList"))) []

  unfoldable pub consume_efa_doc :
      ℕ → List ScheduleStreamFilter → ℕ → V → List ScheduleHint → List ScheduleHint
  unfolding reset_hints add_departures
  consume_efa_doc call_diva fs cutoff doc hints =
      map (λ (x : Filling). x.hint)
        (add_departures call_diva cutoff fs (departures_of doc) (reset_hints call_diva fs hints))

  -- The filter of the fields that are read is ArduinoJson's to apply; it is part of `deserialize`.
  unfoldable pub parse_efa_response :
      Text → ℕ → List ScheduleStreamFilter → ℕ → List ScheduleHint → Bool × List ScheduleHint
  unfolding consume_efa_doc
  parse_efa_response json call_diva fs cutoff hints = elim (r.deserialize json) [
    | none ↦ (false, hints)
    | some doc ↦ (true, consume_efa_doc call_diva fs cutoff doc hints)
  ]
