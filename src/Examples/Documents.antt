-- ===== src/Examples/Documents.antt =====
-- The parsers on concrete documents.
use bustaferl.Prelude.{
  ◌⊎◌, ℕ, zero, suc, ◌≡◌, ◌↔◌, refl, Bool, true, false, List, [], ◌∷◌, Option, none, some, arith,
  All, Any, get_or, ◌&&◌, if◌then◌else◌, ◌==◌,
}
use bustaferl.Prelude.Int.{ℤ, pos}
use bustaferl.Data.{
  StreamData, StreamSnapshot, empty_hint, empty_snapshot, empty_stream, no_departure,
}
use bustaferl.Fetch.Snapshot.{
  AuthMeta, OebbParsed, Progress, fetch_snapshot, no_summary, run_ogd_batch_loop,
}
use bustaferl.Slots.{merge_stream}
use bustaferl.Slots.Merge.{IsUpcoming}
use bustaferl.Slots.Board.{Won}
use bustaferl.Parse.{Text, Reader, LocalTime, key}
use bustaferl.Parse.Iso.{parse_iso8601, civil_to_days}
use bustaferl.Parse.Calendar.{date_after, civil_to_days-date_after}
use bustaferl.Parse.Printed.{
  ClockTime, east, print_stamp, print_zone, minus_offset, seconds_at, parse_iso8601-print,
}
use bustaferl.Parse.Monitor.{
  StreamFilter, parse_monitor_response, monitors_of, read_lines, line_matches, take_line,
  read_times,
}
use bustaferl.Parse.Monitor.Shape.{IsParsed, parse_monitor_response-IsParsed}
use bustaferl.Parse.Monitor.Responds.{responded, AnswersFor, responds_iff}
use bustaferl.Parse.Monitor.Merged.{merge-parse_monitor_response}
use bustaferl.Parse.Hafas.{
  is_wanted, label_of, copy_line_label_stripped, read_journey, parse_oebb_station_board,
  consume_oebb_doc,
}
use bustaferl.Parse.Hafas.Answer.{Shows, parse_oebb_station_board-Shows}
use bustaferl.Parse.Hafas.Codes.{IsRefused, IsAnswer}
use bustaferl.Parse.Hafas.Tripwire.{fetch_snapshot_code}
use bustaferl.Fetch.{Answer, run_retry_loop, retry_rounds, after_call, classify, is_success}
use bustaferl.Parse.Efa.{ScheduleStreamFilter, consume_efa_doc, departures_of}
use bustaferl.Parse.Efa.Hint.{hint_of, default_filter}
use bustaferl.Parse.Efa.Streams.{times_for, consume_efa_doc-hint_of}

-- A document type, and how it is read.
mutual
  data Value : Type 0 where
    null : Value
    txt : Text → Value
    num : ℕ → Value
    arr : Items → Value
    obj : Fields → Value

  data Items : Type 0 where
    nil : Items
    cons : Value → Items → Items

  data Fields : Type 0 where
    end : Fields
    field : Text → Value → Fields → Fields

abbrev same : Text → Text → Bool
same [] [] = true
same [] (b ∷ t) = false
same (a ∷ s) [] = false
same (a ∷ s) (b ∷ t) = a == b && same s t

abbrev find : Fields → Text → Value
find end k = null
find (field j v fs) k = let rest = find fs k in if same j k then v else rest

abbrev nth : Items → ℕ → Value
nth nil i = null
nth (cons v vs) zero = v
nth (cons v vs) (suc i) = nth vs i

abbrev listed : Items → List Value
listed nil = []
listed (cons v vs) = v ∷ listed vs

abbrev member : Value → Text → Value
member (obj fs) k = find fs k
member _ k = null

abbrev element : Value → ℕ → Value
element (arr vs) i = nth vs i
element _ i = null

abbrev items : Value → Option (List Value)
items (arr vs) = some (listed vs)
items _ = none

abbrev is_object : Value → Bool
is_object (obj fs) = true
is_object _ = false

abbrev text : Value → Option Text
text (txt t) = some t
text _ = none

abbrev int : Value → Option ℤ
int (num n) = some (pos n)
int _ = none

abbrev one : Text → Value → Value
one k v = obj (field k v end)

abbrev reads : Value → Reader Value
reads doc = record {
  deserialize = λ json. some doc;
  member = member;
  element = element;
  items = items;
  is_object = is_object;
  text = text;
  int = int;
  bool = λ v. none;
}

abbrev noon : ClockTime
noon = record { hour = 12; minute = 34; sec = 56 }

parse_iso8601-print_example :
    parse_iso8601 (print_stamp (date_after 59) noon (b'.' ∷ b'0' ∷ print_zone (east 1 0 false)))
    ≡ minus_offset (seconds_at 59 noon) (east 1 0 false)
unfolding date_after
parse_iso8601-print_example =
    parse_iso8601-print 59 noon (b'.' ∷ b'0' ∷ []) (east 1 0 false) (omega arith)
      (record { hour_in = omega arith; minute_in = omega arith; sec_in = omega arith })
      (omega arith) (omega arith)

civil_to_days-date_after_example :
    civil_to_days (pos (date_after 20000).year) (date_after 20000).month (date_after 20000).day
    ≡ pos 20000
civil_to_days-date_after_example = civil_to_days-date_after 20000

-- A monitor of stop 3757 with one line.
abbrev departure : Value
departure =
    one (key "departureTime") (one (key "timeReal") (txt (key "2024-01-01T12:34:00.000+0100")))

abbrev line : Value
line = obj (
    field (key "name") (txt (key "58A")) (
      field (key "towards") (txt (key "Hietzing"))
        (field (key "departures") (one (key "departure") (arr (cons departure nil))) end)))

abbrev monitor : Value
monitor = obj (
    field (key "locationStop")
      (one (key "properties") (one (key "attributes") (one (key "rbl") (num 3757))))
      (field (key "lines") (arr (cons line nil)) end))

abbrev response : Value
response = one (key "data") (one (key "monitors") (arr (cons monitor nil)))

abbrev filter : ℕ → StreamFilter
filter rbl = record { rbl = pos rbl; line = key "58A"; towards_prefix = key "Hie" }

abbrev filters : List StreamFilter
filters = filter 8131 ∷ filter 3757 ∷ filter 1 ∷ filter 0 ∷ []

parse_monitor_response-IsParsed_example :
    All IsParsed (parse_monitor_response (reads response) [] filters).1.stream
parse_monitor_response-IsParsed_example =
    parse_monitor_response-IsParsed (reads response) [] filters

responds_iff_example :
    (responded 1 (parse_monitor_response (reads response) [] filters).1.stream ≡ true)
    ↔ Any (AnswersFor (reads response) filters 1) (monitors_of (reads response) response)
responds_iff_example = responds_iff (reads response) filters 1 [] response (omega arith) refl

monitor_slot :
    (get_or
      (get_or (parse_monitor_response (reads response) [] filters).1.stream 1 empty_stream).slot
      0
      no_departure).when
    ≡ 1704108840
unfolding parse_monitor_response read_lines line_matches take_line read_times parse_iso8601
monitor_slot = refl

merge-parse_monitor_response_example :
    All
      (λ (sd : StreamData).
        All (λ d. IsUpcoming 5 d → Won d.when (merge_stream true 5 sd.slot empty_hint)) sd.slot)
      (parse_monitor_response (reads response) [] filters).1.stream
merge-parse_monitor_response_example =
    merge-parse_monitor_response (reads response) [] filters true 5 empty_hint

-- A station board with one train, of the first product.
abbrev stop : Value
stop = one (key "dTimeR") (txt (key "123400"))

abbrev journey : Value
journey = obj (
    field (key "date") (txt (key "20240101"))
      (field (key "prodX") (num 0) (field (key "stbStop") stop end)))

abbrev board : Value
board = obj (
    field (key "jnyL") (arr (cons journey nil)) (
      field (key "common")
        (one (key "prodL") (arr (cons (one (key "nameS") (txt (key "S 2"))) nil))) end))

abbrev hafas : Value
hafas = obj (
    field (key "err") (txt (key "OK"))
      (field (key "svcResL") (arr (cons (one (key "res") board) nil)) end))

-- Every date is the 100th second.
abbrev some_time : LocalTime → Option ℕ
some_time t = some 100

parse_oebb_station_board-Shows_example :
    (p : OebbParsed) × (parse_oebb_station_board (reads hafas) some_time 50 [] ≡ some p)
    × Shows (reads hafas) some_time 50 hafas p
parse_oebb_station_board-Shows_example =
    parse_oebb_station_board-Shows (reads hafas) some_time 50 [] hafas refl

hafas_label :
    (get_or
      (consume_oebb_doc (reads hafas) some_time 50 hafas).stream.slot
      0
      no_departure).line_label
    ≡ key "S2"
unfolding consume_oebb_doc label_of copy_line_label_stripped read_journey is_wanted
hafas_label = refl

-- A response without access, to a call that succeeds.
abbrev no_access : Value
no_access = one (key "err") (txt (key "AUTH"))

abbrev no_ogd : List ℕ → Option StreamSnapshot
no_ogd body = none

abbrev served : ℕ → Answer
served i = record { result = record { ok = true; http_status = 200 }; body = [] }

abbrev untripped : AuthMeta
untripped = record { auth_error_seen = false; ogd_auth_streak = 0 }

abbrev before : Progress
before = record { out = empty_snapshot; summary = no_summary; meta = untripped }

fetch_snapshot_code_example :
    let after =
      fetch_snapshot no_ogd
        (parse_oebb_station_board (reads no_access) some_time 50)
        (λ k. served)
        served
        true
        untripped in
    (after.meta.auth_error_seen ≡ true) ↔ (
      IsRefused (reads no_access) some_time no_access
      ⊎ ((IsAnswer (reads no_access) some_time no_access → ⊥)
          × ((run_ogd_batch_loop no_ogd (λ k. served) before).meta.auth_error_seen ≡ true)))
unfolding run_retry_loop retry_rounds after_call classify is_success
fetch_snapshot_code_example =
    fetch_snapshot_code (reads no_access) some_time 50 no_ogd (λ k. served) served untripped
      no_access refl refl

-- A timetable with one departure.
abbrev date_time : Value
date_time = obj (
    field (key "year") (txt (key "2024")) (
      field (key "month") (txt (key "1")) (
        field (key "day") (txt (key "1"))
          (field (key "hour") (txt (key "5")) (field (key "minute") (txt (key "7")) end)))))

abbrev efa_departure : Value
efa_departure = obj (
    field (key "servingLine")
      (obj
        (field (key "number") (txt (key "58A")) (field (key "direction") (txt (key "Wien")) end)))
      (field (key "dateTime") date_time end))

abbrev timetable : Value
timetable = one (key "departureList") (arr (cons efa_departure nil))

abbrev schedule_filter : ℕ → ScheduleStreamFilter
schedule_filter diva = record {
  diva = diva;
  line = key "58A";
  direction_prefix = key "Wie";
  direction_prefix_alt = [];
}

abbrev schedule_filters : List ScheduleStreamFilter
schedule_filters = schedule_filter 7 ∷ schedule_filter 8 ∷ []

consume_efa_doc-hint_of_example :
    get_or
      (consume_efa_doc
        (reads timetable)
        some_time
        8
        schedule_filters
        90
        timetable
        (empty_hint ∷ empty_hint ∷ []))
      1
      empty_hint
    ≡ (if (get_or schedule_filters 1 default_filter).diva == 8
        then hint_of 90 (
            times_for
              (reads timetable)
              some_time
              8
              schedule_filters
              1
              (departures_of (reads timetable) some_time timetable))
        else get_or (empty_hint ∷ empty_hint ∷ []) 1 empty_hint)
consume_efa_doc-hint_of_example =
    consume_efa_doc-hint_of (reads timetable) some_time 8 90 1 schedule_filters timetable
      (empty_hint ∷ empty_hint ∷ []) (omega arith) (omega arith)

efa_tomorrow :
    (get_or
      (consume_efa_doc
        (reads timetable)
        some_time
        8
        schedule_filters
        90
        timetable
        (empty_hint ∷ empty_hint ∷ []))
      1
      empty_hint).first_tomorrow
    ≡ 100 ∷ 0 ∷ []
unfolding consume_efa_doc
efa_tomorrow = refl
