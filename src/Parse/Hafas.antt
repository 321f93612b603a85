-- ===== src/Parse/Hafas.antt =====
-- src/data/oebb_hafas_parse.cpp: the departures of a HAFAS station board.
-- `mktime` turns a local date into seconds since the epoch; `none` is its failure, -1.
pub mod Board
pub mod Journeys
pub mod Answer
pub mod Codes
pub mod Tripwire
use bustaferl.Prelude.{
  ℕ, zero, suc, ◌+◌, ◌-◌, ◌*◌, ◌/◌, Bool, true, false, List, [], ◌∷◌, Option, none, some, ltb, leb,
  ◌==◌, ◌&&◌, ◌||◌, not, if◌then◌else◌, get_or, get_elem?, set, length,
}
use bustaferl.Prelude.Int.{ℤ, pos, negsuc, ◌+ℤ◌, ◌-ℤ◌, ◌*ℤ◌}
use bustaferl.Data.{
  Departure, DepartureSource, realtime, plan, no_departure, StreamData, empty_stream,
  slots_per_stream, seconds_per_minute,
}
use bustaferl.Fetch.Snapshot.{OebbParseResult, OebbParsed}
use bustaferl.Parse.{or_else, LocalTime, Text, Reader, get_some, same_text, key}

abbrev pub oebb_date_len : ℕ
oebb_date_len = 8

abbrev pub oebb_time_len : ℕ
oebb_time_len = 6

abbrev byte_at : Text → ℕ → ℤ
byte_at s i = pos (get_or s i 0)

-- parseFixed2(p + i) and parseFixed4(p + i), with no test of the bytes.
unfoldable pub parse_fixed2 : Text → ℕ → ℤ
unfolding ◌+ℤ◌ ◌-ℤ◌ ◌*ℤ◌
parse_fixed2 s i = (byte_at s i -ℤ pos 48) *ℤ pos 10 +ℤ (byte_at s (i + 1) -ℤ pos 48)

unfoldable pub parse_fixed4 : Text → ℕ → ℤ
unfolding ◌+ℤ◌ ◌-ℤ◌ ◌*ℤ◌
parse_fixed4 s i =
    (byte_at s i -ℤ pos 48) *ℤ pos 1000
    +ℤ (byte_at s (i + 1) -ℤ pos 48) *ℤ pos 100
    +ℤ (byte_at s (i + 2) -ℤ pos 48) *ℤ pos 10
    +ℤ (byte_at s (i + 3) -ℤ pos 48)

abbrev local_time : Text → Text → LocalTime
local_time date time = record {
  tm_year = parse_fixed4 date 0 -ℤ pos 1900;
  tm_mon = parse_fixed2 date 4 -ℤ pos 1;
  tm_mday = parse_fixed2 date 6;
  tm_hour = parse_fixed2 time 0;
  tm_min = parse_fixed2 time 2;
  tm_sec = parse_fixed2 time 4;
}

unfoldable pub parse_hafas_date_time : (LocalTime → Option ℕ) → Option Text → Option Text → ℕ
unfolding parse_fixed2 parse_fixed4 ◌-ℤ◌
parse_hafas_date_time mktime none time = 0
parse_hafas_date_time mktime (some date) none = 0
parse_hafas_date_time mktime (some date) (some time) =
    if ltb (length date) oebb_date_len || ltb (length time) oebb_time_len
    then 0
    else get_some (mktime (local_time date time)) 0

abbrev pub is_blank : ℕ → Bool
is_blank c = c == 32 || c == 9

unfoldable pub count_label : Text → ℕ
count_label [] = 0
count_label (c ∷ s) = count_label s + (if is_blank c then 0 else 1)

-- for (; *p && w < cap - 1; ++p), with `room` places left.
unfoldable pub copy_label : ℕ → Text → Text
copy_label zero s = []
copy_label (suc room) [] = []
copy_label (suc room) (c ∷ s) =
    let skip = copy_label (suc room) s in
    let keep = c ∷ copy_label room s in if is_blank c then skip else keep

abbrev pub take_text : ℕ → Text → Text
take_text zero s = []
take_text (suc n) [] = []
take_text (suc n) (c ∷ s) = c ∷ take_text n s

-- The text in `dst`, which holds `cap` bytes.
unfoldable pub copy_line_label_stripped : Option Text → ℕ → Text
unfolding count_label copy_label
copy_line_label_stripped none cap = []
copy_line_label_stripped (some src) zero = []
copy_line_label_stripped (some src) (suc room) =
    if ltb room (count_label src) then take_text room (key "xx") else copy_label room src

abbrev pub line_label_cap : ℕ
line_label_cap = 6

abbrev pub is_some : Option Text → Bool
is_some none = false
is_some (some a) = true

pub record Journey : Type 0 where
  pub when : ℕ
  pub source : DepartureSource

-- From the realtime, else the scheduled time; none for `continue`.
unfoldable pub choose_time : Bool → ℕ → Bool → ℕ → Option Journey
choose_time has_real real has_plan planned =
    if has_real && not (real == 0)
    then some (record { when = real; source = realtime })
    else if has_plan && not (planned == 0)
    then some (record { when = planned; source = plan })
    else none

-- Whether one of the first `matched` slots has the minute.
unfoldable pub is_dup : ℕ → List Departure → ℕ → Bool
is_dup zero slots minute = false
is_dup (suc n) [] minute = false
is_dup (suc n) (d ∷ slots) minute = d.when / seconds_per_minute == minute || is_dup n slots minute

abbrev pub store : Journey → Text → Departure → Departure
store j label d = record d { when = j.when; source = j.source; valid = true; line_label = label }

abbrev pub no_parse : OebbParseResult
no_parse = record { endpoint_responded = false; filter_matched = false; auth_error_seen = false }

abbrev pub nothing_parsed : OebbParsed
nothing_parsed = record { stream = empty_stream; result = no_parse }

abbrev pub auth_parsed : OebbParsed
auth_parsed = record { stream = empty_stream; result = record no_parse { auth_error_seen = true } }

-- The early returns, before the journeys are read.
abbrev pub by_answer : Bool → Bool → Bool → OebbParsed → OebbParsed
by_answer auth is_ok is_object board =
    if auth
    then auth_parsed
    else if not is_ok
    then nothing_parsed
    else if not is_object
    then nothing_parsed
    else board

module _ {V : Type 0} (r : Reader V) (mktime : LocalTime → Option ℕ) where
  unfoldable pub read_stop : Option Text → V → Option Journey
  unfolding parse_hafas_date_time choose_time
  read_stop jny_date stop =
      let date_s = or_else (r.text (r.member stop (key "dDateS"))) jny_date in
      let date_r = or_else (r.text (r.member stop (key "dDateR"))) jny_date in
      let time_s = r.text (r.member stop (key "dTimeS")) in
      let time_r = r.text (r.member stop (key "dTimeR")) in
      choose_time (is_some time_r && is_some date_r) (parse_hafas_date_time mktime date_r time_r)
        (is_some time_s && is_some date_s) (parse_hafas_date_time mktime date_s time_s)

  unfoldable pub read_journey : V → Option Journey
  unfolding read_stop
  read_journey jny =
      let stop = r.member jny (key "stbStop") in
      if not (r.is_object stop)
      then none
      else if get_some (r.bool (r.member stop (key "dCncl"))) false
      then none
      else read_stop (r.text (r.member jny (key "date"))) stop

  abbrev pub name_of : Option V → Option Text
  name_of none = none
  name_of (some prod) = r.text (r.member prod (key "nameS"))

  -- nameS of the product that the journey points to; a negative index is skipped.
  abbrev pub product_name : Option (List V) → ℤ → Option Text
  product_name none idx = none
  product_name (some prods) (pos i) = name_of (get_elem? prods i)
  product_name (some prods) (negsuc i) = none

  unfoldable pub label_of : Option (List V) → V → Text
  unfolding copy_line_label_stripped
  label_of prods jny =
      copy_line_label_stripped
        (product_name prods (get_some (r.int (r.member jny (key "prodX"))) (negsuc 0)))
        line_label_cap

  unfoldable pub is_wanted : ℕ → ℕ → List Departure → Journey → Bool
  unfolding is_dup
  is_wanted now matched slots j =
      if ltb j.when now then false else not (is_dup matched slots (j.when / seconds_per_minute))

  unfoldable pub take_journeys :
      ℕ → Option (List V) → List V → ℕ → List Departure → ℕ × List Departure
  take_journeys now prods [] matched slots = (matched, slots)
  take_journeys now prods (jny ∷ jnys) matched slots =
      let skip = take_journeys now prods jnys matched slots in
      if leb slots_per_stream matched then (matched, slots) else elim (read_journey jny) [
        | none ↦ skip
        | some j ↦
            let keep = take_journeys now prods jnys (suc matched) (
              set slots matched
                (store j (label_of prods jny) (get_or slots matched no_departure))) in
            if is_wanted now matched slots j then keep else skip
      ]

  abbrev pub take_board : ℕ → V → Option (List V) → OebbParsed
  take_board now res none = record {
    stream = empty_stream;
    result = record no_parse { endpoint_responded = true };
  }
  take_board now res (some jnys) =
      let (matched, slots) =
        take_journeys now (r.items (r.member (r.member res (key "common")) (key "prodL"))) jnys 0
          empty_stream.slot in
      record {
        stream = record empty_stream { slot = slots };
        result = record no_parse { endpoint_responded = true; filter_matched = ltb 0 matched };
      }

  abbrev pub is_auth_error : Text → Bool
  is_auth_error err = same_text err (key "AID") || same_text err (key "AUTH")

  abbrev pub err_of : V → Text
  err_of doc = get_some (r.text (r.member doc (key "err"))) []

  abbrev pub res_of : V → V
  res_of doc = r.member (r.element (r.member doc (key "svcResL")) 0) (key "res")

  unfoldable pub consume_oebb_doc : ℕ → V → OebbParsed
  unfolding take_journeys same_text
  consume_oebb_doc now doc =
      by_answer (is_auth_error (err_of doc)) (same_text (err_of doc) (key "OK"))
        (r.is_object (res_of doc))
        (take_board now (res_of doc) (r.items (r.member (res_of doc) (key "jnyL"))))

  -- The result is false, which is `none`, if the body does not deserialize; then nothing is written.
  unfoldable pub parse_oebb_station_board : ℕ → Text → Option OebbParsed
  unfolding consume_oebb_doc
  parse_oebb_station_board now json = elim (r.deserialize json) [
    | none ↦ none
    | some doc ↦ some (consume_oebb_doc now doc)
  ]
