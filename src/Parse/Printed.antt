-- ===== src/Parse/Printed.antt =====
-- The timestamps of src/data/wienerlinien_parse.cpp are read as they are written.
use bustaferl.Prelude.{
  ℕ, ◌+◌, ◌*◌, ◌/◌, ◌%◌, ◌^◌, ◌<◌, ◌≡◌, ◌≢◌, refl, Bool, false, List, [], ◌∷◌, ◌++◌, some, arith,
  ltb, if◌then◌else◌, All, length,
}
use bustaferl.Prelude.Int.{ℤ, pos, ◌+ℤ◌, ◌-ℤ◌, ◌*ℤ◌}
use bustaferl.Data.{seconds_per_minute, seconds_per_hour, seconds_per_day}
use bustaferl.Parse.Calendar.{
  Date, IsDate, date_after, date_after-Counted, civil_to_days-date_after,
}
use bustaferl.Parse.Iso.{
  scan_int, scan_byte, scan_stamp, find_zone, scan_offset, apply_zone, seconds_of, parse_iso8601,
  iso8601_datetime_prefix_len,
}

-- printf's %02d and %04d, for a number that fits.
abbrev print2 : ℕ → List ℕ
print2 n = (48 + n / 10) ∷ (48 + n % 10) ∷ []

abbrev print4 : ℕ → List ℕ
print4 n = (48 + n / 1000) ∷ (48 + n / 100 % 10) ∷ (48 + n / 10 % 10) ∷ (48 + n % 10) ∷ []

scan_int-print2 :
    (n : ℕ) (rest : List ℕ) → n < 100 → scan_int 2 (print2 n ++ rest) ≡ some (pos n, rest)
unfolding scan_int
scan_int-print2 n rest h = ground arith

scan_int-print4 :
    (n : ℕ) (rest : List ℕ) → n < 10000 → scan_int 4 (print4 n ++ rest) ≡ some (pos n, rest)
unfolding scan_int
scan_int-print4 n rest h = ground arith

-- A clock time of a date, followed by `rest`.
pub record ClockTime : Type 0 where
  pub hour : ℕ
  pub minute : ℕ
  pub sec : ℕ

pub record IsClockTime (c : ClockTime) : Type 0 where
  pub hour_in : c.hour < 100
  pub minute_in : c.minute < 100
  pub sec_in : c.sec < 100

abbrev pub print_stamp : Date → ClockTime → List ℕ → List ℕ
print_stamp t c rest =
    print4 t.year
    ++ b'-'
      ∷ (print2 t.month
          ++ b'-'
            ∷ (print2 t.day
                ++ b'T'
                  ∷ (print2 c.hour ++ b':' ∷ (print2 c.minute ++ b':' ∷ (print2 c.sec ++ rest)))))

scan_stamp-print_stamp :
    (t : Date) (c : ClockTime) (rest : List ℕ)
    → t.year < 10000
    → t.month < 100
    → t.day < 100
    → IsClockTime c
    → scan_stamp (print_stamp t c rest)
      ≡ some (record {
        year = pos t.year;
        mon = pos t.month;
        day = pos t.day;
        hour = pos c.hour;
        minute = pos c.minute;
        sec = pos c.sec;
      })
unfolding scan_stamp scan_byte
scan_stamp-print_stamp t c rest hy hm hd hc =
    rw
      (
        scan_int-print4 t.year _ hy,
        scan_int-print2 t.month _ hm,
        scan_int-print2 t.day _ hd,
        scan_int-print2 c.hour _ hc.hour_in,
        scan_int-print2 c.minute _ hc.minute_in,
        scan_int-print2 c.sec _ hc.sec_in,
      )
      refl

length-print_stamp :
    (t : Date) (c : ClockTime) (rest : List ℕ)
    → ltb (length (print_stamp t c rest)) iso8601_datetime_prefix_len ≡ false
length-print_stamp t c rest = ground arith

-- The zone at the end: UTC, or an offset with or without its colon.
pub data Zone : Type 0 where
  utc : Zone
  east west : ℕ → ℕ → Bool → Zone

abbrev print_offset : ℕ → ℕ → Bool → List ℕ
print_offset oh om colon = print2 oh ++ (if colon then b':' ∷ print2 om else print2 om)

abbrev pub print_zone : Zone → List ℕ
print_zone utc = b'Z' ∷ []
print_zone (east oh om colon) = b'+' ∷ print_offset oh om colon
print_zone (west oh om colon) = b'-' ∷ print_offset oh om colon

abbrev pub IsZone : Zone → Type 0
IsZone utc = Unit {0}
IsZone (east oh om colon) = (oh < 100) × (om < 100)
IsZone (west oh om colon) = (oh < 100) × (om < 100)

-- A fraction of a second holds none of the bytes that start a zone.
abbrev pub IsFraction : List ℕ → Type 0
IsFraction = All (λ c. (c ≢ b'Z') × (c ≢ b'+') × (c ≢ b'-'))

find_zone-fraction :
    (fraction rest : List ℕ) → IsFraction fraction → find_zone (fraction ++ rest) ≡ find_zone rest
unfolding find_zone
find_zone-fraction [] rest h = refl
find_zone-fraction (c ∷ fraction) rest h = ground (arith, find_zone-fraction fraction rest)

find_zone-print_zone : (z : Zone) → IsZone z → find_zone (print_zone z) ≡ some (print_zone z)
unfolding find_zone
find_zone-print_zone utc h = refl
find_zone-print_zone (east oh om colon) h = ground arith
find_zone-print_zone (west oh om colon) h = ground arith

scan_offset-print_offset :
    (oh om : ℕ) (colon : Bool)
    → oh < 100
    → om < 100
    → scan_offset (print_offset oh om colon) ≡ some (pos oh, pos om)
unfolding scan_offset
scan_offset-print_offset oh om colon a b = ground arith

abbrev pub minus_offset : ℕ → Zone → ℤ
minus_offset s utc = pos s
minus_offset s (east oh om colon) = pos s -ℤ pos (oh * seconds_per_hour + om * seconds_per_minute)
minus_offset s (west oh om colon) = pos (s + (oh * seconds_per_hour + om * seconds_per_minute))

minus_pos :
    (s oh om : ℕ)
    → pos s -ℤ (pos oh *ℤ pos seconds_per_hour +ℤ pos om *ℤ pos seconds_per_minute)
      ≡ pos s -ℤ pos (oh * seconds_per_hour + om * seconds_per_minute)
unfolding ◌+ℤ◌ ◌-ℤ◌ ◌*ℤ◌
minus_pos s oh om = ground arith

plus_pos :
    (s oh om : ℕ)
    → pos s +ℤ (pos oh *ℤ pos seconds_per_hour +ℤ pos om *ℤ pos seconds_per_minute)
      ≡ pos (s + (oh * seconds_per_hour + om * seconds_per_minute))
unfolding ◌+ℤ◌ ◌*ℤ◌
plus_pos s oh om = ground arith

apply_zone-print_zone :
    (s : ℕ) (z : Zone) → IsZone z → apply_zone (pos s) (some (print_zone z)) ≡ minus_offset s z
unfolding apply_zone
apply_zone-print_zone s utc h = refl
apply_zone-print_zone s (east oh om colon) h =
    rw (scan_offset-print_offset oh om colon h.0 h.1) (minus_pos s oh om)
apply_zone-print_zone s (west oh om colon) h =
    rw (scan_offset-print_offset oh om colon h.0 h.1) (plus_pos s oh om)

abbrev pub seconds_at : ℕ → ClockTime → ℕ
seconds_at n c =
    n * seconds_per_day + c.hour * seconds_per_hour + c.minute * seconds_per_minute + c.sec

sum_pos :
    (n h m s : ℕ)
    → pos n *ℤ pos seconds_per_day
        +ℤ pos h *ℤ pos seconds_per_hour
        +ℤ pos m *ℤ pos seconds_per_minute
        +ℤ pos s
      ≡ pos (n * seconds_per_day + h * seconds_per_hour + m * seconds_per_minute + s)
unfolding ◌+ℤ◌ ◌*ℤ◌
sum_pos n h m s = ground arith

IsDate-small : (t : Date) → IsDate t → (t.month < 100) × (t.day < 100)
IsDate-small t h = ground arith

seconds_of-pos :
    (n : ℕ) (c : ClockTime)
    → let t = date_after n in
      seconds_of (record {
        year = pos t.year;
        mon = pos t.month;
        day = pos t.day;
        hour = pos c.hour;
        minute = pos c.minute;
        sec = pos c.sec;
      })
      ≡ pos (seconds_at n c)
unfolding seconds_of
seconds_of-pos n c =
    let t = date_after n in
    let (m, d) = IsDate-small t (date_after-Counted n).0 in
    let month : t.month % 2 ^ 32 ≡ t.month = omega arith in
    let day : t.day % 2 ^ 32 ≡ t.day = omega arith in
    rw (month, day, civil_to_days-date_after n) (sum_pos n c.hour c.minute c.sec)

-- A timestamp of the n-th day after 1970-01-01, before the year 10000, with any fraction of a second
-- and any zone, written with or without the colon, is read as the seconds since the epoch in UTC.
pub parse_iso8601-print :
    (n : ℕ) (c : ClockTime) (fraction : List ℕ) (z : Zone)
    → (date_after n).year < 10000
    → IsClockTime c
    → IsFraction fraction
    → IsZone z
    → parse_iso8601 (print_stamp (date_after n) c (fraction ++ print_zone z))
      ≡ minus_offset (seconds_at n c) z
unfolding parse_iso8601
parse_iso8601-print n c fraction z hy hc hf hz =
    let t = date_after n in
    let (m, d) = IsDate-small t (date_after-Counted n).0 in
    rw
      (
        length-print_stamp t c (fraction ++ print_zone z),
        scan_stamp-print_stamp t c (fraction ++ print_zone z) hy m d hc,
        find_zone-fraction fraction (print_zone z) hf,
        find_zone-print_zone z hz,
        seconds_of-pos n c,
      )
      (apply_zone-print_zone (seconds_at n c) z hz)
