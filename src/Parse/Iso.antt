-- ===== src/Parse/Iso.antt =====
-- src/data/wienerlinien_parse.cpp: the civil calendar and the ISO 8601 timestamps.
-- A `long` is of 64 bits, as on the host, and no value of the calendar leaves it; an `unsigned` has 32
-- bits and wraps.
use bustaferl.Prelude.{
  ℕ, zero, suc, ◌+◌, ◌-◌, ◌*◌, ◌/◌, ◌%◌, ◌^◌, Bool, [], ◌∷◌, Option, none, some, ltb, leb, ◌==◌,
  ◌&&◌, ◌||◌, length, drop, if◌then◌else◌,
}
use bustaferl.Prelude.Int.{ℤ, pos, negsuc, ◌+ℤ◌, ◌-ℤ◌, ◌*ℤ◌}
use bustaferl.Parse.{Text, or_else}
use bustaferl.Data.{seconds_per_minute, seconds_per_hour, seconds_per_day}

abbrev pub civil_days_per_era : ℕ
civil_days_per_era = 146097

abbrev pub civil_days_to_epoch : ℕ
civil_days_to_epoch = 719468

-- An `int` as an `unsigned`.
abbrev pub bits32 : ℤ → ℕ
bits32 (pos n) = n % 2 ^ 32
bits32 (negsuc n) = 2 ^ 32 - 1 - n % 2 ^ 32

-- (y >= 0 ? y : y - 399) / 400, which truncates.
abbrev pub civil_era : ℤ → ℤ
civil_era (pos n) = pos (n / 400)
civil_era (negsuc n) = negsuc ((n + 400) / 400 - 1)

unfoldable pub year_of_era : ℤ → ℕ
unfolding ◌-ℤ◌ ◌*ℤ◌
year_of_era y = bits32 (y -ℤ civil_era y *ℤ pos 400)

unfoldable pub day_of_year : ℕ → ℕ → ℕ
day_of_year m d =
    let from_march = (m + (if ltb 2 m then 2 ^ 32 - 3 else 9)) % 2 ^ 32 in
    ((153 * from_march + 2) % 2 ^ 32 / 5 + d + 2 ^ 32 - 1) % 2 ^ 32

unfoldable pub day_of_era : ℕ → ℕ → ℕ
day_of_era yoe doy = (yoe * 365 + yoe / 4 - yoe / 100 + doy) % 2 ^ 32

abbrev pub civil_year : ℤ → ℕ → ℤ
civil_year year m = if leb m 2 then year -ℤ pos 1 else year

unfoldable pub civil_to_days : ℤ → ℕ → ℕ → ℤ
unfolding ◌+ℤ◌ ◌-ℤ◌ ◌*ℤ◌ year_of_era day_of_year day_of_era
civil_to_days year m d =
    let y = civil_year year m in
    civil_era y *ℤ pos civil_days_per_era
    +ℤ pos (day_of_era (year_of_era y) (day_of_year m d))
    -ℤ pos civil_days_to_epoch

-- sscanf's %d with a field width: blanks, a sign that counts into the width, and digits.
abbrev pub is_space : ℕ → Bool
is_space c = c == 32 || leb 9 c && leb c 13

abbrev pub is_digit : ℕ → Bool
is_digit c = leb 48 c && leb c 57

unfoldable pub skip_spaces : Text → Text
skip_spaces [] = []
skip_spaces (c ∷ s) = let rest = skip_spaces s in if is_space c then rest else c ∷ s

-- Up to `width` digits, after `acc`.
unfoldable pub more_digits : ℕ → Text → ℕ → ℕ × Text
more_digits zero s acc = (acc, s)
more_digits (suc w) [] acc = (acc, [])
more_digits (suc w) (c ∷ s) acc =
    let rest = more_digits w s (acc * 10 + (c - 48)) in if is_digit c then rest else (acc, c ∷ s)

unfoldable pub digits : ℕ → Text → Option (ℕ × Text)
unfolding more_digits
digits zero s = none
digits (suc w) [] = none
digits (suc w) (c ∷ s) = if is_digit c then some (more_digits w s (c - 48)) else none

abbrev negated : Option (ℕ × Text) → Option (ℤ × Text)
negated none = none
negated (some (n, s)) = some (pos 0 -ℤ pos n, s)

abbrev positive : Option (ℕ × Text) → Option (ℤ × Text)
positive none = none
positive (some (n, s)) = some (pos n, s)

abbrev scan_signed : ℕ → Text → Option (ℤ × Text)
scan_signed width [] = none
scan_signed width (c ∷ s) =
    if c == b'-'
    then negated (digits (width - 1) s)
    else if c == b'+'
    then positive (digits (width - 1) s)
    else positive (digits width (c ∷ s))

unfoldable pub scan_int : ℕ → Text → Option (ℤ × Text)
unfolding digits skip_spaces ◌-ℤ◌
scan_int width s = scan_signed width (skip_spaces s)

-- A byte of the format that stands for itself.
unfoldable pub scan_byte : ℕ → Text → Option Text
scan_byte b [] = none
scan_byte b (c ∷ s) = if c == b then some s else none

infixl 5 ◌>>=◌
abbrev pub ◌>>=◌ {ℓ κ} : {A : Type ℓ} {B : Type κ} → Option A → (A → Option B) → Option B
none >>= f = none
some a >>= f = f a

pub record Stamp : Type 0 where
  pub year : ℤ
  pub mon : ℤ
  pub day : ℤ
  pub hour : ℤ
  pub minute : ℤ
  pub sec : ℤ

-- "%4d-%2d-%2dT%2d:%2d:%2d" with all six fields; what follows is not looked at.
unfoldable pub scan_stamp : Text → Option Stamp
unfolding scan_int scan_byte
scan_stamp s = do
  (year, s1) ← scan_int 4 s
  s2 ← scan_byte b'-' s1
  (mon, s3) ← scan_int 2 s2
  s4 ← scan_byte b'-' s3
  (day, s5) ← scan_int 2 s4
  s6 ← scan_byte b'T' s5
  (hour, s7) ← scan_int 2 s6
  s8 ← scan_byte b':' s7
  (minute, s9) ← scan_int 2 s8
  s10 ← scan_byte b':' s9
  (sec, s11) ← scan_int 2 s10
  some (record { year = year; mon = mon; day = day; hour = hour; minute = minute; sec = sec })

-- strchr: from the first `b` on.
unfoldable pub find_byte : ℕ → Text → Option Text
find_byte b [] = none
find_byte b (c ∷ s) = let rest = find_byte b s in if c == b then some (c ∷ s) else rest

-- "%2d:%2d", else "%2d%2d".
abbrev scan_offset_colon : Text → Option (ℤ × ℤ)
scan_offset_colon s = do
  (oh, s1) ← scan_int 2 s
  s2 ← scan_byte b':' s1
  (om, s3) ← scan_int 2 s2
  some (oh, om)

abbrev scan_offset_plain : Text → Option (ℤ × ℤ)
scan_offset_plain s = do (oh, s1) ← scan_int 2 s; (om, s2) ← scan_int 2 s1; some (oh, om)

unfoldable pub scan_offset : Text → Option (ℤ × ℤ)
unfolding scan_int scan_byte
scan_offset s = or_else (scan_offset_colon s) (scan_offset_plain s)

-- The first 'Z', else the first '+', else the first '-'.
unfoldable pub find_zone : Text → Option Text
unfolding find_byte
find_zone tz = or_else (find_byte b'Z' tz) (or_else (find_byte b'+' tz) (find_byte b'-' tz))

abbrev shifted : ℤ → ℕ → Option (ℤ × ℤ) → ℤ
shifted t sign none = pos 0
shifted t sign (some (oh, om)) =
    let offset = oh *ℤ pos seconds_per_hour +ℤ om *ℤ pos seconds_per_minute in
    if sign == b'+' then t -ℤ offset else t +ℤ offset

unfoldable pub apply_zone : ℤ → Option Text → ℤ
unfolding scan_offset ◌+ℤ◌ ◌-ℤ◌ ◌*ℤ◌
apply_zone t none = t
apply_zone t (some []) = t
apply_zone t (some (c ∷ s)) = if c == b'Z' then t else shifted t c (scan_offset s)

unfoldable pub seconds_of : Stamp → ℤ
unfolding civil_to_days ◌+ℤ◌ ◌*ℤ◌
seconds_of x =
    civil_to_days x.year (bits32 x.mon) (bits32 x.day) *ℤ pos seconds_per_day
    +ℤ x.hour *ℤ pos seconds_per_hour
    +ℤ x.minute *ℤ pos seconds_per_minute
    +ℤ x.sec

abbrev pub iso8601_datetime_prefix_len : ℕ
iso8601_datetime_prefix_len = 19

abbrev zoned : Text → Option Stamp → ℤ
zoned s none = pos 0
zoned s (some x) = apply_zone (seconds_of x) (find_zone (drop iso8601_datetime_prefix_len s))

-- For a text that is not null.
unfoldable pub parse_iso8601 : Text → ℤ
unfolding seconds_of apply_zone find_zone scan_stamp
parse_iso8601 s =
    if ltb (length s) iso8601_datetime_prefix_len then pos 0 else zoned s (scan_stamp s)
