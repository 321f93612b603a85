-- ===== src/Parse/Calendar.antt =====
-- The civil calendar of src/data/wienerlinien_parse.cpp counts the days.
use bustaferl.Prelude.{
  ℕ, zero, suc, ◌+◌, ◌-◌, ◌*◌, ◌/◌, ◌%◌, ◌≤◌, ◌<◌, ◌≡◌, ◌≢◌, ◌∙◌, refl, Bool, true, false, ltb, leb,
  ◌==◌, ◌&&◌, ◌||◌, not, arith, ltb→lt, ==_iff, Bool-cases, inl, inr, if◌then◌else◌,
}
use bustaferl.Prelude.Int.{pos, ◌+ℤ◌, ◌-ℤ◌, ◌*ℤ◌}
use bustaferl.Parse.Iso.{
  civil_to_days, year_of_era, day_of_year, day_of_era, civil_days_per_era, civil_days_to_epoch,
  civil_year,
}

-- The Gregorian calendar, by its rules.
pub record Date : Type 0 where
  pub year : ℕ
  pub month : ℕ
  pub day : ℕ

abbrev is_leap : ℕ → Bool
is_leap y = y % 4 == 0 && not (y % 100 == 0) || y % 400 == 0

abbrev is_short : ℕ → Bool
is_short m = m == 4 || m == 6 || m == 9 || m == 11

abbrev month_length : ℕ → ℕ → ℕ
month_length y m = if m == 2 then (if is_leap y then 29 else 28) else if is_short m then 30 else 31

abbrev pub next_day : Date → Date
next_day t =
    if ltb t.day (month_length t.year t.month)
    then record t { day = t.day + 1 }
    else if ltb t.month 12
    then record { year = t.year; month = t.month + 1; day = 1 }
    else record { year = t.year + 1; month = 1; day = 1 }

unfoldable pub date_after : ℕ → Date
date_after zero = record { year = 1970; month = 1; day = 1 }
date_after (suc n) = next_day (date_after n)

abbrev march_month : ℕ → ℕ
march_month m = if ltb 2 m then m - 3 else m + 9

-- The days of a year from March on, and those before the year `a` that starts in March.
abbrev doy : ℕ → ℕ → ℕ
doy m d = (153 * march_month m + 2) / 5 + d - 1

abbrev before_year : ℕ → ℕ
before_year a = a / 400 * 146097 + (a % 400 * 365 + a % 400 / 4 - a % 400 / 100)

abbrev march_year : ℕ → ℕ → ℕ
march_year y m = if leb m 2 then y - 1 else y

pub record IsDate (t : Date) : Type 0 where
  pub year_in : 1970 ≤ t.year
  pub month_in : (1 ≤ t.month) × (t.month ≤ 12)
  pub day_in : (1 ≤ t.day) × (t.day ≤ month_length t.year t.month)

next_day-IsDate : (t : Date) → IsDate t → IsDate (next_day t)
next_day-IsDate t h = ground arith

year_of_era-pos : (n : ℕ) → year_of_era (pos n) ≡ n % 400
unfolding year_of_era ◌-ℤ◌ ◌*ℤ◌
year_of_era-pos n = ground arith

day_of_year-doy : (m d : ℕ) → 1 ≤ m → m ≤ 12 → 1 ≤ d → d ≤ 31 → day_of_year m d ≡ doy m d
unfolding day_of_year
day_of_year-doy m d a b c e = ground arith

day_of_era_lem :
    (yoe d : ℕ) → yoe < 400 → d < 1000 → day_of_era yoe d ≡ yoe * 365 + yoe / 4 - yoe / 100 + d
unfolding day_of_era
day_of_era_lem yoe d a b = omega arith

before_year-suc :
    (a : ℕ) → before_year (suc a) ≡ before_year a + (if is_leap (suc a) then 366 else 365)
before_year-suc a = ground arith

abbrev pub days_from_march : Date → ℕ
days_from_march t = before_year (march_year t.year t.month) + doy t.month t.day

civil_year-pos : (y m : ℕ) → 1 ≤ y → civil_year (pos y) m ≡ pos (march_year y m)
unfolding ◌-ℤ◌
civil_year-pos y m h = ground arith

sums :
    (e f d : ℕ)
    → pos e *ℤ pos civil_days_per_era +ℤ pos (f + d) -ℤ pos civil_days_to_epoch
      ≡ pos (e * 146097 + f + d) -ℤ pos civil_days_to_epoch
unfolding ◌+ℤ◌ ◌-ℤ◌ ◌*ℤ◌
sums e f d = ground arith

civil_to_days-march :
    (t : Date)
    → IsDate t
    → civil_to_days (pos t.year) t.month t.day ≡ pos (days_from_march t) -ℤ pos civil_days_to_epoch
unfolding civil_to_days
civil_to_days-march t h =
    let a = march_year t.year t.month in
    let (lo, hi) = h.month_in in
    let (first, last) = h.day_in in
    rw
      (
        civil_year-pos t.year t.month (omega (arith, h.year_in)),
        year_of_era-pos a,
        day_of_year-doy t.month t.day lo hi first (ground arith),
        day_of_era_lem (a % 400) (doy t.month t.day) (omega arith) (ground arith),
      )
      (sums (a / 400) _ _)

-- From one month to the next within a year that starts in March, and from February to March.
doy-suc : (y m : ℕ) → 1 ≤ m → m < 12 → m ≢ 2 → doy (m + 1) 1 ≡ doy m (month_length y m) + 1
doy-suc y m lo hi h = ground arith

leap_march :
    (b : Bool) (n p : ℕ)
    → n ≡ p + (if b then 366 else 365)
    → n + doy 3 1 ≡ p + doy 2 (if b then 29 else 28) + 1
leap_march true n p h = omega arith
leap_march false n p h = omega arith

before_year-march :
    (a : ℕ)
    → before_year (suc a) + doy 3 1 ≡ before_year (suc a - 1) + doy 2 (month_length (suc a) 2) + 1
before_year-march a =
    let e : suc a - 1 ≡ a = omega arith in
    rw e (leap_march (is_leap (suc a)) (before_year (suc a)) (before_year a) (before_year-suc a))

march_year_next : (y m : ℕ) → 1 ≤ m → m ≢ 2 → march_year y (m + 1) ≡ march_year y m
march_year_next y m lo h = ground arith

doy-december : (y : ℕ) → doy 1 1 ≡ doy 12 31 + 1
doy-december y = refl

abbrev days_at : ℕ → ℕ → ℕ → ℕ
days_at y m d = before_year (march_year y m) + doy m d

next_month :
    (y m : ℕ) → 1 ≤ m → m < 12 → 1 ≤ y → days_at y (m + 1) 1 ≡ days_at y m (month_length y m) + 1
next_month zero m lo hi h = absurd (omega arith)
next_month (suc a) m lo hi h = elim (Bool-cases (m == 2)) [
  | inl e ↦ rw ((==_iff m 2).0 e) (before_year-march a)
  | inr e ↦
      let other : m ≢ 2 = ground arith in
      rw (march_year_next (suc a) m lo other) (omega (arith, doy-suc (suc a) m lo hi other))
]

days_from_march-next_day :
    (t : Date) → IsDate t → days_from_march (next_day t) ≡ days_from_march t + 1
days_from_march-next_day t h = elim (Bool-cases (ltb t.day (month_length t.year t.month))) [
  | inl e ↦ rw e (omega (arith, h.day_in))
  | inr e ↦ elim (Bool-cases (ltb t.month 12)) [
    | inl f ↦
        rw (e, f)
          (ground (
            arith,
            next_month t.year t.month h.month_in.0 (omega (arith, ltb→lt _ _ f))
                (omega (arith, h.year_in)),
          ))
    | inr f ↦ rw (e, f) (ground arith)
  ]
]

pub date_after-Counted :
    (n : ℕ) → IsDate (date_after n) × (days_from_march (date_after n) ≡ civil_days_to_epoch + n)
unfolding date_after
date_after-Counted zero = (omega arith, refl)
date_after-Counted (suc n) =
    let (valid, counted) = date_after-Counted n in
    (
      next_day-IsDate (date_after n) valid,
      omega (arith, days_from_march-next_day (date_after n) valid, counted),
    )

-- Days are counted as the Gregorian calendar lists them, from 1970-01-01 on, which is day 0.
pub civil_to_days-date_after :
    (n : ℕ)
    → civil_to_days (pos (date_after n).year) (date_after n).month (date_after n).day ≡ pos n
unfolding ◌-ℤ◌
civil_to_days-date_after n =
    let (valid, counted) = date_after-Counted n in
    civil_to_days-march (date_after n) valid ∙ rw counted (ground arith)
