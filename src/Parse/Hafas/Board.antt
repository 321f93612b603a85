-- ===== src/Parse/Hafas/Board.antt =====
-- What the parsed station board shows.
use bustaferl.Prelude.{
  ℕ, zero, suc, ◌/◌, ◌<◌, ◌≤◌, ◌≡◌, ◌≢◌, refl, sym, ◌⊎◌, inl, inr, true, false, List, [], ◌∷◌, set,
  length, All, arith, Bool-cases, ==_iff, ◌==◌,
}
use bustaferl.Data.{Departure, realtime, plan, no_departure, seconds_per_minute}
use bustaferl.Parse.{Text}
use bustaferl.Parse.Hafas.{is_blank, is_dup, line_label_cap}

abbrev pub minute_of : Departure → ℕ
minute_of d = d.when / seconds_per_minute

-- A label fits with its NUL, and holds no blank.
abbrev pub IsLabel : Text → Type 0
IsLabel s = (length s < line_label_cap) × All (λ c. is_blank c ≡ false) s

abbrev pub IsJourney : ℕ → Departure → Type 0
IsJourney now d =
    (d.valid ≡ true)
    × (now ≤ d.when)
    × ((d.source ≡ realtime) ⊎ (d.source ≡ plan))
    × IsLabel d.line_label

-- None of the first `n` slots has the minute.
abbrev pub NewMinute : ℕ → List Departure → ℕ → Type 0
NewMinute zero ds minute = Unit {0}
NewMinute (suc n) [] minute = Unit {0}
NewMinute (suc n) (d ∷ ds) minute = (minute_of d ≢ minute) × NewMinute n ds minute

abbrev pub HasMinute : ℕ → List Departure → ℕ → Type 0
HasMinute zero ds minute = ⊥
HasMinute (suc n) [] minute = ⊥
HasMinute (suc n) (d ∷ ds) minute = (minute_of d ≡ minute) ⊎ HasMinute n ds minute

-- The first `n` slots hold journeys of different minutes, and the others are free.
abbrev pub Holds : ℕ → ℕ → List Departure → Type 0
Holds now zero ds = All (λ (d : Departure). d ≡ no_departure) ds
Holds now (suc n) [] = ⊥
Holds now (suc n) (d ∷ ds) = IsJourney now d × NewMinute n ds (minute_of d) × Holds now n ds

pub is_dup-HasMinute :
    (n : ℕ) (ds : List Departure) (m : ℕ) → is_dup n ds m ≡ true → HasMinute n ds m
unfolding is_dup
is_dup-HasMinute zero ds m e = cc
is_dup-HasMinute (suc n) [] m e = cc
is_dup-HasMinute (suc n) (d ∷ ds) m e = elim (Bool-cases (minute_of d == m)) [
  | inl f ↦ inl ((==_iff _ m).0 f)
  | inr f ↦ inr (is_dup-HasMinute n ds m (ground arith))
]

pub is_dup-NewMinute :
    (n : ℕ) (ds : List Departure) (m : ℕ) → is_dup n ds m ≡ false → NewMinute n ds m
unfolding is_dup
is_dup-NewMinute zero ds m e = tt
is_dup-NewMinute (suc n) [] m e = tt
is_dup-NewMinute (suc n) (d ∷ ds) m e = (ground arith, is_dup-NewMinute n ds m (ground arith))

set-NewMinute :
    (n : ℕ) (ds : List Departure) (m : ℕ) (d : Departure)
    → NewMinute n ds m
    → minute_of d ≢ m
    → NewMinute (suc n) (set ds n d) m
set-NewMinute zero [] m d h k = tt
set-NewMinute (suc n) [] m d h k = tt
set-NewMinute zero (x ∷ ds) m d h k = (k, tt)
set-NewMinute (suc n) (x ∷ ds) m d h k = (h.0, set-NewMinute n ds m d h.1 k)

pub set-HasMinute :
    (n : ℕ) (ds : List Departure) (m : ℕ) (d : Departure)
    → HasMinute n ds m
    → HasMinute (suc n) (set ds n d) m
set-HasMinute zero ds m d h = elim h [ ]
set-HasMinute (suc n) [] m d h = elim h [ ]
set-HasMinute (suc n) (x ∷ ds) m d (inl e) = inl e
set-HasMinute (suc n) (x ∷ ds) m d (inr h) = inr (set-HasMinute n ds m d h)

-- A minute on the board is that of the new slot, or it was there before.
pub set-HasMinute_inv :
    (n : ℕ) (ds : List Departure) (m : ℕ) (d : Departure)
    → HasMinute (suc n) (set ds n d) m
    → HasMinute n ds m ⊎ (minute_of d ≡ m)
set-HasMinute_inv zero [] m d h = absurd h
set-HasMinute_inv (suc n) [] m d h = absurd h
set-HasMinute_inv zero (x ∷ ds) m d (inl e) = inr e
set-HasMinute_inv zero (x ∷ ds) m d (inr h) = absurd h
set-HasMinute_inv (suc n) (x ∷ ds) m d (inl e) = inl (inl e)
set-HasMinute_inv (suc n) (x ∷ ds) m d (inr h) = elim (set-HasMinute_inv n ds m d h) [
  | inl i ↦ inl (inr i)
  | inr e ↦ inr e
]

pub set-HasMinute_self :
    (n : ℕ) (ds : List Departure) (d : Departure)
    → n < length ds
    → HasMinute (suc n) (set ds n d) (minute_of d)
set-HasMinute_self n [] d h = absurd (omega arith)
set-HasMinute_self zero (x ∷ ds) d h = inl refl
set-HasMinute_self (suc n) (x ∷ ds) d h = inr (set-HasMinute_self n ds d (omega arith))

pub set-Holds :
    (now n : ℕ) (ds : List Departure) (d : Departure)
    → Holds now n ds
    → n < length ds
    → IsJourney now d
    → NewMinute n ds (minute_of d)
    → Holds now (suc n) (set ds n d)
set-Holds now n [] d h lt j new = absurd (omega arith)
set-Holds now zero (x ∷ ds) d h lt j new = (j, tt, h.1)
set-Holds now (suc n) (x ∷ ds) d h lt j new = (
  h.0,
  set-NewMinute n ds (minute_of x) d h.1 (λ e. new.0 (sym e)),
  set-Holds now n ds d h.2 (omega arith) j new.1,
)
