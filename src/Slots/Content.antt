-- ===== src/Slots/Content.antt =====
-- What an insertion keeps: the slots come from the candidates, an earlier departure is not lost,
-- and a minute that a realtime departure has taken is not given to a hint.
use bustaferl.Prelude.{ℕ, ◌<◌, ◌≡◌, ◌≢◌, true, List, [], ◌∷◌, ◌⊎◌, inl, inr, arith, All, Bool-cases}
use bustaferl.Data.{Departure, hint}
use bustaferl.Slots.Insert.{insert_sorted, minute, same_minute}
use bustaferl.Slots.Sorted.{Ordered, IsOrdered, by_slots}

-- `P` holds of every departure that is shown.
abbrev pub Shown : (Departure → Type 0) → List Departure → Type 0
Shown P = All (λ d. d.valid ≡ true → P d)

insert-Shown :
    (P : Departure → Type 0) (a b c cand : Departure)
    → Shown P (a ∷ b ∷ c ∷ [])
    → (cand.valid ≡ true → P cand)
    → Shown P (insert_sorted (a ∷ b ∷ c ∷ []) cand)
unfolding insert_sorted
insert-Shown P a b c cand h p = ground arith

-- The minute of `t` is on the board, or the board is full of earlier ones.
abbrev pub Covered : ℕ → List Departure → Type 0
Covered t (a ∷ b ∷ c ∷ []) =
    (same_minute t a ≡ true)
    ⊎ (same_minute t b ≡ true)
    ⊎ (same_minute t c ≡ true)
    ⊎ ((c.valid ≡ true) × (minute c.when < minute t))
Covered t _ = ⊥

insert-Covered :
    (t : ℕ) (a b c cand : Departure)
    → Ordered a b c
    → Covered t (a ∷ b ∷ c ∷ [])
    → Covered t (insert_sorted (a ∷ b ∷ c ∷ []) cand)
unfolding insert_sorted
insert-Covered t a b c cand o h = ground arith

insert-Covers :
    (a b c cand : Departure)
    → Ordered a b c
    → cand.valid ≡ true
    → Covered cand.when (insert_sorted (a ∷ b ∷ c ∷ []) cand)
unfolding insert_sorted
insert-Covers a b c cand o v = ground arith

-- No hint stands in the minute of `t`.
abbrev pub NotHintAt : ℕ → Departure → Type 0
NotHintAt t d = same_minute t d ≡ true → d.source ≢ hint

abbrev pub NoHintAt : ℕ → List Departure → Type 0
NoHintAt t = Shown (NotHintAt t)

insert_in-Covered :
    (t : ℕ) (a b c cand : Departure)
    → Ordered a b c
    → Covered t (a ∷ b ∷ c ∷ [])
    → same_minute t cand ≡ true
    → insert_sorted (a ∷ b ∷ c ∷ []) cand ≡ a ∷ b ∷ c ∷ []
unfolding insert_sorted
insert_in-Covered t a b c cand o h m = ground arith

insert-NoHintAt :
    (t : ℕ) (a b c cand : Departure)
    → Ordered a b c
    → Covered t (a ∷ b ∷ c ∷ [])
    → NoHintAt t (a ∷ b ∷ c ∷ [])
    → NoHintAt t (insert_sorted (a ∷ b ∷ c ∷ []) cand)
insert-NoHintAt t a b c cand o h n = elim (Bool-cases (same_minute t cand)) [
  | inl m ↦ rw (insert_in-Covered t a b c cand o h m) n
  | inr m ↦ insert-Shown (NotHintAt t) a b c cand n (λ _ e. cc)
]

pub insert_sorted-Shown :
    (P : Departure → Type 0) (cand : Departure)
    → (cand.valid ≡ true → P cand)
    → (out : List Departure) → IsOrdered out
    → Shown P out
    → Shown P (insert_sorted out cand)
insert_sorted-Shown P cand p =
    by_slots (λ out. Shown P out → Shown P (insert_sorted out cand))
      (λ a b c o h. insert-Shown P a b c cand h p)

pub insert_sorted-Covered :
    (t : ℕ) (cand : Departure) (out : List Departure)
    → IsOrdered out
    → Covered t out
    → Covered t (insert_sorted out cand)
insert_sorted-Covered t cand =
    by_slots (λ out. Covered t out → Covered t (insert_sorted out cand))
      (λ a b c o h. insert-Covered t a b c cand o h)

pub insert_sorted_Covers :
    (cand : Departure)
    → cand.valid ≡ true
    → (out : List Departure) → IsOrdered out
    → Covered cand.when (insert_sorted out cand)
insert_sorted_Covers cand v =
    by_slots (λ out. Covered cand.when (insert_sorted out cand))
      (λ a b c o. insert-Covers a b c cand o v)

pub insert_sorted-NoHintAt :
    (t : ℕ) (cand : Departure) (out : List Departure)
    → IsOrdered out
    → Covered t out
    → NoHintAt t out
    → NoHintAt t (insert_sorted out cand)
insert_sorted-NoHintAt t cand =
    by_slots (λ out. Covered t out → NoHintAt t out → NoHintAt t (insert_sorted out cand))
      (λ a b c o h n. insert-NoHintAt t a b c cand o h n)
