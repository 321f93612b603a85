-- ===== src/Slots/Sorted.antt =====
-- The order of the slot array: sorted, without gaps and without two departures in one minute.
use bustaferl.Prelude.{◌<◌, ◌≡◌, true, List, [], ◌∷◌, arith}
use bustaferl.Data.{Departure}
use bustaferl.Slots.Insert.{insert_sorted, minute}

-- `e` may follow `d` only at a later minute, and nothing follows a free slot.
abbrev pub Follows : Departure → Departure → Type 0
Follows d e = e.valid ≡ true → (d.valid ≡ true) × (minute d.when < minute e.when)

pub record Ordered (a b c : Departure) : Type 0 where
  pub first : Follows a b
  pub second : Follows b c

-- The array has three slots, and they are ordered.
abbrev pub IsOrdered : List Departure → Type 0
IsOrdered (a ∷ b ∷ c ∷ []) = Ordered a b c
IsOrdered _ = ⊥

pub by_slots {ℓ} :
    (P : List Departure → Type ℓ)
    → ((a b c : Departure) → Ordered a b c → P (a ∷ b ∷ c ∷ []))
    → (out : List Departure) → IsOrdered out
    → P out
by_slots P f [] h = absurd h
by_slots P f (a ∷ []) h = absurd h
by_slots P f (a ∷ b ∷ []) h = absurd h
by_slots P f (a ∷ b ∷ c ∷ []) h = f a b c h
by_slots P f (a ∷ b ∷ c ∷ d ∷ ds) h = absurd h

insert-Ordered :
    (a b c cand : Departure) → Ordered a b c → IsOrdered (insert_sorted (a ∷ b ∷ c ∷ []) cand)
unfolding insert_sorted
insert-Ordered a b c cand h = ground arith

pub insert_sorted-IsOrdered :
    (cand : Departure) (out : List Departure) → IsOrdered out → IsOrdered (insert_sorted out cand)
insert_sorted-IsOrdered cand =
    by_slots (λ out. IsOrdered (insert_sorted out cand)) (λ a b c h. insert-Ordered a b c cand h)
