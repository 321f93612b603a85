-- ===== src/Slots/Merge.antt =====
-- The loops of `mergeSlots` over one stream, by the laws of the insertion.
use bustaferl.Prelude.{ℕ, ◌≤◌, ◌≡◌, ◌≢◌, true, false, Bool, List, [], ◌∷◌, arith, All, refl}
use bustaferl.Data.{Departure, ScheduleHint, empty_slots}
use bustaferl.Slots.Insert.{insert_sorted}
use bustaferl.Slots.Sorted.{IsOrdered, insert_sorted-IsOrdered}
use bustaferl.Slots.Content.{Covered, insert_sorted-Covered, insert_sorted_Covers}
use bustaferl.Slots.{
  add_realtime, add_hint, add_all_realtime, add_all_hints, merge_stream, hint_departure,
}

-- A realtime departure that is not over, and a hint that is set and not over.
abbrev pub IsUpcoming : ℕ → Departure → Type 0
IsUpcoming now d = (d.valid ≡ true) × (now ≤ d.when)

abbrev pub IsAhead : ℕ → ℕ → Type 0
IsAhead now t = (t ≢ 0) × (now ≤ t)

-- `Q` is kept by the insertion of `cand`.
abbrev pub Keeps : (List Departure → Type 0) → Departure → Type 0
Keeps Q cand = (out : List Departure) → Q out → Q (insert_sorted out cand)

module _ (Q : List Departure → Type 0) (now : ℕ) where
  add_realtime_keeps :
      (d : Departure) (out : List Departure)
      → (IsUpcoming now d → Keeps Q d)
      → Q out
      → Q (add_realtime now out d)
  unfolding add_realtime
  add_realtime_keeps d out k q = ground (arith, λ (u : IsUpcoming now d). k u out q)

  add_hint_keeps :
      (t : ℕ) (out : List Departure)
      → (IsAhead now t → Keeps Q (hint_departure t))
      → Q out
      → Q (add_hint now out t)
  unfolding add_hint
  add_hint_keeps t out k q = ground (arith, λ (u : IsAhead now t). k u out q)

  pub add_all_realtime_keeps :
      (ds : List Departure) (out : List Departure)
      → All (λ d. IsUpcoming now d → Keeps Q d) ds
      → Q out
      → Q (add_all_realtime now out ds)
  unfolding add_all_realtime
  add_all_realtime_keeps [] out k q = q
  add_all_realtime_keeps (d ∷ ds) out k q =
      add_all_realtime_keeps ds (add_realtime now out d) k.1 (add_realtime_keeps d out k.0 q)

  pub add_all_hints_keeps :
      (ts : List ℕ) (out : List Departure)
      → All (λ t. IsAhead now t → Keeps Q (hint_departure t)) ts
      → Q out
      → Q (add_all_hints now out ts)
  unfolding add_all_hints
  add_all_hints_keeps [] out k q = q
  add_all_hints_keeps (t ∷ ts) out k q =
      add_all_hints_keeps ts (add_hint now out t) k.1 (add_hint_keeps t out k.0 q)

  -- A property of the empty array that every insertion keeps holds of the merged one.
  pub merge_stream_keeps :
      (use_schedule : Bool) (slots : List Departure) (h : ScheduleHint)
      → Q empty_slots
      → All (λ d. IsUpcoming now d → Keeps Q d) slots
      → (use_schedule ≡ true → All (λ t. IsAhead now t → Keeps Q (hint_departure t)) h.next_today)
      → (use_schedule ≡ true
          → All (λ t. IsAhead now t → Keeps Q (hint_departure t)) h.first_tomorrow)
      → Q (merge_stream use_schedule now slots h)
  unfolding merge_stream
  merge_stream_keeps false slots h q kd kt km = add_all_realtime_keeps slots empty_slots kd q
  merge_stream_keeps true slots h q kd kt km =
      add_all_hints_keeps h.first_tomorrow _ (km refl) (
        add_all_hints_keeps h.next_today _ (kt refl)
          (add_all_realtime_keeps slots empty_slots kd q))

pub every {ℓ κ} : {A : Type ℓ} {P : A → Type κ} → ((a : A) → P a) → (xs : List A) → All P xs
every f [] = tt
every f (x ∷ xs) = (f x, every f xs)

pub merge_stream-IsOrdered :
    (use_schedule : Bool) (now : ℕ) (slots : List Departure) (h : ScheduleHint)
    → IsOrdered (merge_stream use_schedule now slots h)
merge_stream-IsOrdered use_schedule now slots h =
    merge_stream_keeps IsOrdered now use_schedule slots h (ground arith)
      (every (λ d _. insert_sorted-IsOrdered d) slots)
      (λ _. every (λ t _. insert_sorted-IsOrdered (hint_departure t)) h.next_today)
      (λ _. every (λ t _. insert_sorted-IsOrdered (hint_departure t)) h.first_tomorrow)

-- The shape of the proofs below: an ordered array with one more property.
abbrev pub Both : (List Departure → Type 0) → List Departure → Type 0
Both P out = IsOrdered out × P out

pub Both-Keeps :
    (P : List Departure → Type 0) (cand : Departure)
    → ((out : List Departure) → IsOrdered out → P out → P (insert_sorted out cand))
    → Keeps (Both P) cand
Both-Keeps P cand k out b = (insert_sorted-IsOrdered cand out b.0, k out b.0 b.1)

module _ (now : ℕ) where
  pub realtime_keeps :
      (P : List Departure → Type 0) (ds : List Departure) (out : List Departure)
      → ((d : Departure) (o : List Departure) → IsOrdered o → P o → P (insert_sorted o d))
      → Both P out
      → Both P (add_all_realtime now out ds)
  realtime_keeps P ds out k =
      add_all_realtime_keeps (Both P) now ds out (every (λ d _. Both-Keeps P d (k d)) ds)

  pub hints_keep :
      (P : List Departure → Type 0) (ts : List ℕ) (out : List Departure)
      → ((d : Departure) (o : List Departure) → IsOrdered o → P o → P (insert_sorted o d))
      → Both P out
      → Both P (add_all_hints now out ts)
  hints_keep P ts out k =
      add_all_hints_keeps (Both P) now ts out
        (every (λ t _. Both-Keeps P (hint_departure t) (k (hint_departure t))) ts)

  add_realtime-Covered :
      (d : Departure) (out : List Departure)
      → IsOrdered out
      → IsUpcoming now d
      → Covered d.when (add_realtime now out d)
  unfolding add_realtime
  add_realtime-Covered d out o u = ground (arith, insert_sorted_Covers d u.0 out o)

  add_hint-Covered :
      (t : ℕ) (out : List Departure)
      → IsOrdered out
      → IsAhead now t
      → Covered t (add_hint now out t)
  unfolding add_hint
  add_hint-Covered t out o u = ground (arith, insert_sorted_Covers (hint_departure t) refl out o)

  add_realtime-IsOrdered :
      (d : Departure) (out : List Departure) → IsOrdered out → IsOrdered (add_realtime now out d)
  add_realtime-IsOrdered d out =
      add_realtime_keeps IsOrdered now d out (λ _. insert_sorted-IsOrdered d)

  add_hint-IsOrdered :
      (t : ℕ) (out : List Departure) → IsOrdered out → IsOrdered (add_hint now out t)
  add_hint-IsOrdered t out =
      add_hint_keeps IsOrdered now t out (λ _. insert_sorted-IsOrdered (hint_departure t))

  -- Each upcoming realtime departure is covered after the loop, from any ordered start.
  pub realtime-Covered :
      (ds : List Departure) (out : List Departure)
      → IsOrdered out
      → All (λ d. IsUpcoming now d → Covered d.when (add_all_realtime now out ds)) ds
  unfolding add_all_realtime
  realtime-Covered [] out o = tt
  realtime-Covered (d ∷ ds) out o =
      let o' = add_realtime-IsOrdered d out o in
      (
        λ u.
            (realtime_keeps (Covered d.when) ds (add_realtime now out d)
              (λ c. insert_sorted-Covered d.when c) (o', add_realtime-Covered d out o u)).1,
        realtime-Covered ds (add_realtime now out d) o',
      )

  pub hints-Covered :
      (ts : List ℕ) (out : List Departure)
      → IsOrdered out
      → All (λ t. IsAhead now t → Covered t (add_all_hints now out ts)) ts
  unfolding add_all_hints
  hints-Covered [] out o = tt
  hints-Covered (t ∷ ts) out o =
      let o' = add_hint-IsOrdered t out o in
      (
        λ u.
            (hints_keep (Covered t) ts (add_hint now out t) (λ c. insert_sorted-Covered t c)
              (o', add_hint-Covered t out o u)).1,
        hints-Covered ts (add_hint now out t) o',
      )
