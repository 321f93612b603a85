-- ===== src/Render/Frame/Bit.antt =====
-- A bit of a byte, and the byte of a pixel.
use bustaferl.Prelude.{
  ℕ, zero, suc, ◌+◌, ◌*◌, ◌/◌, ◌%◌, ◌≤◌, ◌<◌, ◌≡◌, ◌≢◌, refl, ap, Bool, true, false, List, [], ◌∷◌,
  arith, ltb, ltb→lt, ◌==◌, ◌&&◌, not, if◌then◌else◌, length, get_or, set, Bool-cases, inl, inr,
  All,
}
use bustaferl.Render.Frame.{mask_of, put_bit, has_bit}

-- A test of all numbers below a bound.
test_up_to : (ℕ → Bool) → ℕ → Bool
test_up_to test zero = true
test_up_to test (suc top) = let rest = test_up_to test top in if test top then rest else false

tested : (test : ℕ → Bool) (top i : ℕ) → i < top → test_up_to test top ≡ true → test i ≡ true
unfolding test_up_to
tested test (suc top) i below passed = ground (arith, tested test top i)
tested test zero i below passed = absurd (omega arith)

same_bool : Bool → Bool → Bool
same_bool true b = b
same_bool false b = not b

same_bool_sound : (a b : Bool) → same_bool a b ≡ true → a ≡ b
unfolding same_bool
same_bool_sound a b h = ground arith

-- What a bit of a byte is after a bit was put.
put_agrees : Bool → ℕ → ℕ → ℕ → Bool
put_agrees white byte k j =
    let after = put_bit byte (mask_of k) white in
    ltb after 256
    && same_bool (has_bit after (mask_of j)) (if k == j then white else has_bit byte (mask_of j))

put_table : Bool → Bool
unfolding test_up_to put_agrees same_bool
put_table white =
    test_up_to (λ byte. test_up_to (λ k. test_up_to (λ j. put_agrees white byte k j) 8) 8) 256

put_table_white : put_table true ≡ true
unfolding put_table
put_table_white = refl

put_table_black : put_table false ≡ true
unfolding put_table
put_table_black = refl

put_agrees_all :
    (white : Bool) (byte k j : ℕ) → byte < 256 → k < 8 → j < 8 → put_agrees white byte k j ≡ true
unfolding put_table
put_agrees_all white byte k j b p q =
    tested (λ j. put_agrees white byte k j) 8 j q
      (tested (λ k. test_up_to (λ j. put_agrees white byte k j) 8) 8 k p
        (tested (λ byte. test_up_to (λ k. test_up_to (λ j. put_agrees white byte k j) 8) 8) 256 byte
          b (by_colour white)))
  where
    by_colour : (white : Bool) → put_table white ≡ true
    by_colour true = put_table_white
    by_colour false = put_table_black

both_true : (a b : Bool) → (a && b) ≡ true → (a ≡ true) × (b ≡ true)
both_true a b h = (ground arith, ground arith)

pub put_bit-lt :
    (white : Bool) (byte k : ℕ) → byte < 256 → k < 8 → put_bit byte (mask_of k) white < 256
unfolding put_agrees
put_bit-lt white byte k b p =
    let after = put_bit byte (mask_of k) white in
    ltb→lt after 256
      (both_true (ltb after 256) _ (put_agrees_all white byte k 0 b p (omega arith))).0

pub has_bit-put_bit :
    (white : Bool) (byte k j : ℕ)
    → byte < 256
    → k < 8
    → j < 8
    → has_bit (put_bit byte (mask_of k) white) (mask_of j)
      ≡ (if k == j then white else has_bit byte (mask_of j))
unfolding put_agrees
has_bit-put_bit white byte k j b p q =
    same_bool_sound _ _ (both_true _ _ (put_agrees_all white byte k j b p q)).1

pub get_or-set_self : (buf : List ℕ) (i v d : ℕ) → i < length buf → get_or (set buf i v) i d ≡ v
get_or-set_self [] i v d h = absurd (omega arith)
get_or-set_self (b ∷ bs) zero v d h = refl
get_or-set_self (b ∷ bs) (suc i) v d h = get_or-set_self bs i v d (omega arith)

pub get_or-set_ne : (buf : List ℕ) (i j v d : ℕ) → i ≢ j → get_or (set buf i v) j d ≡ get_or buf j d
get_or-set_ne [] i j v d h = refl
get_or-set_ne (b ∷ bs) zero zero v d h = absurd (h refl)
get_or-set_ne (b ∷ bs) zero (suc j) v d h = refl
get_or-set_ne (b ∷ bs) (suc i) zero v d h = refl
get_or-set_ne (b ∷ bs) (suc i) (suc j) v d h = get_or-set_ne bs i j v d (λ e. h (ap suc e))

-- The bytes of a frame.
abbrev pub AreBytes : List ℕ → Type 0
AreBytes = All (λ b. b < 256)

pub get_or-lt : (buf : List ℕ) (i : ℕ) → AreBytes buf → get_or buf i 0 < 256
get_or-lt [] i h = omega arith
get_or-lt (b ∷ bs) zero h = h.0
get_or-lt (b ∷ bs) (suc i) h = get_or-lt bs i h.1

pub row_after : (s m j : ℕ) → m < j → m * s + s ≤ j * s
row_after s m j h = grind arith

pub same_row : (s m a j b : ℕ) → a < s → b < s → m * s + a ≡ j * s + b → m ≡ j
same_row s m a j b p q e = elim (Bool-cases (ltb m j)) [
  | inl l ↦ absurd (let r = row_after s m j (ltb→lt m j l) in omega arith)
  | inr l ↦ elim (Bool-cases (ltb j m)) [
    | inl k ↦ absurd (let r = row_after s j m (ltb→lt j m k) in omega arith)
    | inr k ↦ ground arith
  ]
]

-- The place of a pixel's bit is its own: two pixels of a row of `s` bytes share byte and bit only if
-- they are the same.
pub same_place :
    (s n m i j : ℕ)
    → n < s * 8
    → i < s * 8
    → m * s + n / 8 ≡ j * s + i / 8
    → n % 8 ≡ i % 8
    → (n ≡ i) × (m ≡ j)
same_place s n m i j p q e k =
    let r = same_row s m (n / 8) j (i / 8) (omega arith) (omega arith) e in
    let row = ap (λ t. t * s) r in
    let byte : n / 8 ≡ i / 8 = omega (arith, row, e) in (omega (arith, byte, k), r)
