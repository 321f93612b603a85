-- ===== src/Rle/Delta.antt =====
-- The row-difference code: undoing the differences in place gives the frame back.
use Prim.Native.Nat.{bit_xor}
use native.Mathlib.Decide.{dec_le}
use bustaferl.Prelude.{
  ℕ, zero, suc, ◌+◌, ◌-◌, ◌≤◌, ◌<◌, ◌≡◌, ◌≢◌, refl, ◌∙◌, ap, List, [], ◌∷◌, arith, ltb,
  if◌then◌else◌, length, get_or, set,
}
use bustaferl.Rle.{
  tabulate, delta, undo_rows, rle_encode, rle_encode_delta, rle_decode, rle_decode_delta,
}
use bustaferl.Rle.Xor.{bit_xor_twice}
use bustaferl.Rle.RoundTrip.{length-rle_encode, code_size, rle_decode-rle_encode}

pub length-tabulate : (f : ℕ → ℕ) (s n : ℕ) → length (tabulate f s n) ≡ n
length-tabulate f s zero = refl
length-tabulate f s (suc n) = ap suc (length-tabulate f (suc s) n)

-- At the absolute index `j`, which stands at place `i` of the list.
get_or-tabulate : (f : ℕ → ℕ) (s n i j : ℕ) → s + i ≡ j → i < n → get_or (tabulate f s n) i 0 ≡ f j
get_or-tabulate f s zero i j e h = absurd (omega arith)
get_or-tabulate f s (suc n) zero j e h = let e' : s ≡ j = omega arith in ap f e'
get_or-tabulate f s (suc n) (suc i) j e h =
    get_or-tabulate f (suc s) n i j (omega arith) (omega arith)

tabulate_ext :
    (f g : ℕ → ℕ) (s n : ℕ)
    → ((j : ℕ) → s ≤ j → j < s + n → f j ≡ g j)
    → tabulate f s n ≡ tabulate g s n
tabulate_ext f g s zero h = refl
tabulate_ext f g s (suc n) h = rw (
  h s (omega arith) (omega arith),
  tabulate_ext f g (suc s) n (λ j p q. h j (omega arith) (omega arith)),
)

set-tabulate :
    (f g : ℕ → ℕ) (s n i j : ℕ)
    → s + i ≡ j
    → ((k : ℕ) → s ≤ k → k < s + n → k ≢ j → f k ≡ g k)
    → set (tabulate f s n) i (g j) ≡ tabulate g s n
set-tabulate f g s zero i j e h = refl
set-tabulate f g s (suc n) zero j e h =
    let e' : s ≡ j = omega arith in
    rw (← e', tabulate_ext f g (suc s) n (λ k p q. h k (omega arith) (omega arith) (omega arith)))
set-tabulate f g s (suc n) (suc i) j e h = rw (
  h s (omega arith) (omega arith) (omega arith),
  set-tabulate f g (suc s) n i j (omega arith) (λ k p q r. h k (omega arith) (omega arith) r),
)

tabulate-get_or :
    (f : ℕ → ℕ) (s : ℕ) (xs : List ℕ)
    → ((i : ℕ) → i < length xs → f (s + i) ≡ get_or xs i 0)
    → tabulate f s (length xs) ≡ xs
tabulate-get_or f s [] h = refl
tabulate-get_or f s (x ∷ xs) h =
    let head : f s ≡ x = ap f (omega arith) ∙ h 0 (omega arith) in
    rw (
      head,
      tabulate-get_or f (suc s) xs
          (λ i p. let e : suc s + i ≡ s + suc i = omega arith in ap f e ∙ h (suc i) (omega arith)),
    )

module _ (input : List ℕ) (stride : ℕ) (pos : 0 < stride) where
  -- The buffer once the bytes below `i` are plain again.
  abbrev mixed : ℕ → ℕ → ℕ
  mixed i j = if ltb j i then get_or input j 0 else delta input stride j

  restore :
      (i n : ℕ)
      → stride ≤ i
      → i < n
      → bit_xor
          (get_or (tabulate (mixed i) 0 n) i 0)
          (get_or (tabulate (mixed i) 0 n) (i - stride) 0)
        ≡ mixed (suc i) i
  unfolding delta
  restore i n h lt =
      rw
        (
          get_or-tabulate (mixed i) 0 n i i (omega arith) lt,
          get_or-tabulate (mixed i) 0 n (i - stride) (i - stride) (omega arith) (omega arith),
        )
        (ground (arith, bit_xor_twice (get_or input i 0) (get_or input (i - stride) 0)))

  undo_rows-mixed :
      (rounds i n : ℕ)
      → stride ≤ i
      → i + rounds ≡ n
      → undo_rows rounds i stride (tabulate (mixed i) 0 n) ≡ tabulate (mixed n) 0 n
  unfolding undo_rows
  undo_rows-mixed zero i n h e = let e' : i ≡ n = omega arith in rw e'
  undo_rows-mixed (suc rounds) i n h e = rw (restore i n h (omega arith)) (
      rw (set-tabulate (mixed i) (mixed (suc i)) 0 n i i (omega arith) (λ k p q r. ground arith))
        (undo_rows-mixed rounds (suc i) n (omega arith) (omega arith)))

  mixed_start : (n : ℕ) → tabulate (delta input stride) 0 n ≡ tabulate (mixed stride) 0 n
  unfolding delta
  mixed_start n = tabulate_ext _ _ 0 n (λ j p q. ground arith)

  mixed_end : tabulate (mixed (length input)) 0 (length input) ≡ input
  mixed_end =
      tabulate-get_or (mixed (length input)) 0 input
        (λ i p. let e : 0 + i ≡ i = omega arith in rw e (ground arith))

  short : length input ≤ stride → tabulate (delta input stride) 0 (length input) ≡ input
  unfolding delta
  short h =
      tabulate-get_or (delta input stride) 0 input
        (λ i p. let e : 0 + i ≡ i = omega arith in rw e (ground arith))

  undo_rows-delta :
      undo_rows
        (length input - stride)
        stride
        stride
        (tabulate (delta input stride) 0 (length input))
      ≡ input
  undo_rows-delta = elim (dec_le (length input) stride) [
    | yes h ↦
        let none_left : length input - stride ≡ 0 = omega arith in
        rw none_left (unfold undo_rows in short h)
    | no h ↦ rw (mixed_start (length input)) (
        undo_rows-mixed (length input - stride) stride (length input) (omega arith) (omega arith)
        ∙ mixed_end)
  ]

rle_encode_delta_lem :
    (input : List ℕ) (stride out_cap : ℕ)
    → 0 < stride
    → rle_encode_delta input stride out_cap
      ≡ rle_encode (tabulate (delta input stride) 0 (length input)) out_cap
unfolding rle_encode_delta rle_encode
rle_encode_delta_lem input stride out_cap pos = ground arith

rle_decode_delta_lem :
    (code : List ℕ) (stride out_cap : ℕ) (out : List ℕ)
    → 0 < stride
    → rle_decode code out_cap ≡ out
    → rle_decode_delta code stride out_cap ≡ undo_rows (length out - stride) stride stride out
unfolding rle_decode_delta
rle_decode_delta_lem code stride out_cap out pos e = ground arith

-- The code of the row differences has the length of the plain code, if it fits.
pub length-rle_encode_delta :
    (input : List ℕ) (stride cap : ℕ)
    → 0 < stride
    → code_size (tabulate (delta input stride) 0 (length input)) ≤ cap
    → length (rle_encode_delta input stride cap)
      ≡ code_size (tabulate (delta input stride) 0 (length input))
length-rle_encode_delta input stride room pos fit =
    rw (rle_encode_delta_lem input stride room pos)
      (length-rle_encode (tabulate (delta input stride) 0 (length input)) room fit)

pub code_size_pos : (xs : List ℕ) → 0 < length xs → 0 < code_size xs
code_size_pos [] h = absurd (omega arith)
code_size_pos (x ∷ xs) h = omega arith

-- The frame survives the store: if the code of its row differences fits into the capacity and the
-- frame into the decoder's buffer, decoding with the same row width gives the frame back.
pub rle_decode_delta-rle_encode_delta :
    (input : List ℕ) (stride in_cap out_cap : ℕ)
    → 0 < stride
    → code_size (tabulate (delta input stride) 0 (length input)) ≤ in_cap
    → length input ≤ out_cap
    → rle_decode_delta (rle_encode_delta input stride in_cap) stride out_cap ≡ input
rle_decode_delta-rle_encode_delta input stride in_cap out_cap pos fit room =
    rw
      (
        rle_encode_delta_lem input stride in_cap pos,
        rle_decode_delta_lem _ stride out_cap _ pos
            (rle_decode-rle_encode _ in_cap out_cap fit (omega (arith, len))),
        len,
      )
      (undo_rows-delta input stride pos)
  where
    len : length (tabulate (delta input stride) 0 (length input)) ≡ length input
    len = length-tabulate (delta input stride) 0 (length input)
