-- ===== src/Rle/RoundTrip.antt =====
-- The run-length code: what fits, how long the code is, and that decoding undoes encoding.
use bustaferl.Prelude.{
  ℕ, zero, suc, ◌+◌, ◌*◌, ◌%◌, ◌≤◌, ◌<◌, ◌≡◌, refl, ap, List, [], ◌∷◌, ◌++◌, none, some, arith,
  length, length-append, length-replicate, replicate, Option-cases, inl, inr,
}
use bustaferl.Rle.{take_run, encode_loop, decode_loop, written, rle_encode, rle_decode}
use bustaferl.Rle.Runs.{runs, length-take_run, take_run_bounds, take_run-append}

-- The loop ends with a code of two bytes a run if that fits behind the `op` bytes already written.
pub encode_loop_fits :
    (fuel out_cap op : ℕ) (xs : List ℕ)
    → length xs ≤ fuel
    → op + 2 * runs fuel xs ≤ out_cap
    → (out : List ℕ) × (encode_loop fuel out_cap op xs ≡ some out) × (length out ≡ 2 * runs fuel xs)
unfolding encode_loop
encode_loop_fits fuel out_cap op [] h fit = ([], refl, omega arith)
encode_loop_fits zero out_cap op (v ∷ xs) h fit = absurd (omega arith)
encode_loop_fits (suc fuel) out_cap op (v ∷ xs) h fit =
    let (out, e, l) =
      encode_loop_fits fuel out_cap (op + 2) (take_run 1 v xs).1
        (omega (arith, length-take_run 1 v xs)) (omega arith) in
    ((take_run 1 v xs).0 ∷ v ∷ out, ground (arith, e), omega arith)

-- It overflows if it does not fit.
pub encode_loop_overflow :
    (fuel out_cap op : ℕ) (xs : List ℕ)
    → op ≤ out_cap
    → out_cap < op + 2 * runs fuel xs
    → encode_loop fuel out_cap op xs ≡ none
unfolding encode_loop
encode_loop_overflow fuel out_cap op [] h over = absurd (omega arith)
encode_loop_overflow zero out_cap op (v ∷ xs) h over = absurd (omega arith)
encode_loop_overflow (suc fuel) out_cap op (v ∷ xs) h over =
    ground (arith, encode_loop_overflow fuel out_cap (op + 2) (take_run 1 v xs).1)

length-append_run : (run v : ℕ) (out : List ℕ) → length (replicate run v ++ out) ≡ run + length out
length-append_run run v out =
    omega (arith, length-append (replicate run v) out, length-replicate run v)

-- One pair decodes to its run.
decode_loop_step :
    (out_cap op run v : ℕ) (rest out : List ℕ)
    → 0 < run
    → op + run ≤ out_cap
    → decode_loop out_cap (op + run) rest ≡ some out
    → decode_loop out_cap op (run ∷ v ∷ rest) ≡ some (replicate run v ++ out)
unfolding decode_loop
decode_loop_step out_cap op run v rest out pos fit e = ground arith

-- What the encoder wrote for a first run, and what it goes on with.
encode_loop_inv :
    (fuel cap op v : ℕ) (xs out : List ℕ)
    → encode_loop (suc fuel) cap op (v ∷ xs) ≡ some out
    → (tail : List ℕ) × (encode_loop fuel cap (op + 2) (take_run 1 v xs).1 ≡ some tail)
      × (out ≡ (take_run 1 v xs).0 ∷ v ∷ tail)
unfolding encode_loop
encode_loop_inv fuel cap op v xs out e =
    elim (Option-cases (encode_loop fuel cap (op + 2) (take_run 1 v xs).1)) [
      | inl n ↦ absurd (ground (arith, n))
      | inr (tail, t) ↦ (tail, t, ground (arith, t))
    ]

decode_loop-encode_loop :
    (fuel cap op dec_cap dec_op : ℕ) (xs out : List ℕ)
    → encode_loop fuel cap op xs ≡ some out
    → dec_op + length xs ≤ dec_cap
    → decode_loop dec_cap dec_op out ≡ some xs
unfolding encode_loop
decode_loop-encode_loop fuel cap op dec_cap dec_op [] out e fit =
    let empty : out ≡ [] = cc in rw empty (unfold decode_loop in refl)
decode_loop-encode_loop zero cap op dec_cap dec_op (v ∷ xs) out e fit = cc
decode_loop-encode_loop (suc fuel) cap op dec_cap dec_op (v ∷ xs) out e fit =
    let (tail, t, o) = encode_loop_inv fuel cap op v xs out e in
    let (run, rest) = take_run 1 v xs in
    let whole : replicate run v ++ rest ≡ v ∷ xs = take_run-append 1 v xs in
    let len : run + length rest ≡ suc (length xs) =
      omega (arith, length-append_run run v rest, ap length whole) in
    rw (o, ← whole)
      (decode_loop_step dec_cap dec_op run v tail rest
        (omega (arith, take_run_bounds 1 v xs (omega arith))) (omega arith)
        (decode_loop-encode_loop fuel cap (op + 2) dec_cap (dec_op + run) rest tail t
          (omega arith)))

-- The code has an even length.
encode_loop-even :
    (fuel cap op : ℕ) (xs out : List ℕ) → encode_loop fuel cap op xs ≡ some out → length out % 2 ≡ 0
unfolding encode_loop
encode_loop-even fuel cap op [] out e = let empty : out ≡ [] = cc in rw empty
encode_loop-even zero cap op (v ∷ xs) out e = cc
encode_loop-even (suc fuel) cap op (v ∷ xs) out e =
    let (tail, t, o) = encode_loop_inv fuel cap op v xs out e in
    rw o (omega (arith, encode_loop-even fuel cap (op + 2) (take_run 1 v xs).1 tail t))

-- The length of the code of `xs`.
abbrev pub code_size : List ℕ → ℕ
code_size xs = 2 * runs (length xs) xs

-- Encoding a buffer writes exactly two bytes a run if they fit into the capacity.
pub length-rle_encode :
    (xs : List ℕ) (cap : ℕ) → code_size xs ≤ cap → length (rle_encode xs cap) ≡ code_size xs
unfolding rle_encode
length-rle_encode xs cap fit =
    let (out, e, l) = encode_loop_fits (length xs) cap 0 xs (omega arith) (omega arith) in rw e l

-- The encoder writes nothing if two bytes for each run do not fit into the capacity.
pub rle_encode_overflow : (xs : List ℕ) (cap : ℕ) → cap < code_size xs → rle_encode xs cap ≡ []
unfolding rle_encode
rle_encode_overflow xs cap over =
    rw (encode_loop_overflow (length xs) cap 0 xs (omega arith) (omega arith))

-- Decoding undoes encoding: whenever the code fits into its capacity and the buffer into the
-- decoder's, the decoder gives the buffer back.
pub rle_decode-rle_encode :
    (xs : List ℕ) (cap out_cap : ℕ)
    → code_size xs ≤ cap
    → length xs ≤ out_cap
    → rle_decode (rle_encode xs cap) out_cap ≡ xs
unfolding rle_encode rle_decode
rle_decode-rle_encode xs cap out_cap fit room =
    let (out, e, l) = encode_loop_fits (length xs) cap 0 xs (omega arith) (omega arith) in
    let d = decode_loop-encode_loop (length xs) cap 0 out_cap 0 xs out e (omega arith) in
    rw e (ground (arith, d, encode_loop-even (length xs) cap 0 xs out e))

decode_loop_bound :
    (out_cap op : ℕ) (input : List ℕ)
    → op ≤ out_cap
    → op + length (written (decode_loop out_cap op input)) ≤ out_cap
unfolding decode_loop
decode_loop_bound out_cap op [] h = omega arith
decode_loop_bound out_cap op (run ∷ []) h = omega arith
decode_loop_bound out_cap op (run ∷ v ∷ rest) h =
    elim (Option-cases (decode_loop out_cap (op + run) rest)) [
      | inl e ↦ ground (arith, e)
      | inr (tail, e) ↦
          ground (arith, e, decode_loop_bound out_cap (op + run) rest, length-append_run run v tail)
    ]

-- On any input, malformed or not, the decoder writes no more bytes than its buffer holds.
pub length-rle_decode-le :
    (input : List ℕ) (out_cap : ℕ) → length (rle_decode input out_cap) ≤ out_cap
unfolding rle_decode
length-rle_decode-le input out_cap = ground (arith, decode_loop_bound out_cap 0 input)
