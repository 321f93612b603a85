-- ===== src/Rle.antt =====
-- src/render/rle.cpp: the run-length code of a frame, plain and over the row differences.
-- A buffer is the list of its bytes. The functions return the bytes that they wrote; the source's
-- return value is their number, and its 0 (overflow, malformed input) is the empty list.
use Prim.Native.Nat.{bit_xor}
pub mod Runs
pub mod RoundTrip
pub mod Xor
pub mod Delta
use bustaferl.Prelude.{
  ℕ, zero, suc, ◌+◌, ◌-◌, ◌%◌, Bool, true, false, List, [], ◌∷◌, ◌++◌, Option, none, some, ltb,
  ◌==◌, ◌&&◌, if◌then◌else◌, length, get_or, set, replicate,
}

abbrev pub rle_max_run : ℕ
rle_max_run = 255

-- while (ip + run < in_len && in[ip + run] == v && run < RLE_MAX_RUN) ++run;
-- The run's length, and the input behind it.
unfoldable pub take_run : ℕ → ℕ → List ℕ → ℕ × List ℕ
take_run run v [] = (run, [])
take_run run v (x ∷ xs) =
    let rest = take_run (run + 1) v xs in
    if (x == v) && ltb run rle_max_run then rest else (run, x ∷ xs)

abbrev pub prepend : ℕ → ℕ → Option (List ℕ) → Option (List ℕ)
prepend run v none = none
prepend run v (some out) = some (run ∷ v ∷ out)

-- The loop over `ip`, with `op` bytes written. Each round consumes a byte or more, so the length of
-- the input is fuel enough; the round after the last one sees the empty input first.
unfoldable pub encode_loop : ℕ → ℕ → ℕ → List ℕ → Option (List ℕ)
encode_loop fuel out_cap op [] = some []
encode_loop zero out_cap op (v ∷ xs) = none
encode_loop (suc fuel) out_cap op (v ∷ xs) =
    let rest = encode_loop fuel out_cap (op + 2) (take_run 1 v xs).1 in
    if ltb out_cap (op + 2) then none else prepend (take_run 1 v xs).0 v rest

abbrev pub written : Option (List ℕ) → List ℕ
written none = []
written (some out) = out

unfoldable pub rle_encode : List ℕ → ℕ → List ℕ
unfolding encode_loop
rle_encode input out_cap = written (encode_loop (length input) out_cap 0 input)

-- for (i = 0; i < run; ++i) out[op++] = v;
abbrev pub append_run : ℕ → ℕ → Option (List ℕ) → Option (List ℕ)
append_run run v none = none
append_run run v (some out) = some (replicate run v ++ out)

-- The loop over the pairs; a run of length 0 is refused. An odd input never gets here.
unfoldable pub decode_loop : ℕ → ℕ → List ℕ → Option (List ℕ)
decode_loop out_cap op [] = some []
decode_loop out_cap op (run ∷ []) = some []
decode_loop out_cap op (run ∷ v ∷ rest) =
    let tail = decode_loop out_cap (op + run) rest in
    if run == 0 then none else if ltb out_cap (op + run) then none else append_run run v tail

unfoldable pub rle_decode : List ℕ → ℕ → List ℕ
unfolding decode_loop
rle_decode input out_cap =
    if length input % 2 == 0 then written (decode_loop out_cap 0 input) else []

-- f start, f (start + 1), …: `n` values.
abbrev pub tabulate : (ℕ → ℕ) → ℕ → ℕ → List ℕ
tabulate f start zero = []
tabulate f start (suc n) = f start ∷ tabulate f (suc start) n

-- `delta(i)`: the byte itself in the first row, its difference from the byte above in the others.
unfoldable pub delta : List ℕ → ℕ → ℕ → ℕ
delta input stride i =
    if ltb i stride
    then get_or input i 0
    else bit_xor (get_or input i 0) (get_or input (i - stride) 0)

-- The loop of `rleEncodeDelta` is that of `rleEncode` over the virtual stream of differences.
unfoldable pub rle_encode_delta : List ℕ → ℕ → ℕ → List ℕ
unfolding encode_loop
rle_encode_delta input stride out_cap =
    let deltas = tabulate (delta input stride) 0 (length input) in
    if stride == 0 then [] else written (encode_loop (length deltas) out_cap 0 deltas)

-- for (i = …; i < n; ++i) out[i] ^= out[i - stride]; `rounds` are left.
unfoldable pub undo_rows : ℕ → ℕ → ℕ → List ℕ → List ℕ
undo_rows zero i stride out = out
undo_rows (suc rounds) i stride out =
    undo_rows rounds (suc i) stride
      (set out i (bit_xor (get_or out i 0) (get_or out (i - stride) 0)))

unfoldable pub rle_decode_delta : List ℕ → ℕ → ℕ → List ℕ
unfolding rle_decode undo_rows
rle_decode_delta input stride out_cap =
    let out = rle_decode input out_cap in
    if stride == 0 then [] else undo_rows (length out - stride) stride stride out
