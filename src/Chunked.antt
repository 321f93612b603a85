-- ===== src/Chunked.antt =====
-- src/hal/Esp32Network.cpp: the stream that decodes a response in chunks.
-- The connection is the list of the bytes that it still delivers, before the time-out or the end of the
-- connection, at which a byte is -1, here `none`.
pub mod Decode
use bustaferl.Prelude.{
  ℕ, zero, suc, ◌+◌, ◌-◌, ◌*◌, ◌^◌, Bool, true, false, List, [], ◌∷◌, ◌++◌, Option, none, some, leb,
  ltb, ◌==◌, ◌&&◌, ◌||◌, if◌then◌else◌, length, drop, min,
}

-- The value of a hexadecimal digit, if the byte is one.
abbrev pub hex_digit : ℕ → Option ℕ
hex_digit b =
    if leb 48 b && leb b 57
    then some (b - 48)
    else if leb 97 b && leb b 102
    then some (b - 87)
    else if leb 65 b && leb b 70
    then some (b - 55)
    else none

abbrev is_space : ℕ → Bool
is_space b = b == 32 || (leb 9 b && leb b 13)

-- The digits at the start of a text, after those that make `n`.
unfoldable pub hex_value : ℕ → List ℕ → ℕ
hex_value n [] = n
hex_value n (b ∷ bs) =
    let more = λ (d : ℕ). hex_value (n * 16 + d) bs in
    elim (hex_digit b) [ none ↦ n | some d ↦ more d ]

-- An optional "0x", which is left alone if no digit follows.
unfoldable pub after_prefix : List ℕ → ℕ
unfolding hex_value
after_prefix (b ∷ x ∷ bs) =
    if b == 48 && (x == 120 || x == 88) then hex_value 0 bs else hex_value 0 (b ∷ x ∷ bs)
after_prefix bs = hex_value 0 bs

-- strtol(s, nullptr, 16), cut off at LONG_MAX; a negative number, which the caller takes for 0, is 0.
unfoldable pub strtol : List ℕ → ℕ
unfolding after_prefix
strtol [] = 0
strtol (b ∷ bs) =
    let rest = strtol bs in
    if is_space b
    then rest
    else if b == 45
    then 0
    else min (2 ^ 31 - 1) (after_prefix (if b == 43 then bs else b ∷ bs))

-- The size line up to its CR LF; of its bytes the first eleven are kept.
abbrev after_cr : List ℕ → List ℕ → Option (List ℕ) × List ℕ
after_cr hex [] = (none, [])
after_cr hex (nl ∷ bs) = if nl == 10 then (some hex, bs) else (none, bs)

unfoldable pub read_size : List ℕ → List ℕ → Option (List ℕ) × List ℕ
read_size hex [] = (none, [])
read_size hex (b ∷ bs) =
    let rest = read_size (if ltb (length hex) 11 then hex ++ (b ∷ []) else hex) bs in
    if b == 13 then after_cr hex bs else rest

pub record Decoder : Type 0 where
  pub client : List ℕ
  pub remaining : ℕ
  pub done : Bool

abbrev finished : List ℕ → Bool × Decoder
finished bs = (false, record { client = bs; remaining = 0; done = true })

-- The last chunk has the size 0; two more bytes are taken off.
abbrev pub sized : Option (List ℕ) × List ℕ → Bool × Decoder
sized (none, bs) = finished bs
sized (some hex, bs) =
    let size = strtol hex in
    if size == 0
    then finished (drop 2 bs)
    else (true, record { client = bs; remaining = size; done = false })

unfoldable pub ensure_chunk : Decoder → Bool × Decoder
unfolding read_size strtol
ensure_chunk d =
    if d.done
    then (false, d)
    else if ltb 0 d.remaining
    then (true, d)
    else sized (read_size [] d.client)

-- The next byte of the chunk; after the last one its CR LF is taken off.
abbrev pub next_byte : ℕ → List ℕ → Option ℕ × Decoder
next_byte remaining [] = (none, record { client = []; remaining = remaining; done = true })
next_byte remaining (b ∷ bs) =
    let left = remaining - 1 in
    (
      some b,
      record { client = if left == 0 then drop 2 bs else bs; remaining = left; done = false },
    )

abbrev pub if_ready : Bool × Decoder → Option ℕ × Decoder
if_ready (false, d) = (none, d)
if_ready (true, d) = next_byte d.remaining d.client

unfoldable pub read : Decoder → Option ℕ × Decoder
unfolding ensure_chunk
read d = if_ready (ensure_chunk d)

-- A consumer that reads up to `fuel` bytes.
abbrev and_more : (Decoder → List ℕ × Decoder) → Option ℕ × Decoder → List ℕ × Decoder
and_more go (none, d) = ([], d)
and_more go (some b, d) = let (bs, last) = go d in (b ∷ bs, last)

pub read_all : ℕ → Decoder → List ℕ × Decoder
unfolding read
read_all zero d = ([], d)
read_all (suc fuel) d = and_more (read_all fuel) (read d)
