-- ===== src/Chunked/Decode.antt =====
-- Decoding gives the body back.
use bustaferl.Prelude.{
  ℕ, suc, ◌+◌, ◌-◌, ◌≤◌, ◌<◌, ◌≡◌, refl, sym, ap, ◌∙◌, true, false, List, [], ◌∷◌, ◌++◌, some,
  arith, lt→ltb, ◌==◌, length, All, length-append,
}
use bustaferl.Chunked.{
  hex_value, after_prefix, strtol, read_size, Decoder, sized, ensure_chunk, next_byte, if_ready,
  read, and_more, read_all,
}

-- A chunk: its size line, which says how many bytes it has, and these.
pub record Chunk : Type 0 where
  pub size_line : List ℕ
  pub bytes : List ℕ

pub record IsChunk (c : Chunk) : Type 0 where
  pub short : length c.size_line ≤ 11
  pub plain : All (λ b. (b == 13) ≡ false) c.size_line
  pub value : strtol c.size_line ≡ length c.bytes
  pub some_byte : 0 < length c.bytes

-- The bytes on the wire, ended by a chunk of the size 0.
abbrev pub encode : List Chunk → List ℕ → List ℕ
encode [] more = 48 ∷ 13 ∷ 10 ∷ 13 ∷ 10 ∷ more
encode (c ∷ cs) more = c.size_line ++ (13 ∷ 10 ∷ (c.bytes ++ (13 ∷ 10 ∷ encode cs more)))

abbrev pub body : List Chunk → List ℕ
body [] = []
body (c ∷ cs) = c.bytes ++ body cs

abbrev pub at_chunk : List ℕ → Decoder
at_chunk bs = record { client = bs; remaining = 0; done = false }

append_assoc : (xs ys zs : List ℕ) → (xs ++ ys) ++ zs ≡ xs ++ (ys ++ zs)
append_assoc [] ys zs = refl
append_assoc (x ∷ xs) ys zs = ap (λ cs. x ∷ cs) (append_assoc xs ys zs)

nil_right : (xs : List ℕ) → xs ++ [] ≡ xs
nil_right [] = refl
nil_right (x ∷ xs) = ap (λ cs. x ∷ cs) (nil_right xs)

read_size-line :
    (hex line bs : List ℕ)
    → length hex + length line ≤ 11
    → All (λ b. (b == 13) ≡ false) line
    → read_size hex (line ++ (13 ∷ 10 ∷ bs)) ≡ (some (hex ++ line), bs)
unfolding read_size
read_size-line hex [] bs h k = ap (λ (l : List ℕ). (some l, bs)) (sym (nil_right hex))
read_size-line hex (b ∷ line) bs h k =
    rw (k.0, lt→ltb (length hex) 11 (omega arith), read_size)
      (read_size-line (hex ++ (b ∷ [])) line bs (omega (arith, length-append hex (b ∷ []))) k.1
        ∙ ap (λ (l : List ℕ). (some l, bs)) (append_assoc hex (b ∷ []) line))

abbrev fuel_for : List ℕ → ℕ → ℕ
fuel_for [] fuel = fuel
fuel_for (b ∷ bs) fuel = suc (fuel_for bs fuel)

-- Within a chunk, and at its last byte.
read-within :
    (n b : ℕ) (bs : List ℕ)
    → read (record { client = b ∷ bs; remaining = suc (suc n); done = false })
      ≡ (some b, record { client = bs; remaining = suc n; done = false })
unfolding read ensure_chunk
read-within n b bs = rw (lt→ltb 0 (suc (suc n)) (omega arith), drop_one n, not_last n) refl
  where
    drop_one : (n : ℕ) → suc (suc n) - 1 ≡ suc n
    drop_one n = omega arith

    not_last : (n : ℕ) → (suc n == 0) ≡ false
    not_last n = ground arith

abbrev after : List ℕ → List ℕ × Decoder → List ℕ × Decoder
after xs r = (xs ++ r.0, r.1)

read_all-bytes :
    (b : ℕ) (bs more : List ℕ) (fuel : ℕ)
    → read_all
        (fuel_for (b ∷ bs) fuel)
        (record { client = b ∷ bs ++ (13 ∷ 10 ∷ more); remaining = length (b ∷ bs); done = false })
      ≡ after (b ∷ bs) (read_all fuel (at_chunk more))
unfolding read_all read ensure_chunk
read_all-bytes b [] more fuel = refl
read_all-bytes b (c ∷ bs) more fuel =
    ap (and_more (read_all (fuel_for (c ∷ bs) fuel)))
      (read-within (length bs) b (c ∷ bs ++ (13 ∷ 10 ∷ more)))
    ∙ ap (after (b ∷ [])) (read_all-bytes c bs more fuel)

abbrev in_chunk : List ℕ → ℕ → Decoder
in_chunk bs n = record { client = bs; remaining = n; done = false }

read-in_chunk : (bs : List ℕ) (n : ℕ) → 0 < n → read (in_chunk bs n) ≡ next_byte n bs
unfolding read ensure_chunk
read-in_chunk bs n h = rw (lt→ltb 0 n h) refl

sized-chunk :
    (c : Chunk) (bs : List ℕ)
    → IsChunk c
    → sized (some c.size_line, bs) ≡ (true, in_chunk bs (length c.bytes))
sized-chunk c bs k = rw (k.value, not_zero (length c.bytes) k.some_byte) refl
  where
    not_zero : (n : ℕ) → 0 < n → (n == 0) ≡ false
    not_zero n h = ground arith

-- At a size line the decoder goes over to the bytes of the chunk.
read-chunk :
    (c : Chunk) (more : List ℕ)
    → IsChunk c
    → read (at_chunk (c.size_line ++ (13 ∷ 10 ∷ more))) ≡ read (in_chunk more (length c.bytes))
unfolding read ensure_chunk
read-chunk c more k =
    ap (λ r. if_ready (sized r))
      (read_size-line [] c.size_line more (omega (arith, k.short)) k.plain)
    ∙ ap if_ready (sized-chunk c more k)
    ∙ sym (read-in_chunk more (length c.bytes) k.some_byte)

read_all-chunk :
    (line bytes more : List ℕ) (fuel : ℕ)
    → IsChunk (record { size_line = line; bytes = bytes })
    → read_all (fuel_for bytes fuel) (at_chunk (line ++ (13 ∷ 10 ∷ (bytes ++ (13 ∷ 10 ∷ more)))))
      ≡ after bytes (read_all fuel (at_chunk more))
unfolding read_all
read_all-chunk line [] more fuel k = absurd (omega (arith, k.some_byte))
read_all-chunk line (b ∷ bs) more fuel k =
    ap (and_more (read_all (fuel_for bs fuel)))
      (read-chunk (record { size_line = line; bytes = b ∷ bs }) (b ∷ bs ++ (13 ∷ 10 ∷ more)) k)
    ∙ read_all-bytes b bs more fuel

fuel_for-append :
    (xs ys : List ℕ) (fuel : ℕ) → fuel_for (xs ++ ys) fuel ≡ fuel_for xs (fuel_for ys fuel)
fuel_for-append [] ys fuel = refl
fuel_for-append (x ∷ xs) ys fuel = ap suc (fuel_for-append xs ys fuel)

fuel_for-length : (xs : List ℕ) (fuel : ℕ) → fuel_for xs fuel ≡ length xs + fuel
fuel_for-length [] fuel = omega arith
fuel_for-length (x ∷ xs) fuel = omega (arith, fuel_for-length xs fuel)

abbrev pub ended : List ℕ → Decoder
ended bs = record { client = bs; remaining = 0; done = true }

read_all-encode :
    (cs : List Chunk) (more : List ℕ) (fuel : ℕ)
    → All IsChunk cs
    → read_all (fuel_for (body cs) (suc fuel)) (at_chunk (encode cs more)) ≡ (body cs, ended more)
unfolding read_all read ensure_chunk strtol after_prefix hex_value read_size
read_all-encode [] more fuel k = refl
read_all-encode (c ∷ cs) more fuel k = rw (fuel_for-append c.bytes (body cs) (suc fuel)) (
    read_all-chunk c.size_line c.bytes (encode cs more) (fuel_for (body cs) (suc fuel)) k.0
    ∙ ap (after c.bytes) (read_all-encode cs more fuel k.1))

-- A response that is sent in chunks, each with a size line of at most eleven bytes, none of them a CR,
-- that says how many bytes follow, at least one, and that is ended by a chunk of the size 0: a consumer
-- that reads more often than the body has bytes gets just the body, then the end of the stream, and all
-- that the connection has left is what stands after the last chunk.
pub read_all-gives_body :
    (cs : List Chunk) (more : List ℕ) (fuel : ℕ)
    → All IsChunk cs
    → length (body cs) < fuel
    → read_all fuel (at_chunk (encode cs more)) ≡ (body cs, ended more)
read_all-gives_body cs more fuel k h =
    ap (λ n. read_all n (at_chunk (encode cs more))) enough ∙ read_all-encode cs more spare k
  where
    spare : ℕ
    spare = fuel - (length (body cs) + 1)

    enough : fuel ≡ fuel_for (body cs) (suc spare)
    enough = omega (arith, h, fuel_for-length (body cs) (suc spare))
