-- ===== src/Examples/Chunks.antt =====
-- A response of two chunks, the second with an extension after its size.
use bustaferl.Prelude.{◌≡◌, refl, [], ◌∷◌, arith}
use bustaferl.Chunked.{hex_value, after_prefix, strtol, read_all}
use bustaferl.Chunked.Decode.{Chunk, IsChunk, encode, body, at_chunk, ended, read_all-gives_body}

-- The size lines are "3" and "a;x".
abbrev three : Chunk
three = record { size_line = 51 ∷ []; bytes = 7 ∷ 13 ∷ 10 ∷ [] }

abbrev ten : Chunk
ten = record { size_line = 97 ∷ 59 ∷ 120 ∷ []; bytes = 0 ∷ 1 ∷ 2 ∷ 3 ∷ 4 ∷ 5 ∷ 6 ∷ 7 ∷ 8 ∷ 9 ∷ [] }

three-IsChunk : IsChunk three
unfolding strtol after_prefix hex_value
three-IsChunk = record {
  short = omega arith;
  plain = (refl, tt);
  value = refl;
  some_byte = omega arith;
}

ten-IsChunk : IsChunk ten
unfolding strtol after_prefix hex_value
ten-IsChunk = record {
  short = omega arith;
  plain = (refl, (refl, (refl, tt)));
  value = refl;
  some_byte = omega arith;
}

read_all-gives_body_example :
    read_all 20 (at_chunk (encode (three ∷ ten ∷ []) (1 ∷ [])))
    ≡ (body (three ∷ ten ∷ []), ended (1 ∷ []))
read_all-gives_body_example =
    read_all-gives_body (three ∷ ten ∷ []) (1 ∷ []) 20 (three-IsChunk, (ten-IsChunk, tt))
      (omega arith)
