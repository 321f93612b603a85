-- ===== src/Render/Lines.antt =====
-- The lines of the screens and their buffers.
use bustaferl.Prelude.{
  ℕ, zero, suc, ◌+◌, ◌-◌, ◌≤◌, ◌<◌, ◌≡◌, refl, sym, ap, ◌∙◌, List, [], ◌∷◌, ◌++◌, arith, ltb,
  ltb→lt, length, length-append, Bool-cases, inl, inr,
}
use bustaferl.Parse.{Text, key}
use bustaferl.Ssid.{SsidCaseMismatch, copy_text}
use bustaferl.Render.Screens.{sub_buf_cap, wanted_more, wanted_line, mismatch_text, mismatch_line}

minus_zero : (n : ℕ) → n - 0 ≡ n
minus_zero n = omega arith

minus_suc : (n m : ℕ) → suc n - suc m ≡ n - m
minus_suc n m = omega arith

-- A text that has room goes on with what is printed behind it.
copy_text-append :
    (n : ℕ) (xs ys : Text)
    → length xs < n
    → copy_text n xs ++ copy_text (n - length xs) ys ≡ copy_text n (xs ++ ys)
unfolding copy_text
copy_text-append zero xs ys h = absurd (omega arith)
copy_text-append (suc zero) [] ys h = refl
copy_text-append (suc zero) (c ∷ xs) ys h = absurd (omega arith)
copy_text-append (suc (suc n)) [] ys h = ap (λ k. copy_text k ys) (minus_zero (suc (suc n)))
copy_text-append (suc (suc n)) (c ∷ xs) ys h =
    ap (λ zs. c ∷ zs)
      (ap (λ k. copy_text (suc n) xs ++ copy_text k ys) (minus_suc (suc n) (length xs))
        ∙ copy_text-append (suc n) xs ys (omega arith))

-- A text that fills its buffer hides what follows.
copy_text-full :
    (n : ℕ) (xs ys : Text) → n ≤ length xs + 1 → copy_text n xs ≡ copy_text n (xs ++ ys)
unfolding copy_text
copy_text-full zero xs ys h = refl
copy_text-full (suc zero) xs ys h = refl
copy_text-full (suc (suc n)) [] ys h = absurd (omega arith)
copy_text-full (suc (suc n)) (c ∷ xs) ys h =
    ap (λ zs. c ∷ zs) (copy_text-full (suc n) xs ys (omega arith))

-- A text that is shorter than its buffer is printed whole.
copy_text-whole : (n : ℕ) (xs : Text) → length xs < n → copy_text n xs ≡ xs
unfolding copy_text
copy_text-whole zero xs h = absurd (omega arith)
copy_text-whole (suc zero) [] h = refl
copy_text-whole (suc zero) (c ∷ xs) h = absurd (omega arith)
copy_text-whole (suc (suc n)) [] h = refl
copy_text-whole (suc (suc n)) (c ∷ xs) h =
    ap (λ zs. c ∷ zs) (copy_text-whole (suc n) xs (omega arith))

-- ", b, c" for the networks b and c.
abbrev pub listed : List Text → Text
listed [] = []
listed (w ∷ ws) = (key ", " ++ w) ++ listed ws

append_assoc : (xs ys zs : Text) → (xs ++ ys) ++ zs ≡ xs ++ (ys ++ zs)
append_assoc [] ys zs = refl
append_assoc (x ∷ xs) ys zs = ap (λ cs. x ∷ cs) (append_assoc xs ys zs)

nil_right : (xs : Text) → xs ++ [] ≡ xs
nil_right [] = refl
nil_right (x ∷ xs) = ap (λ cs. x ∷ cs) (nil_right xs)

wanted_more-cut :
    (line : Text) (ws : List Text)
    → wanted_more (length line) (copy_text sub_buf_cap line) ws
      ≡ copy_text sub_buf_cap (line ++ listed ws)
unfolding wanted_more
wanted_more-cut line [] = ap (copy_text sub_buf_cap) (sym (nil_right line))
wanted_more-cut line (w ∷ ws) = elim (Bool-cases (ltb (length line) sub_buf_cap)) [
  | inl e ↦
      let part = key ", " ++ w in
      let h = ltb→lt (length line) sub_buf_cap e in
      rw (e, wanted_more, copy_text-append sub_buf_cap line part h, sym (length-append line part))
        (wanted_more-cut (line ++ part) ws
          ∙ ap (copy_text sub_buf_cap) (append_assoc line part (listed ws)))
  | inr e ↦ rw (e, wanted_more) (copy_text-full sub_buf_cap line (listed (w ∷ ws)) (ground arith))
]

-- However many networks are configured, the line that names them is the whole enumeration, cut at the end
-- of its buffer: the loop writes neither past it nor anything else.
pub wanted_line-cut :
    (first : Text) (more : List Text)
    → wanted_line first more ≡ copy_text sub_buf_cap ((key "gesucht: " ++ first) ++ listed more)
unfolding wanted_line
wanted_line-cut first more = wanted_more-cut (key "gesucht: " ++ first) more

-- The hint at a network of another case shows both names whole, since each has at most 32 bytes.
pub mismatch_line-whole :
    (m : SsidCaseMismatch)
    → length m.configured ≤ 32
    → length m.visible ≤ 32
    → mismatch_line m ≡ mismatch_text m.configured m.visible
mismatch_line-whole m a b =
    copy_text-whole 90 (mismatch_text m.configured m.visible) (fits m.configured m.visible a b)
  where
    fits : (c v : Text) → length c ≤ 32 → length v ≤ 32 → length (mismatch_text c v) < 90
    fits c v a b =
        rw
          (
            length-append c (34 ∷ (key " vs " ++ (34 ∷ (v ++ (34 ∷ []))))),
            length-append v (34 ∷ []),
          )
          (omega arith)
