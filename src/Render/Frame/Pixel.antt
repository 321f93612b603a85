-- ===== src/Render/Frame/Pixel.antt =====
-- What is read after a pixel is set.
use bustaferl.Prelude.{
  both, ℕ, zero, suc, ◌+◌, ◌*◌, ◌/◌, ◌%◌, ◌<◌, ◌≡◌, ◌≢◌, refl, sym, ap, ◌∙◌, subst, Bool, true,
  false, List, [], ◌∷◌, arith, ◌==◌, ==_iff, ◌&&◌, ◌||◌, not, if◌then◌else◌, length, get_or, set,
  Bool-cases, inl, inr, length-set,
}
use bustaferl.Prelude.Int.{ℤ, pos, negsuc, same_int, same_int_sound}
use bustaferl.Render.Frame.{
  FrameBuffer, out_of, number, byte_at, mask_of, put_bit, has_bit, set_pixel, get_pixel,
}
use bustaferl.Render.Frame.Bit.{
  put_bit-lt, has_bit-put_bit, get_or-set_self, get_or-set_ne, get_or-lt, row_after, same_place,
  AreBytes,
}

hit :
    (white : Bool) (buf : List ℕ) (p k l : ℕ)
    → p < length buf
    → AreBytes buf
    → k < 8
    → l < 8
    → has_bit (get_or (set buf p (put_bit (get_or buf p 0) (mask_of k) white)) p 0) (mask_of l)
      ≡ (if k == l then white else has_bit (get_or buf p 0) (mask_of l))
hit white buf p k l h bytes a b =
    ap (λ byte. has_bit byte (mask_of l)) (get_or-set_self buf p _ 0 h)
    ∙ has_bit-put_bit white (get_or buf p 0) k l (get_or-lt buf p bytes) a b

pub true_not_false : true ≡ false → ⊥
true_not_false e = cc

-- Two tests agree that imply each other.
pub test_ext : (a b : Bool) → (a ≡ true → b ≡ true) → (b ≡ true → a ≡ true) → a ≡ b
test_ext true b f g = sym (f refl)
test_ext false true f g = g refl
test_ext false false f g = refl

both_eq : (i n j m : ℕ) → ((i == n) && (j == m)) ≡ true → (i ≡ n) × (j ≡ m)
both_eq i n j m h = (ground arith, ground arith)

eq_both : (i n j m : ℕ) → i ≡ n → j ≡ m → ((i == n) && (j == m)) ≡ true
eq_both i n j m a b = ground arith

same_bit :
    (s n m i j : ℕ)
    → n < s * 8
    → i < s * 8
    → m * s + n / 8 ≡ j * s + i / 8
    → (n % 8 == i % 8) ≡ ((i == n) && (j == m))
same_bit s n m i j p q e =
    test_ext (n % 8 == i % 8) ((i == n) && (j == m))
      (λ k.
        let r = same_place s n m i j p q e ((==_iff (n % 8) (i % 8)).0 k) in
        eq_both i n j m (sym r.0) (sym r.1))
      (λ k. let r = both_eq i n j m k in (==_iff (n % 8) (i % 8)).1 (ap (λ t. t % 8) (sym r.0)))

not_same : (a b : ℕ) → (a == b) ≡ false → a ≢ b
not_same a b e k = ground arith

byte_inside : (s h n m size : ℕ) → n < s * 8 → m < h → size ≡ s * h → m * s + n / 8 < size
byte_inside s h n m size p q e =
    let row = row_after s m h q in
    let col : n / 8 < s = omega arith in
    let total : h * s ≡ s * h = grind arith in omega (arith, row, col, total, e)

other_bit :
    (s n m i j : ℕ) → (m * s + n / 8 == j * s + i / 8) ≡ false → ((i == n) && (j == m)) ≡ false
other_bit s n m i j e = elim (Bool-cases ((i == n) && (j == m))) [
  | inl k ↦
      let r = both_eq i n j m k in
      absurd
        (not_same _ _ e (ap (λ t. t * s + n / 8) (sym r.1) ∙ ap (λ t. j * s + t / 8) (sym r.0)))
  | inr k ↦ k
]

-- What a pixel inside is, after a pixel inside was set.
bit_after :
    (s h n m i j : ℕ) (white : Bool) (buf : List ℕ)
    → n < s * 8
    → i < s * 8
    → m < h
    → length buf ≡ s * h
    → AreBytes buf
    → has_bit
        (get_or
          (set buf (m * s + n / 8) (put_bit (get_or buf (m * s + n / 8) 0) (mask_of (n % 8)) white))
          (j * s + i / 8)
          0)
        (mask_of (i % 8))
      ≡ (if (i == n) && (j == m)
          then white
          else has_bit (get_or buf (j * s + i / 8) 0) (mask_of (i % 8)))
bit_after s h n m i j white buf p r q size bytes =
    let at = m * s + n / 8 in
    let new = put_bit (get_or buf at 0) (mask_of (n % 8)) white in
    let old = has_bit (get_or buf (j * s + i / 8) 0) (mask_of (i % 8)) in
    elim (Bool-cases (at == j * s + i / 8)) [
      | inl e ↦
          let same = (==_iff at (j * s + i / 8)).0 e in
          subst
            (λ q.
              has_bit (get_or (set buf at new) q 0) (mask_of (i % 8))
              ≡ (if n % 8 == i % 8 then white else has_bit (get_or buf q 0) (mask_of (i % 8))))
            same
            (hit white buf at (n % 8) (i % 8) (byte_inside s h n m (length buf) p q size) bytes
              (omega arith) (omega arith))
          ∙ ap (λ t. if t then white else old) (same_bit s n m i j p r same)
      | inr e ↦
          ap (λ b. has_bit b (mask_of (i % 8)))
            (get_or-set_ne buf at (j * s + i / 8) new 0 (not_same at (j * s + i / 8) e))
          ∙ sym (ap (λ t. if t then white else old) (other_bit s n m i j e))
    ]

eight : (s : ℕ) → s * 8 / 8 ≡ s
eight s = omega arith

pub out_same :
    (w h : ℕ) (x y u v : ℤ)
    → (same_int u x && same_int v y) ≡ true
    → (out_of w u || out_of h v) ≡ (out_of w x || out_of h y)
out_same w h x y u v e =
    ap (λ t. out_of w t || out_of h v) (same_int_sound u x (ground arith))
    ∙ ap (λ t. out_of w x || out_of h t) (same_int_sound v y (ground arith))

pub not_there :
    (w h : ℕ) (x y u v : ℤ)
    → (out_of w x || out_of h y) ≡ false
    → (out_of w u || out_of h v) ≡ true
    → (same_int u x && same_int v y) ≡ false
not_there w h x y u v e f = elim (Bool-cases (same_int u x && same_int v y)) [
  | inl k ↦ absurd (true_not_false (sym f ∙ out_same w h x y u v k ∙ e))
  | inr k ↦ k
]

-- After a pixel is set, every place of the frame or outside of it reads as before, but the pixel itself,
-- if it is inside, has the colour; the width is a multiple of eight.
pub get_pixel-set_pixel :
    (s h : ℕ) (x y u v : ℤ) (white : Bool) (buf : FrameBuffer)
    → length buf ≡ s * h
    → AreBytes buf
    → get_pixel (s * 8) h (set_pixel (s * 8) h x y white buf) u v ≡ (
        if not (out_of (s * 8) x || out_of h y) && (same_int u x && same_int v y)
        then white
        else get_pixel (s * 8) h buf u v)
unfolding get_pixel set_pixel
get_pixel-set_pixel s h x y u v white buf size bytes =
    elim (Bool-cases (out_of (s * 8) x || out_of h y)) [
      | inl e ↦ rw (e, set_pixel) refl
      | inr e ↦ elim (Bool-cases (out_of (s * 8) u || out_of h v)) [
        | inl f ↦ rw (e, f, not_there (s * 8) h x y u v e f, get_pixel, set_pixel) refl
        | inr f ↦ rw (e, f, set_pixel, get_pixel) (inside x y u v e f)
      ]
    ]
  where
    inside :
        (x y u v : ℤ)
        → (out_of (s * 8) x || out_of h y) ≡ false
        → (out_of (s * 8) u || out_of h v) ≡ false
        → has_bit
            (get_or
              (set buf
                (byte_at (s * 8) x y)
                (put_bit (get_or buf (byte_at (s * 8) x y) 0) (mask_of (number x % 8)) white))
              (byte_at (s * 8) u v)
              0)
            (mask_of (number u % 8))
          ≡ (if same_int u x && same_int v y
              then white
              else has_bit (get_or buf (byte_at (s * 8) u v) 0) (mask_of (number u % 8)))
    inside (pos n) (pos m) (pos i) (pos j) e f =
        rw (eight s)
          (bit_after s h n m i j white buf (ground arith) (ground arith) (ground arith) size bytes)
    inside (negsuc n) y u v e f = absurd (true_not_false e)
    inside (pos n) (negsuc m) u v e f = absurd (ground arith)
    inside (pos n) (pos m) (negsuc i) v e f = absurd (true_not_false f)
    inside (pos n) (pos m) (pos i) (negsuc j) e f = absurd (ground arith)

-- Size and bytes of a frame.
pub record IsFrame (s h : ℕ) (buf : FrameBuffer) : Type 0 where
  pub size : length buf ≡ s * h
  pub bytes : AreBytes buf

AreBytes-set : (buf : List ℕ) (i v : ℕ) → v < 256 → AreBytes buf → AreBytes (set buf i v)
AreBytes-set [] i v h k = tt
AreBytes-set (b ∷ bs) zero v h k = (h, k.1)
AreBytes-set (b ∷ bs) (suc i) v h k = (k.0, AreBytes-set bs i v h k.1)

pub set_pixel-IsFrame :
    (s h : ℕ) (x y : ℤ) (white : Bool) (buf : FrameBuffer)
    → IsFrame s h buf
    → IsFrame s h (set_pixel (s * 8) h x y white buf)
unfolding set_pixel
set_pixel-IsFrame s h x y white buf f =
    both (IsFrame s h) (out_of (s * 8) x || out_of h y) _ _ f (record {
      size = length-set buf (byte_at (s * 8) x y) _ ∙ f.size;
      bytes =
          AreBytes-set buf (byte_at (s * 8) x y) _
            (put_bit-lt white (get_or buf (byte_at (s * 8) x y) 0) (number x % 8)
              (get_or-lt buf (byte_at (s * 8) x y) f.bytes) (omega arith))
            f.bytes;
    })
