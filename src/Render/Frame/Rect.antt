-- ===== src/Render/Frame/Rect.antt =====
-- What a filled rectangle shows.
use bustaferl.Prelude.{
  ℕ, zero, suc, ◌+◌, ◌*◌, ◌≡◌, refl, sym, ap, ◌∙◌, Bool, true, false, arith, leb, ltb, ◌&&◌, ◌||◌,
  not, if◌then◌else◌,
}
use bustaferl.Prelude.Int.{ℤ, pos, ◌+ℤ◌, pos_part, neg_part, same_int}
use bustaferl.Render.Frame.{FrameBuffer, out_of, number, get_pixel, fill_row, fill_rows, fill_rect}
use bustaferl.Render.Frame.Pixel.{IsFrame, set_pixel-IsFrame, get_pixel-set_pixel, out_same}

-- x ≤ u < x + n
abbrev pub in_span : ℤ → ℕ → ℤ → Bool
in_span x n u =
    leb (pos_part x + neg_part u) (pos_part u + neg_part x)
    && ltb (pos_part u + neg_part x) (pos_part x + neg_part u + n)

in_span_next : (x u : ℤ) (n : ℕ) → (same_int u x || in_span (x +ℤ pos 1) n u) ≡ in_span x (suc n) u
unfolding ◌+ℤ◌
in_span_next x u n = ground arith

in_span_none : (x u : ℤ) → in_span x 0 u ≡ false
in_span_none x u = ground arith

abbrev inside : ℕ → ℕ → ℤ → ℤ → Bool
inside s h u v = not (out_of (s * 8) u || out_of h v)

-- A pixel and the rest of its row, or a row and the rest of the rectangle.
merge :
    (a b d e i : Bool) (c g : Bool)
    → ((e && b) ≡ true → i ≡ a)
    → (if a && (d && b) then c else if i && (e && b) then c else g)
      ≡ (if a && ((e || d) && b) then c else g)
merge true true d true i c g h = rw (h refl) (ground arith)
merge true true d false i c g h = ground arith
merge true false d e i c g h = ground arith
merge false true d true i c g h = rw (h refl) (ground arith)
merge false true d false i c g h = ground arith
merge false false d e i c g h = ground arith

fill_row-IsFrame :
    (s h n : ℕ) (x y : ℤ) (white : Bool) (buf : FrameBuffer)
    → IsFrame s h buf
    → IsFrame s h (fill_row (s * 8) h n x y white buf)
unfolding fill_row
fill_row-IsFrame s h zero x y white buf f = f
fill_row-IsFrame s h (suc n) x y white buf f =
    fill_row-IsFrame s h n (x +ℤ pos 1) y white _ (set_pixel-IsFrame s h x y white buf f)

get_pixel-fill_row :
    (s h n : ℕ) (x y u v : ℤ) (white : Bool) (buf : FrameBuffer)
    → IsFrame s h buf
    → get_pixel (s * 8) h (fill_row (s * 8) h n x y white buf) u v ≡ (
        if inside s h u v && (in_span x n u && same_int v y)
        then white
        else get_pixel (s * 8) h buf u v)
unfolding fill_row
get_pixel-fill_row s h zero x y u v white buf f = rw (in_span_none x u) (ground arith)
get_pixel-fill_row s h (suc n) x y u v white buf f =
    get_pixel-fill_row s h n (x +ℤ pos 1) y u v white _ (set_pixel-IsFrame s h x y white buf f)
    ∙ rw (get_pixel-set_pixel s h x y u v white buf f.size f.bytes, sym (in_span_next x u n))
        (merge (inside s h u v) (same_int v y) (in_span (x +ℤ pos 1) n u) (same_int u x)
          (inside s h x y) white (get_pixel (s * 8) h buf u v)
          (λ e. ap not (sym (out_same (s * 8) h x y u v e))))

and_comm : (a b : Bool) → (a && b) ≡ (b && a)
and_comm a b = ground arith

get_pixel-fill_rows :
    (s h cols n : ℕ) (x y u v : ℤ) (white : Bool) (buf : FrameBuffer)
    → IsFrame s h buf
    → get_pixel (s * 8) h (fill_rows (s * 8) h cols n x y white buf) u v ≡ (
        if inside s h u v && (in_span y n v && in_span x cols u)
        then white
        else get_pixel (s * 8) h buf u v)
unfolding fill_rows
get_pixel-fill_rows s h cols zero x y u v white buf f = rw (in_span_none y v) (ground arith)
get_pixel-fill_rows s h cols (suc n) x y u v white buf f =
    get_pixel-fill_rows s h cols n x (y +ℤ pos 1) u v white _
      (fill_row-IsFrame s h cols x y white buf f)
    ∙ rw
        (
          get_pixel-fill_row s h cols x y u v white buf f,
          and_comm (in_span x cols u) (same_int v y),
          sym (in_span_next y v n),
        )
        (merge (inside s h u v) (in_span x cols u) (in_span (y +ℤ pos 1) n v) (same_int v y)
          (inside s h u v) white (get_pixel (s * 8) h buf u v) (λ e. refl))

-- After a rectangle is filled, the places of the frame inside of it have the colour, and all others read
-- as before; a rectangle of a negative width or height is empty, and the frame's width is a multiple of
-- eight.
pub get_pixel-fill_rect :
    (s h : ℕ) (x y cols rows u v : ℤ) (white : Bool) (buf : FrameBuffer)
    → IsFrame s h buf
    → get_pixel (s * 8) h (fill_rect (s * 8) h x y cols rows white buf) u v ≡ (
        if inside s h u v && (in_span y (number rows) v && in_span x (number cols) u)
        then white
        else get_pixel (s * 8) h buf u v)
unfolding fill_rect
get_pixel-fill_rect s h x y cols rows u v white buf f =
    get_pixel-fill_rows s h (number cols) (number rows) x y u v white buf f
