-- ===== src/Render/Gauge/Ink.antt =====
-- The pixels of the gauge: its bar between the lines of the scale.
use bustaferl.Prelude.{
  ℕ, zero, suc, ◌+◌, ◌*◌, ◌≡◌, ◌↔◌, refl, sym, subst, ap, ◌∙◌, Bool, true, false, [], ◌∷◌, ◌++◌,
  arith, ltb, ◌==◌, if◌then◌else◌, Any, inl, inr, ◌⊎◌, ◌<◌,
}
use bustaferl.Prelude.Int.{
  ℤ, pos, negsuc, pos_part, neg_part, ◌+ℤ◌, ◌-ℤ◌, ◌*ℤ◌, min_int, abs_int, int_laws, *ℤ_three, ◌≤ℤ◌,
}
use bustaferl.Render.{
  Drawing, Call, fill_rect, draw_fast_h_line, draw_fast_v_line, draw_rect, draw_pixel,
}
use bustaferl.Render.Gauge.{gauge_zero_dy, gauge_down_min, h_tick, minute_tick, minute_ticks, bar}
use bustaferl.Render.Gauge.Shape.{bar_height}

-- The pixel (x, y) lies in the box of `w` by `h` pixels from (l, t) on.
abbrev pub In : ℤ → ℤ → ℤ → ℤ → ℤ → ℤ → Type 0
In l t w h x y = (l ≤ℤ x) × ((t ≤ℤ y) × ((x +ℤ pos 1 ≤ℤ l +ℤ w) × (y +ℤ pos 1 ≤ℤ t +ℤ h)))

-- The call sets the pixel to the colour 1; of an outlined box it sets the border.
abbrev pub Covers : ℤ → ℤ → Call → Type 0
Covers x y (fill_rect l t w h c) = (c ≡ 1) × In l t w h x y
Covers x y (draw_rect l t w h c) =
    (c ≡ 1) × (In l t w h x y × (In (l +ℤ pos 1) (t +ℤ pos 1) (w -ℤ pos 2) (h -ℤ pos 2) x y → ⊥))
Covers x y (draw_fast_h_line l t w c) = (c ≡ 1) × In l t w (pos 1) x y
Covers x y (draw_fast_v_line l t h c) = (c ≡ 1) × In l t (pos 1) h x y
Covers x y (draw_pixel l t c) = (c ≡ 1) × In l t (pos 1) (pos 1) x y
Covers x y _ = ⊥

-- The pixels that a drawing in the colour 1 leaves.
abbrev pub Shows : Drawing → ℤ → ℤ → Type 0
Shows ds x y = Any (Covers x y) ds

abbrev pub LooksLike : Drawing → Drawing → Type 0
LooksLike ds es = (x y : ℤ) → Shows ds x y ↔ Shows es x y

-- The place and the height of the bar.
abbrev bar_with : ℤ → ℤ → ℤ → ℕ → Call
bar_with cx z m h =
    if ltb h 2
    then fill_rect (cx -ℤ pos 2) (z -ℤ pos 1) (pos 5) (pos 2) 1
    else fill_rect (cx -ℤ pos 2) (min_int (z -ℤ m *ℤ pos 3) z) (pos 5) (pos h) 1

bar_lem : (cx z m : ℤ) → bar cx z m ≡ bar_with cx z m (3 * abs_int m)
bar_lem cx z m = ap (bar_with cx z m) (bar_height z m)

min_first : (a b : ℤ) → a ≤ℤ b → min_int a b ≡ a
min_first a b h = ground arith

min_second : (a b : ℤ) → pos_part b + neg_part a < pos_part a + neg_part b → min_int a b ≡ b
min_second a b h = ground arith

min_late : (z : ℤ) (n : ℕ) → min_int (z -ℤ pos n *ℤ pos 3) z ≡ z -ℤ pos n *ℤ pos 3
min_late z n = min_first (z -ℤ pos n *ℤ pos 3) z (omega (int_laws, *ℤ_three (pos n)))

min_early : (z : ℤ) (n : ℕ) → min_int (z -ℤ negsuc n *ℤ pos 3) z ≡ z
min_early z n = min_second (z -ℤ negsuc n *ℤ pos 3) z (omega (int_laws, *ℤ_three (negsuc n)))

bar_none : (cx z : ℤ) → bar cx z (pos 0) ≡ fill_rect (cx -ℤ pos 2) (z -ℤ pos 1) (pos 5) (pos 2) 1
bar_none cx z = bar_lem cx z (pos 0)

tall : (n : ℕ) → ltb (3 * suc n) 2 ≡ false
tall n = ground arith

bar_with_tall :
    (cx z m : ℤ) (h : ℕ)
    → ltb h 2 ≡ false
    → bar_with cx z m h ≡ fill_rect (cx -ℤ pos 2) (min_int (z -ℤ m *ℤ pos 3) z) (pos 5) (pos h) 1
bar_with_tall cx z m h e = rw e refl

bar_late :
    (cx z : ℤ) (n : ℕ)
    → bar cx z (pos (suc n))
      ≡ fill_rect (cx -ℤ pos 2) (z -ℤ pos (suc n) *ℤ pos 3) (pos 5) (pos (3 * suc n)) 1
bar_late cx z n =
    bar_lem cx z (pos (suc n))
    ∙ ap (λ k. bar_with cx z (pos (suc n)) (3 * k)) (omega arith)
    ∙ bar_with_tall cx z (pos (suc n)) (3 * suc n) (tall n)
    ∙ ap (λ y. fill_rect (cx -ℤ pos 2) y (pos 5) (pos (3 * suc n)) 1) (min_late z (suc n))

bar_early :
    (cx z : ℤ) (n : ℕ) → bar cx z (negsuc n) ≡ fill_rect (cx -ℤ pos 2) z (pos 5) (pos (3 * suc n)) 1
bar_early cx z n =
    bar_lem cx z (negsuc n)
    ∙ ap (λ k. bar_with cx z (negsuc n) (3 * k)) (omega arith)
    ∙ bar_with_tall cx z (negsuc n) (3 * suc n) (tall n)
    ∙ ap (λ y. fill_rect (cx -ℤ pos 2) y (pos 5) (pos (3 * suc n)) 1) (min_early z n)

-- The rows of the bar, in its left column.
abbrev pub InBar : ℤ → ℤ → ℤ → Type 0
InBar z (pos zero) y = (z ≤ℤ y +ℤ pos 1) × (y ≤ℤ z)
InBar z (pos (suc n)) y = (z ≤ℤ y +ℤ pos (3 * suc n)) × (y +ℤ pos 1 ≤ℤ z)
InBar z (negsuc n) y = (z ≤ℤ y) × (y +ℤ pos 1 ≤ℤ z +ℤ pos (3 * suc n))

pub bar-InBar : (cx z m y : ℤ) → Covers (cx -ℤ pos 2) y (bar cx z m) ↔ InBar z m y
bar-InBar cx z (pos zero) y =
    subst (λ c. Covers (cx -ℤ pos 2) y c ↔ InBar z (pos zero) y) (sym (bar_none cx z))
      (
        λ h. (omega int_laws, omega int_laws),
        λ h. (refl, (omega int_laws, (omega int_laws, (omega int_laws, omega int_laws)))),
      )
bar-InBar cx z (pos (suc n)) y =
    subst (λ c. Covers (cx -ℤ pos 2) y c ↔ InBar z (pos (suc n)) y) (sym (bar_late cx z n))
      (
        λ h. (omega (int_laws, *ℤ_three (pos (suc n))), omega (int_laws, *ℤ_three (pos (suc n)))),
        λ h. (
          refl,
          (
            omega int_laws,
            (
              omega (int_laws, *ℤ_three (pos (suc n))),
              (omega int_laws, omega (int_laws, *ℤ_three (pos (suc n)))),
            ),
          ),
        ),
      )
bar-InBar cx z (negsuc n) y =
    subst (λ c. Covers (cx -ℤ pos 2) y c ↔ InBar z (negsuc n) y) (sym (bar_early cx z n))
      (
        λ h. (omega int_laws, omega int_laws),
        λ h. (refl, (omega int_laws, (omega int_laws, (omega int_laws, omega int_laws)))),
      )

-- The track and its ticks.
abbrev pub scale : ℤ → ℤ → Drawing
scale cx top =
    draw_fast_v_line cx top (pos 24) 1 ∷ minute_ticks 9 cx (top +ℤ pos gauge_zero_dy) gauge_down_min
    ++ (h_tick cx (top +ℤ pos gauge_zero_dy) 7 true ∷ [])

-- A row between the lines of the scale, in the direction of the minute `k` for a late departure and
-- of `k - 1` for an early one.
abbrev pub row : ℤ → ℤ → ℤ
row z k = z -ℤ k *ℤ pos 3 +ℤ pos 1

pub Shows-append : (ds es : Drawing) (x y : ℤ) → Shows (ds ++ es) x y → Shows ds x y ⊎ Shows es x y
Shows-append [] es x y h = inr h
Shows-append (d ∷ ds) es x y (inl h) = inl (inl h)
Shows-append (d ∷ ds) es x y (inr h) = elim (Shows-append ds es x y h) [
  | inl i ↦ inl (inr i)
  | inr j ↦ inr j
]

pub Shows-second : (ds es : Drawing) (x y : ℤ) → Shows es x y → Shows (ds ++ es) x y
Shows-second [] es x y h = h
Shows-second (d ∷ ds) es x y h = inr (Shows-second ds es x y h)

module _ (cx z x k : ℤ) where
  h_tick-misses :
      (m : ℤ) (w : ℕ) (extend : Bool)
      → Covers x (row z k) (h_tick cx (z -ℤ m *ℤ pos 3) w extend)
      → ⊥
  h_tick-misses m w extend h = omega (int_laws, *ℤ_three m, *ℤ_three k, h)

  if_none-misses :
      (b : Bool) (d : Call)
      → (Covers x (row z k) d → ⊥)
      → Shows (if b then [] else d ∷ []) x (row z k)
      → ⊥
  if_none-misses true d f h = absurd h
  if_none-misses false d f (inl h) = f h
  if_none-misses false d f (inr h) = absurd h

  minute_ticks-misses : (n : ℕ) (mi : ℤ) → Shows (minute_ticks n cx z mi) x (row z k) → ⊥
  minute_ticks-misses zero mi h = absurd h
  minute_ticks-misses (suc n) mi h =
      elim (Shows-append (minute_tick cx z mi) (minute_ticks n cx z (mi +ℤ pos 1)) x (row z k) h) [
        | inl i ↦ if_none-misses (abs_int mi == 0) _ (h_tick-misses mi _ _) i
        | inr j ↦ minute_ticks-misses n (mi +ℤ pos 1) j
      ]

pub scale-misses : (cx top k : ℤ) → Shows (scale cx top) (cx -ℤ pos 2) (row (top +ℤ pos 15) k) → ⊥
scale-misses cx top k (inl h) = omega (int_laws, h)
scale-misses cx top k (inr h) =
    let z = top +ℤ pos 15 in
    elim (Shows-append (minute_ticks 9 cx z gauge_down_min) _ (cx -ℤ pos 2) (row z k) h) [
      | inl i ↦ minute_ticks-misses cx z (cx -ℤ pos 2) k 9 gauge_down_min i
      | inr j ↦ elim j [ inl l ↦ omega (int_laws, *ℤ_three k, l) | inr l ↦ absurd l ]
    ]

pub bar_late_row : (z m k : ℤ) → pos 1 ≤ℤ k → InBar z m (row z k) ↔ (k ≤ℤ m)
bar_late_row z (pos zero) k h =
    (λ i. omega (int_laws, *ℤ_three k, i), λ i. absurd (omega (int_laws, i)))
bar_late_row z (pos (suc n)) k h = (
  λ i. omega (int_laws, *ℤ_three k, i),
  λ i. (omega (int_laws, *ℤ_three k), omega (int_laws, *ℤ_three k)),
)
bar_late_row z (negsuc n) k h =
    (λ i. omega (int_laws, *ℤ_three k, i), λ i. absurd (omega (int_laws, i)))

pub bar_early_row : (z m k : ℤ) → k ≤ℤ pos 0 → InBar z m (row z k) ↔ (m +ℤ pos 1 ≤ℤ k)
bar_early_row z (pos zero) k h =
    (λ i. omega (int_laws, *ℤ_three k, i), λ i. absurd (omega (int_laws, i)))
bar_early_row z (pos (suc n)) k h =
    (λ i. omega (int_laws, *ℤ_three k, i), λ i. absurd (omega (int_laws, i)))
bar_early_row z (negsuc n) k h = (
  λ i. omega (int_laws, *ℤ_three k, i),
  λ i. (omega (int_laws, *ℤ_three k), omega (int_laws, *ℤ_three k)),
)
