-- ===== src/Render/Gauge/Shape.antt =====
-- What the shape of the gauge tells, and where it is drawn.
use bustaferl.Prelude.{
  ℕ, zero, suc, ◌+◌, ◌*◌, ◌%◌, ◌≤◌, ◌≡◌, ap, ◌∙◌, Bool, true, false, [], ◌∷◌, ◌++◌, arith, ltb,
  ◌==◌, ◌||◌, if◌then◌else◌, All, Any, inl, inr, both,
}
use bustaferl.Prelude.Int.{
  ℤ, pos, negsuc, pos_part, neg_part, ◌+ℤ◌, ◌-ℤ◌, ◌*ℤ◌, ltb_int, same_int, min_int, abs_int, ◌≤ℤ◌,
  int_laws, *ℤ_three, one_sign,
}
use bustaferl.Data.{Departure}
use bustaferl.Render.{
  Drawing, Call, fill_rect, draw_fast_h_line, draw_fast_v_line, draw_rect, draw_pixel,
}
use bustaferl.Render.Gauge.{
  gauge_zero_dy, gauge_up_min, gauge_down_min, h_tick, minute_tick, minute_ticks, clamped, bar,
  overflow, live_mark, draw_deviation_gauge, draw_plan_mark, has_deviation, deviation_minutes,
}

-- The deviation that is shown is the nearest whole minute to the difference of the live and the
-- scheduled time.
pub deviation_minutes-nearest :
    (d : Departure)
    → has_deviation d ≡ true
    → (60 * pos_part (deviation_minutes d) + d.planned
        ≤ 60 * neg_part (deviation_minutes d) + d.when + 30)
      × (60 * neg_part (deviation_minutes d) + d.when
          ≤ 60 * pos_part (deviation_minutes d) + d.planned + 30)
unfolding deviation_minutes
deviation_minutes-nearest d h = rw (h, deviation_minutes) (ground arith, ground arith)

-- The pixels of a call lie in the box from (l, t) to (r, b), which it does not reach.
abbrev pub InBox : ℤ → ℤ → ℤ → ℤ → Call → Type 0
InBox l t r b (fill_rect x y w h c) = (l ≤ℤ x) × ((t ≤ℤ y) × ((x +ℤ w ≤ℤ r) × (y +ℤ h ≤ℤ b)))
InBox l t r b (draw_rect x y w h c) = (l ≤ℤ x) × ((t ≤ℤ y) × ((x +ℤ w ≤ℤ r) × (y +ℤ h ≤ℤ b)))
InBox l t r b (draw_fast_h_line x y w c) =
    (l ≤ℤ x) × ((t ≤ℤ y) × ((x +ℤ w ≤ℤ r) × (y +ℤ pos 1 ≤ℤ b)))
InBox l t r b (draw_fast_v_line x y h c) =
    (l ≤ℤ x) × ((t ≤ℤ y) × ((x +ℤ pos 1 ≤ℤ r) × (y +ℤ h ≤ℤ b)))
InBox l t r b (draw_pixel x y c) = (l ≤ℤ x) × ((t ≤ℤ y) × ((x +ℤ pos 1 ≤ℤ r) × (y +ℤ pos 1 ≤ℤ b)))
InBox l t r b _ = ⊥

-- A number of minutes within the track.
abbrev InRange : ℤ → Type 0
InRange m = (neg_part m ≤ 3) × (pos_part m ≤ 5)

clamped-InRange : (dev : ℤ) → InRange (clamped dev)
clamped-InRange dev = (ground arith, ground arith)

back : (z a : ℤ) → z -ℤ (z -ℤ a) ≡ a
back z a = omega int_laws

pub bar_height : (z m : ℤ) → abs_int (z -ℤ (z -ℤ m *ℤ pos 3)) ≡ 3 * abs_int m
bar_height z m = ap abs_int (back z (m *ℤ pos 3)) ∙ omega (arith, *ℤ_three m)

min_int-le : (a b : ℤ) → (min_int a b ≤ℤ a) × (min_int a b ≤ℤ b)
min_int-le a b = (ground arith, ground arith)

min_int-ge : (t a b : ℤ) → t ≤ℤ a → t ≤ℤ b → t ≤ℤ min_int a b
min_int-ge t a b h k = both (λ m. t ≤ℤ m) (ltb_int b a) b a k h

module _ (cx top : ℤ) where
  abbrev Near : Call → Type 0
  Near = InBox (cx -ℤ pos 3) (top -ℤ pos 2) (cx +ℤ pos 5) (top +ℤ pos 26)

  abbrev zero_y : ℤ
  zero_y = top +ℤ pos gauge_zero_dy

  h_tick-Near :
      (y : ℤ) (w : ℕ) (extend : Bool)
      → w ≤ 7
      → top ≤ℤ y
      → y ≤ℤ top +ℤ pos 24
      → Near (h_tick cx y w extend)
  h_tick-Near y w true a b c = (omega int_laws, (omega int_laws, (omega int_laws, omega int_laws)))
  h_tick-Near y w false a b c = (omega int_laws, (omega int_laws, (omega int_laws, omega int_laws)))

  tick_y :
      (m : ℤ) → InRange m → (top ≤ℤ zero_y -ℤ m *ℤ pos 3) × (zero_y -ℤ m *ℤ pos 3 ≤ℤ top +ℤ pos 24)
  tick_y m h = (omega (int_laws, *ℤ_three m, h.0, h.1), omega (int_laws, *ℤ_three m, h.0, h.1))

  minute_tick-Near : (m : ℤ) → InRange m → All Near (minute_tick cx zero_y m)
  minute_tick-Near m h = both (All Near) (abs_int m == 0) _ _ tt (
    h_tick-Near (zero_y -ℤ m *ℤ pos 3) (if abs_int m % 5 == 0 then 5 else 3)
        (same_int m gauge_up_min || same_int m gauge_down_min) (ground arith) (tick_y m h).0
        (tick_y m h).1,
    tt,
  )

  All-append : (xs ys : Drawing) → All Near xs → All Near ys → All Near (xs ++ ys)
  All-append [] ys h k = k
  All-append (x ∷ xs) ys h k = (h.0, All-append xs ys h.1 k)

  minute_ticks-Near :
      (n : ℕ) (m : ℤ)
      → gauge_down_min ≤ℤ m
      → pos_part m + n ≤ 6 + neg_part m
      → All Near (minute_ticks n cx zero_y m)
  minute_ticks-Near zero m h k = tt
  minute_ticks-Near (suc n) m h k =
      All-append (minute_tick cx zero_y m) _ (minute_tick-Near m (in_range m h (omega arith)))
        (minute_ticks-Near n (m +ℤ pos 1) (omega int_laws) (omega int_laws))
    where
      in_range : (m : ℤ) → gauge_down_min ≤ℤ m → pos_part m ≤ 5 + neg_part m → InRange m
      in_range (pos a) h k = (omega arith, omega arith)
      in_range (negsuc a) h k = (omega arith, omega arith)

  bar-Near : (m : ℤ) → InRange m → Near (bar cx zero_y m)
  bar-Near m h =
      let end_y = zero_y -ℤ m *ℤ pos 3 in
      let high = bar_height zero_y m in
      let ends = tick_y m h in
      let low = min_int-le end_y zero_y in
      both Near (ltb (abs_int (zero_y -ℤ end_y)) 2) _ _
        (omega int_laws, (omega int_laws, (omega int_laws, omega int_laws)))
        (
          omega int_laws,
          (
            min_int-ge (top -ℤ pos 2) end_y zero_y (omega (int_laws, ends.0)) (omega int_laws),
            (omega int_laws, omega (int_laws, high, low, *ℤ_three m, h.0, h.1, one_sign m)),
          ),
        )

  overflow-Near : (dev : ℤ) → All Near (overflow cx top dev)
  overflow-Near dev =
      both (All Near) (ltb_int gauge_up_min dev) _ _
        ((omega int_laws, (omega int_laws, (omega int_laws, omega int_laws))), tt)
        (both (All Near) (ltb_int dev gauge_down_min) _ _
          ((omega int_laws, (omega int_laws, (omega int_laws, omega int_laws))), tt) tt)

pub draw_deviation_gauge-Near :
    (cx top : ℤ) (has_dev : Bool) (dev_min : ℤ)
    → All
        (InBox (cx -ℤ pos 3) (top -ℤ pos 2) (cx +ℤ pos 5) (top +ℤ pos 26))
        (draw_deviation_gauge cx top has_dev dev_min)
unfolding draw_deviation_gauge
draw_deviation_gauge-Near cx top has_dev dev_min =
    let z = top +ℤ pos gauge_zero_dy in
    (
      (omega int_laws, (omega int_laws, (omega int_laws, omega int_laws))),
      All-append cx top (minute_ticks 9 cx z gauge_down_min)
          (h_tick cx z 7 true ∷ live_mark cx top z has_dev dev_min)
          (minute_ticks-Near cx top 9 gauge_down_min (omega arith) (omega arith))
          (
            h_tick-Near cx top z 7 true (omega arith) (omega int_laws) (omega int_laws),
            both (All (Near cx top)) has_dev _ _
                (
                  bar-Near cx top (clamped dev_min) (clamped-InRange dev_min),
                  overflow-Near cx top dev_min,
                )
                ((omega int_laws, (omega int_laws, (omega int_laws, omega int_laws))), tt),
          ),
    )

-- The column behind a horizontal line.
abbrev pub EndsAt : ℤ → Call → Type 0
EndsAt r (draw_fast_h_line x y w c) = x +ℤ w ≡ r
EndsAt r _ = ⊥

Any-append : (r : ℤ) (xs ys : Drawing) → Any (EndsAt r) ys → Any (EndsAt r) (xs ++ ys)
Any-append r [] ys h = h
Any-append r (x ∷ xs) ys h = inr (Any-append r xs ys h)

-- Wherever it is put and whatever it shows, the gauge draws from 3 pixels left of its track to 4 right of
-- it, and from 2 above its top to 2 below its end; and one of its lines does end in the fourth column to
-- the right.
pub draw_deviation_gauge_extent :
    (cx top : ℤ) (has_dev : Bool) (dev_min : ℤ)
    → All
        (InBox (cx -ℤ pos 3) (top -ℤ pos 2) (cx +ℤ pos 5) (top +ℤ pos 26))
        (draw_deviation_gauge cx top has_dev dev_min)
      × Any (EndsAt (cx +ℤ pos 5)) (draw_deviation_gauge cx top has_dev dev_min)
unfolding draw_deviation_gauge
draw_deviation_gauge_extent cx top has_dev dev_min =
    let z = top +ℤ pos gauge_zero_dy in
    (
      draw_deviation_gauge-Near cx top has_dev dev_min,
      inr (
          Any-append (cx +ℤ pos 5) (minute_ticks 9 cx z gauge_down_min)
            (h_tick cx z 7 true ∷ live_mark cx top z has_dev dev_min) (inl (omega int_laws))),
    )

-- The ring keeps to its square of 5 by 5 pixels.
pub draw_plan_mark-InBox :
    (x y : ℤ) → All (InBox x y (x +ℤ pos 5) (y +ℤ pos 5)) (draw_plan_mark x y)
unfolding draw_plan_mark
draw_plan_mark-InBox x y = (
  (omega int_laws, (omega int_laws, (omega int_laws, omega int_laws))),
  (
    (omega int_laws, (omega int_laws, (omega int_laws, omega int_laws))),
    (
      (omega int_laws, (omega int_laws, (omega int_laws, omega int_laws))),
      ((omega int_laws, (omega int_laws, (omega int_laws, omega int_laws))), tt),
    ),
  ),
)
