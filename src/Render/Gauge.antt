-- ===== src/Render/Gauge.antt =====
-- src/render/deviation_gauge.cpp and src/render/plan_marker.cpp: the marks beside a departure's time, and
-- the deviation of src/data/Departure.h.
pub mod Shape
pub mod Ink
pub mod Marks
pub mod Legible
use bustaferl.Prelude.{
  ℕ, zero, suc, ◌+◌, ◌-◌, ◌*◌, ◌/◌, ◌%◌, ◌≤◌, ◌≡◌, refl, Bool, true, false, List, [], ◌∷◌, ◌++◌,
  arith, leb, ltb, ◌==◌, ◌&&◌, ◌||◌, not, if◌then◌else◌,
}
use bustaferl.Prelude.Int.{
  ℤ, pos, negsuc, pos_part, neg_part, sub_ℕ, ◌+ℤ◌, ◌-ℤ◌, ◌*ℤ◌, ltb_int, same_int, min_int, max_int,
  abs_int,
}
use bustaferl.Data.{Departure, DepartureSource, realtime}
use bustaferl.Render.{Drawing, Call, fill_rect, draw_fast_h_line, draw_fast_v_line, draw_rect}

abbrev pub gauge_h : ℕ
gauge_h = 24

abbrev pub gauge_zero_dy : ℕ
gauge_zero_dy = 15

abbrev pub gauge_scale : ℕ
gauge_scale = 3

abbrev pub gauge_up_min : ℤ
gauge_up_min = pos 5

abbrev pub gauge_down_min : ℤ
gauge_down_min = negsuc 2  -- -GAUGE_DOWN_MIN

-- A tick of width `w`, centred, and one pixel longer to the right at the ends and at zero.
abbrev pub h_tick : ℤ → ℤ → ℕ → Bool → Call
h_tick cx y w extend_right =
    draw_fast_h_line (cx -ℤ pos (w / 2)) y (pos (if extend_right then w + 1 else w)) 1

-- The tick of the minute `mi`, if it is not 0.
abbrev pub minute_tick : ℤ → ℤ → ℤ → Drawing
minute_tick cx zero_y mi =
    let w = if abs_int mi % 5 == 0 then 5 else 3 in
    let is_end = same_int mi gauge_up_min || same_int mi gauge_down_min in
    if abs_int mi == 0 then [] else h_tick cx (zero_y -ℤ mi *ℤ pos gauge_scale) w is_end ∷ []

-- for (mi = -GAUGE_DOWN_MIN; mi <= GAUGE_UP_MIN; ++mi)
abbrev pub minute_ticks : ℕ → ℤ → ℤ → ℤ → Drawing
minute_ticks zero cx zero_y mi = []
minute_ticks (suc n) cx zero_y mi =
    minute_tick cx zero_y mi ++ minute_ticks n cx zero_y (mi +ℤ pos 1)

abbrev pub clamped : ℤ → ℤ
clamped dev_min = max_int gauge_down_min (min_int gauge_up_min dev_min)

-- The bar from the zero line to the clamped deviation, never thinner than 2.
abbrev pub bar : ℤ → ℤ → ℤ → Call
bar cx zero_y minutes =
    let end_y = zero_y -ℤ minutes *ℤ pos gauge_scale in
    let bar_h = abs_int (zero_y -ℤ end_y) in
    if ltb bar_h 2
    then fill_rect (cx -ℤ pos 2) (zero_y -ℤ pos 1) (pos 5) (pos 2) 1
    else fill_rect (cx -ℤ pos 2) (min_int end_y zero_y) (pos 5) (pos bar_h) 1

-- The tab past the end of the track.
abbrev pub overflow : ℤ → ℤ → ℤ → Drawing
overflow cx top dev_min =
    if ltb_int gauge_up_min dev_min
    then fill_rect (cx -ℤ pos 3) (top -ℤ pos 2) (pos 7) (pos 2) 1 ∷ []
    else if ltb_int dev_min gauge_down_min
    then fill_rect (cx -ℤ pos 3) (top +ℤ pos gauge_h) (pos 7) (pos 2) 1 ∷ []
    else []

abbrev pub live_mark : ℤ → ℤ → ℤ → Bool → ℤ → Drawing
live_mark cx top zero_y has_dev dev_min =
    if has_dev
    then bar cx zero_y (clamped dev_min) ∷ overflow cx top dev_min
    else draw_rect (cx -ℤ pos 3) (zero_y -ℤ pos 3) (pos 6) (pos 6) 1 ∷ []

unfoldable pub draw_deviation_gauge : ℤ → ℤ → Bool → ℤ → Drawing
unfolding ◌*ℤ◌ ◌+ℤ◌
draw_deviation_gauge cx top has_dev dev_min =
    let zero_y = top +ℤ pos gauge_zero_dy in
    draw_fast_v_line cx top (pos gauge_h) 1 ∷ minute_ticks 9 cx zero_y gauge_down_min
    ++ (h_tick cx zero_y 7 true ∷ live_mark cx top zero_y has_dev dev_min)

-- A hollow ring of 5 by 5 pixels.
unfoldable pub draw_plan_mark : ℤ → ℤ → Drawing
draw_plan_mark x y =
    draw_fast_h_line (x +ℤ pos 1) y (pos 3) 1
    ∷ draw_fast_h_line (x +ℤ pos 1) (y +ℤ pos 4) (pos 3) 1
    ∷ draw_fast_v_line x (y +ℤ pos 1) (pos 3) 1
    ∷ draw_fast_v_line (x +ℤ pos 4) (y +ℤ pos 1) (pos 3) 1
    ∷ []

abbrev is_realtime : DepartureSource → Bool
is_realtime realtime = true
is_realtime _ = false

abbrev pub live : Departure → Bool
live d = is_realtime d.source

abbrev pub has_deviation : Departure → Bool
has_deviation d = live d && not (d.planned == 0)

-- The nearest minute, symmetric around zero; division of a long is towards zero.
unfoldable pub deviation_minutes : Departure → ℤ
deviation_minutes d =
    if has_deviation d
    then if leb d.planned d.when
      then pos ((d.when - d.planned + 30) / 60)
      else sub_ℕ 0 ((d.planned - d.when + 30) / 60)
    else pos 0
