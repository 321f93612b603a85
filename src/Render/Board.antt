-- ===== src/Render/Board.antt =====
-- src/render/layout.cpp and src/render/badge.cpp: the departure board, and the stamp of an update.
use bustaferl.Prelude.{ℕ, Bool, [], ◌∷◌, ◌++◌, Option, none, some, ◌&&◌, not, if◌then◌else◌}
use bustaferl.Prelude.Int.{ℤ, pos, ◌+ℤ◌, ◌-ℤ◌, half_int}
use bustaferl.Parse.{Text, key}
use bustaferl.Data.{Departure}
use bustaferl.Render.{
  FontRole, tg_row, eg_row, atzg_row, section_header_eg_atzg, badge_sm, badge_md, badge_lg, Drawing,
  fill_rect, set_cursor, set_text_color, set_role_font, print,
}
use bustaferl.Render.Digits.{Clock, format_hhmm}
use bustaferl.Render.Gauge.{
  draw_deviation_gauge, draw_plan_mark, has_deviation, deviation_minutes, live, gauge_h,
}

-- Canvas::textWidth, in the font that is selected.
abbrev pub Width : Type 0
Width = FontRole → Text → ℕ

abbrev pub fb_w : ℕ
fb_w = 400

abbrev pub fb_h : ℕ
fb_h = 300

abbrev pub header_bar_h : ℕ
header_bar_h = 16

abbrev pub plan_mark_total_w : ℕ
plan_mark_total_w = 8

abbrev pub col_time2_digit_right : ℤ
col_time2_digit_right = pos 384

abbrev pub col_time1_digit_right : ℤ
col_time1_digit_right = pos 284

abbrev pub gauge1_cx : ℤ
gauge1_cx = pos 290

abbrev pub gauge2_cx : ℤ
gauge2_cx = pos 388

abbrev pub sb_slot_width : ℕ
sb_slot_width = 128

pub data BadgeSize : Type 0 where
  sm md lg : BadgeSize

pub record BadgeBounds : Type 0 where
  pub w : ℕ
  pub h : ℕ
  pub pad_x : ℕ
  pub pad_y : ℕ

abbrev pub badge_bounds : BadgeSize → BadgeBounds
badge_bounds sm = record { w = 22; h = 14; pad_x = 3; pad_y = 3 }
badge_bounds md = record { w = 34; h = 18; pad_x = 4; pad_y = 4 }
badge_bounds lg = record { w = 42; h = 22; pad_x = 5; pad_y = 4 }

abbrev badge_role : BadgeSize → FontRole
badge_role sm = badge_sm
badge_role md = badge_md
badge_role lg = badge_lg

-- The calls, and the right edge.
abbrev pub draw_badge : ℤ → ℤ → Text → BadgeSize → Drawing × ℤ
draw_badge x y text sz =
    let b = badge_bounds sz in
    (
      fill_rect x y (pos b.w) (pos b.h) 1
          ∷ set_role_font (badge_role sz)
          ∷ set_text_color 0
          ∷ set_cursor (x +ℤ pos b.pad_x) (y +ℤ pos b.pad_y)
          ∷ print text
          ∷ [],
      x +ℤ pos b.w,
    )

abbrev pub slot_time_offset_x : BadgeSize → ℕ
slot_time_offset_x sm = 6
slot_time_offset_x md = 80
slot_time_offset_x lg = 80

abbrev pub row_content_height : FontRole → ℕ
row_content_height tg_row = 28
row_content_height eg_row = 22
row_content_height atzg_row = 18
row_content_height _ = 16

-- Text at a place, in a font and a colour.
abbrev pub text_at : FontRole → ℕ → ℤ → ℤ → Text → Drawing
text_at role colour x y text =
    set_role_font role ∷ set_text_color colour ∷ set_cursor x y ∷ print text ∷ []

abbrev pub draw_header_bar : ℤ → Text → Drawing
draw_header_bar y text =
    fill_rect (pos 0) y (pos fb_w) (pos header_bar_h) 1
    ∷ text_at section_header_eg_atzg 0 (pos 8) (y +ℤ pos 3) text

-- "--:--"
abbrev pub dashes : Text
dashes = key "--:--"

abbrev pub format_slot_time : Clock → Departure → Text
format_slot_time local d = if d.valid then format_hhmm local d.when else dashes

pub record SlotSpec : Type 0 where
  pub x : ℤ
  pub y : ℤ
  pub line : Text
  pub direction : Text
  pub d : Departure
  pub d2 : Option Departure
  pub sz : BadgeSize
  pub row_font : FontRole
  pub show_dev : Bool

abbrev pub slot_is_plan : Departure → Bool
slot_is_plan d = d.valid && not (live d)

abbrev pub time_field_width : Width → FontRole → ℕ
time_field_width width role = width role (key "88:88")

-- The ring beside a time that is planned only.
abbrev pub plan_mark_if : Bool → ℤ → ℤ → Drawing
plan_mark_if plan x y = if plan then draw_plan_mark x y else []

-- The gauge beside a time that there is.
abbrev pub gauge_if : Departure → ℤ → ℤ → Drawing
gauge_if d cx top =
    if d.valid then draw_deviation_gauge cx top (has_deviation d) (deviation_minutes d) else []

abbrev pub draw_time_markers : SlotSpec → Departure → ℕ → Drawing
draw_time_markers s d2 row_h =
    let gtop = s.y +ℤ half_int (pos row_h -ℤ pos gauge_h) in
    if s.show_dev
    then gauge_if s.d gauge1_cx gtop ++ gauge_if d2 gauge2_cx gtop
    else plan_mark_if (slot_is_plan s.d) (col_time1_digit_right +ℤ pos 3) s.y
      ++ plan_mark_if (slot_is_plan d2) (col_time2_digit_right +ℤ pos 3) s.y

abbrev pub draw_direction : ℤ → ℤ → Text → Drawing
draw_direction x y [] = []
draw_direction x y (c ∷ cs) = text_at section_header_eg_atzg 1 x y (c ∷ cs)

-- One time, to the right of the badge.
abbrev pub single_time : Width → Clock → SlotSpec → ℤ → Drawing × ℤ
single_time width local s badge_right =
    let hhmm = format_slot_time local s.d in
    let time_x = badge_right +ℤ pos (slot_time_offset_x s.sz) in
    let time_end = time_x +ℤ pos (width s.row_font hhmm) in
    (
      set_cursor time_x s.y ∷ print hhmm ∷ plan_mark_if (slot_is_plan s.d) (time_end +ℤ pos 3) s.y,
      if slot_is_plan s.d then time_end +ℤ pos plan_mark_total_w else time_end,
    )

-- Two times, to the left of the ends of their columns.
abbrev pub double_time : Width → Clock → SlotSpec → Departure → ℕ → Drawing × ℤ
double_time width local s d2 row_h =
    let field_w = pos (time_field_width width s.row_font) in
    (
      set_cursor (col_time1_digit_right -ℤ field_w) s.y
          ∷ print (format_slot_time local s.d)
          ∷ set_cursor (col_time2_digit_right -ℤ field_w) s.y
          ∷ print (format_slot_time local d2)
          ∷ draw_time_markers s d2 row_h,
      col_time2_digit_right +ℤ pos plan_mark_total_w,
    )

abbrev pub draw_times : Width → Clock → SlotSpec → ℤ → ℕ → Option Departure → Drawing × ℤ
draw_times width local s badge_right row_h none = single_time width local s badge_right
draw_times width local s badge_right row_h (some d2) = double_time width local s d2 row_h

unfoldable pub draw_slot : Width → Clock → SlotSpec → Drawing × ℤ
draw_slot width local s =
    let row_h = row_content_height s.row_font in
    let badge_h = (badge_bounds s.sz).h in
    let (badge, badge_right) =
      draw_badge s.x (s.y +ℤ half_int (pos row_h -ℤ pos badge_h)) s.line s.sz in
    let (times, right) = draw_times width local s badge_right row_h s.d2 in
    (
      badge
          ++ draw_direction (badge_right +ℤ pos 6) (s.y +ℤ half_int (pos row_h -ℤ pos 10))
              s.direction
          ++ (set_role_font s.row_font ∷ set_text_color 1 ∷ times),
      right,
    )
