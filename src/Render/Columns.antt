-- ===== src/Render/Columns.antt =====
-- Where the texts of a row stand.
use bustaferl.Prelude.{
  ℕ, zero, suc, ◌≡◌, refl, sym, ap, subst, arith, ◌∙◌, Bool, true, false, List, [], ◌∷◌, ◌++◌, some,
  both, All, ◌==◌,
}
use bustaferl.Prelude.Int.{ℤ, pos, negsuc, ◌+ℤ◌, ◌-ℤ◌, half_int, abs_int, ltb_int}
use bustaferl.Data.{Departure}
use bustaferl.Render.{
  FontRole, Drawing, Call, draw_pixel, fill_rect, draw_fast_h_line, draw_fast_v_line, draw_rect,
  set_cursor, set_text_color, set_role_font, print,
}
use bustaferl.Render.Digits.{Clock}
use bustaferl.Render.Gauge.{
  draw_deviation_gauge, draw_plan_mark, has_deviation, deviation_minutes, minute_tick, minute_ticks,
  live_mark, bar, overflow, h_tick, clamped, gauge_h, gauge_up_min, gauge_down_min,
}
use bustaferl.Render.Board.{
  Width, draw_badge, draw_direction, draw_slot, draw_times, draw_time_markers, gauge_if,
  plan_mark_if, SlotSpec, row_content_height, badge_bounds, time_field_width, slot_is_plan,
  gauge1_cx, gauge2_cx, col_time1_digit_right, col_time2_digit_right,
}

-- The state of a canvas for text: what the next `print` goes by.
pub record Pen : Type 0 where
  pub role : FontRole
  pub color : ℕ
  pub x : ℤ
  pub y : ℤ

abbrev pub step : Pen → Call → Pen
step p (set_cursor x y) = record p { x = x; y = y }
step p (set_text_color c) = record p { color = c }
step p (set_role_font f) = record p { role = f }
step p _ = p

abbrev pub pen_after : Pen → Drawing → Pen
pen_after p [] = p
pen_after p (c ∷ cs) = pen_after (step p c) cs

-- Where, in which font and colour, each text of a drawing is printed.
abbrev pub places : Pen → Drawing → List Pen
places p [] = []
places p (print text ∷ cs) = p ∷ places p cs
places p (c ∷ cs) = places (step p c) cs

places-append :
    (p : Pen) (xs ys : Drawing) → places p (xs ++ ys) ≡ places p xs ++ places (pen_after p xs) ys
places-append p [] ys = refl
places-append p (print text ∷ xs) ys = ap (λ ps. p ∷ ps) (places-append p xs ys)
places-append p (set_cursor x y ∷ xs) ys = places-append _ xs ys
places-append p (set_text_color c ∷ xs) ys = places-append _ xs ys
places-append p (set_role_font f ∷ xs) ys = places-append _ xs ys
places-append p (draw_pixel x y c ∷ xs) ys = places-append p xs ys
places-append p (fill_rect x y w h c ∷ xs) ys = places-append p xs ys
places-append p (draw_fast_h_line x y w c ∷ xs) ys = places-append p xs ys
places-append p (draw_fast_v_line x y h c ∷ xs) ys = places-append p xs ys
places-append p (draw_rect x y w h c ∷ xs) ys = places-append p xs ys

abbrev is_print : Call → Bool
is_print (print text) = true
is_print _ = false

abbrev Silent : Drawing → Type 0
Silent = All (λ c. is_print c ≡ false)

places-Silent : (p : Pen) (xs : Drawing) → Silent xs → places p xs ≡ []
places-Silent p [] h = refl
places-Silent p (print text ∷ xs) h = cc
places-Silent p (set_cursor x y ∷ xs) h = places-Silent _ xs h.1
places-Silent p (set_text_color c ∷ xs) h = places-Silent _ xs h.1
places-Silent p (set_role_font f ∷ xs) h = places-Silent _ xs h.1
places-Silent p (draw_pixel x y c ∷ xs) h = places-Silent p xs h.1
places-Silent p (fill_rect x y w h c ∷ xs) k = places-Silent p xs k.1
places-Silent p (draw_fast_h_line x y w c ∷ xs) h = places-Silent p xs h.1
places-Silent p (draw_fast_v_line x y h c ∷ xs) k = places-Silent p xs k.1
places-Silent p (draw_rect x y w h c ∷ xs) k = places-Silent p xs k.1

Silent-append : (xs ys : Drawing) → Silent xs → Silent ys → Silent (xs ++ ys)
Silent-append [] ys h k = k
Silent-append (c ∷ xs) ys h k = (h.0, Silent-append xs ys h.1 k)

minute_ticks-Silent : (n : ℕ) (cx z m : ℤ) → Silent (minute_ticks n cx z m)
minute_ticks-Silent zero cx z m = tt
minute_ticks-Silent (suc n) cx z m =
    Silent-append (minute_tick cx z m) _ (both Silent (abs_int m == 0) _ _ tt (refl, tt))
      (minute_ticks-Silent n cx z (m +ℤ pos 1))

bar-silent : (cx z m : ℤ) → is_print (bar cx z m) ≡ false
bar-silent cx z m = ground arith

overflow-Silent : (cx top dev : ℤ) → Silent (overflow cx top dev)
overflow-Silent cx top dev =
    both Silent (ltb_int gauge_up_min dev) _ _ (refl, tt)
      (both Silent (ltb_int dev gauge_down_min) _ _ (refl, tt) tt)

gauge-Silent : (cx top dev : ℤ) (has : Bool) → Silent (draw_deviation_gauge cx top has dev)
unfolding draw_deviation_gauge
gauge-Silent cx top dev has = (
  refl,
  Silent-append (minute_ticks 9 cx (top +ℤ pos 15) (negsuc 2))
      (h_tick cx (top +ℤ pos 15) 7 true ∷ live_mark cx top (top +ℤ pos 15) has dev)
      (minute_ticks-Silent 9 cx (top +ℤ pos 15) (negsuc 2))
      (
        refl,
        both Silent has _ _
            (bar-silent cx (top +ℤ pos 15) (clamped dev), overflow-Silent cx top dev) (refl, tt),
      ),
)

gauge_if-Silent : (d : Departure) (cx top : ℤ) → Silent (gauge_if d cx top)
gauge_if-Silent d cx top =
    both Silent d.valid _ _ (gauge-Silent cx top (deviation_minutes d) (has_deviation d)) tt

plan_mark_if-Silent : (plan : Bool) (x y : ℤ) → Silent (plan_mark_if plan x y)
unfolding draw_plan_mark
plan_mark_if-Silent plan x y = both Silent plan _ _ (refl, (refl, (refl, (refl, tt)))) tt

markers-Silent : (s : SlotSpec) (d2 : Departure) (row_h : ℕ) → Silent (draw_time_markers s d2 row_h)
markers-Silent s d2 row_h =
    both Silent s.show_dev _ _
      (Silent-append (gauge_if s.d gauge1_cx gtop) _ (gauge_if-Silent s.d gauge1_cx gtop)
        (gauge_if-Silent d2 gauge2_cx gtop))
      (Silent-append (plan_mark_if (slot_is_plan s.d) (col_time1_digit_right +ℤ pos 3) s.y) _
        (plan_mark_if-Silent (slot_is_plan s.d) (col_time1_digit_right +ℤ pos 3) s.y)
        (plan_mark_if-Silent (slot_is_plan d2) (col_time2_digit_right +ℤ pos 3) s.y))
  where
    gtop : ℤ
    gtop = s.y +ℤ half_int (pos row_h -ℤ pos gauge_h)

-- The badge and the direction of a row.
abbrev pub label : SlotSpec → Drawing
label s =
    let row_h = row_content_height s.row_font in
    let (badge, badge_right) =
      draw_badge s.x (s.y +ℤ half_int (pos row_h -ℤ pos (badge_bounds s.sz).h)) s.line s.sz in
    badge
    ++ draw_direction (badge_right +ℤ pos 6) (s.y +ℤ half_int (pos row_h -ℤ pos 10)) s.direction

-- The two columns of times: in the row's font, left of their ends by the width of a full time.
abbrev pub columns : Width → SlotSpec → List Pen
columns width s =
    let field_w = pos (time_field_width width s.row_font) in
    record { role = s.row_font; color = 1; x = col_time1_digit_right -ℤ field_w; y = s.y }
    ∷ record { role = s.row_font; color = 1; x = col_time2_digit_right -ℤ field_w; y = s.y }
    ∷ []

times-places :
    (width : Width) (local : Clock) (s : SlotSpec) (d2 : Departure) (right : ℤ) (row_h : ℕ)
    (q : Pen)
    → places q (
        set_role_font s.row_font
        ∷ set_text_color 1
        ∷ (draw_times width local s right row_h (some d2)).0)
      ≡ columns width s
times-places width local s d2 right row_h q =
    let field_w = pos (time_field_width width s.row_font) in
    ap
      (λ ps.
        record { role = s.row_font; color = 1; x = col_time1_digit_right -ℤ field_w; y = s.y }
        ∷ record { role = s.row_font; color = 1; x = col_time2_digit_right -ℤ field_w; y = s.y }
        ∷ ps)
      (places-Silent _ (draw_time_markers s d2 row_h) (markers-Silent s d2 row_h))

-- In a row with two times the texts stand where those of its label do, followed by the two columns, in
-- the row's font and left of their ends by the width of a full time; so their places depend neither on
-- the departures nor on the width of the times that are printed.
pub draw_slot-places :
    (width : Width) (local : Clock) (s : SlotSpec) (d2 : Departure) (p : Pen)
    → s.d2 ≡ some d2
    → places p (draw_slot width local s).0 ≡ places p (label s) ++ columns width s
unfolding draw_slot
draw_slot-places width local s d2 p e =
    let row_h = row_content_height s.row_font in
    let (badge, right) =
      draw_badge s.x (s.y +ℤ half_int (pos row_h -ℤ pos (badge_bounds s.sz).h)) s.line s.sz in
    let dir = draw_direction (right +ℤ pos 6) (s.y +ℤ half_int (pos row_h -ℤ pos 10)) s.direction in
    let pen = pen_after p badge in
    ap (λ ps. pen ∷ ps)
      (places-append pen dir (
          set_role_font s.row_font
          ∷ set_text_color 1
          ∷ (draw_times width local s right row_h s.d2).0)
        ∙ ap (λ ps. places pen dir ++ ps)
            (subst
              (λ o.
                places (pen_after pen dir) (
                  set_role_font s.row_font
                  ∷ set_text_color 1
                  ∷ (draw_times width local s right row_h o).0)
                ≡ columns width s)
              (sym e) (times-places width local s d2 right row_h (pen_after pen dir))))
