-- ===== src/Examples/Drawings.antt =====
-- The frame, the gauge, the board and a line of a screen at concrete inputs.
use bustaferl.Prelude.{
  ◌/◌, ◌%◌, ◌≤◌, ◌≡◌, ◌↔◌, refl, true, false, [], ◌∷◌, ◌++◌, some, arith, All, Any,
}
use bustaferl.Prelude.Int.{pos, negsuc, ◌+ℤ◌, ◌-ℤ◌}
use bustaferl.Parse.{key}
use bustaferl.Data.{Departure, no_departure, realtime, empty_snapshot}
use bustaferl.Render.{tg_row, fullscreen_foot}
use bustaferl.Render.Frame.{FrameBuffer, get_pixel, fill_rect}
use bustaferl.Render.Frame.Pixel.{IsFrame}
use bustaferl.Render.Frame.Rect.{get_pixel-fill_rect}
use bustaferl.Render.Gauge.{draw_deviation_gauge, deviation_minutes}
use bustaferl.Render.Gauge.Shape.{InBox, EndsAt, draw_deviation_gauge_extent}
use bustaferl.Render.Gauge.Ink.{LooksLike}
use bustaferl.Render.Gauge.Marks.{reading}
use bustaferl.Render.Gauge.Legible.{draw_deviation_gauge_legible}
use bustaferl.Render.Digits.{Clock, format_hhmm, two_digits, decimal}
use bustaferl.Render.Board.{Width, SlotSpec, lg, draw_slot}
use bustaferl.Render.Layout.{draw_board}
use bustaferl.Render.Panel.{OnPanel, draw_board-OnPanel}
use bustaferl.Render.Columns.{Pen, places, label, columns, draw_slot-places}

-- Two rows of eight white pixels.
abbrev white_frame : FrameBuffer
white_frame = 255 ∷ 255 ∷ []

white_frame-IsFrame : IsFrame 1 2 white_frame
white_frame-IsFrame = record { size = refl; bytes = (omega arith, (omega arith, tt)) }

get_pixel-fill_rect_example :
    get_pixel 8 2
      (fill_rect 8 2 (pos 2) (negsuc 0) (pos 3) (pos 2) false white_frame)
      (pos 4)
      (pos 0)
    ≡ false
get_pixel-fill_rect_example =
    get_pixel-fill_rect 1 2 (pos 2) (negsuc 0) (pos 3) (pos 2) (pos 4) (pos 0) false white_frame
      white_frame-IsFrame

draw_deviation_gauge_extent_example :
    All
      (InBox (pos 388 -ℤ pos 3) (pos 24 -ℤ pos 2) (pos 388 +ℤ pos 5) (pos 24 +ℤ pos 26))
      (draw_deviation_gauge (pos 388) (pos 24) true (pos 2))
    × Any (EndsAt (pos 388 +ℤ pos 5)) (draw_deviation_gauge (pos 388) (pos 24) true (pos 2))
draw_deviation_gauge_extent_example = draw_deviation_gauge_extent (pos 388) (pos 24) true (pos 2)

draw_deviation_gauge_legible_example :
    LooksLike
      (draw_deviation_gauge (pos 290) (pos 24) true (pos 2))
      (draw_deviation_gauge (pos 290) (pos 24) true (negsuc 1))
    ↔ (reading (pos 2) ≡ reading (negsuc 1))
draw_deviation_gauge_legible_example =
    draw_deviation_gauge_legible (pos 290) (pos 24) (pos 2) (negsuc 1)

late_by_two :
    deviation_minutes
      (record no_departure { when = 1790; planned = 1700; valid = true; source = realtime })
    ≡ pos 2
unfolding deviation_minutes
late_by_two = refl

abbrev fixed_width : Width
fixed_width role text = 40

abbrev clock : Clock
clock t = (t / 3600, t / 60 % 60)

nine_past_one : format_hhmm clock 4140 ≡ key "01:09"
unfolding format_hhmm two_digits decimal
nine_past_one = refl

fixed_fits : (d : Departure) → 40 ≤ 100
fixed_fits d = omega arith

draw_board-OnPanel_example : All OnPanel (draw_board fixed_width clock empty_snapshot)
draw_board-OnPanel_example =
    draw_board-OnPanel fixed_width clock empty_snapshot fixed_fits (omega arith)

abbrev row : SlotSpec
row = record {
  x = pos 8;
  y = pos 22;
  line = key "58A";
  direction = key "Hietzing";
  d = no_departure;
  d2 = some no_departure;
  sz = lg;
  row_font = tg_row;
  show_dev = true;
}

abbrev pen : Pen
pen = record { role = fullscreen_foot; color = 1; x = pos 0; y = pos 0 }

draw_slot-places_example :
    places pen (draw_slot fixed_width clock row).0
    ≡ places pen (label row) ++ columns fixed_width row
draw_slot-places_example = draw_slot-places fixed_width clock row no_departure pen refl
