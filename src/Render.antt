-- ===== src/Render.antt =====
-- src/render: the frame, and what the screens ask a canvas to draw.
-- A drawing is the list of the calls of src/render/canvas.h that it makes, in their order. Coordinates are
-- signed, colours are 1 for paper and 0 for ink. The width of a text in a font is measured by the canvas,
-- and so an argument.
pub mod Frame
pub mod Gauge
pub mod Digits
pub mod Board
pub mod Glyph
pub mod Network
pub mod Layout
pub mod Panel
pub mod Columns
pub mod Screens
pub mod Lines
use bustaferl.Prelude.{ℕ, List, [], ◌∷◌, ◌++◌}
use bustaferl.Prelude.Int.{ℤ}
use bustaferl.Parse.{Text}

pub data FontRole : Type 0 where
  tg_row eg_row atzg_row : FontRole
  section_header_tg section_header_eg_atzg : FontRole
  network_label network_arrow : FontRole
  badge_sm badge_md badge_lg : FontRole
  fullscreen_glyph_90 fullscreen_title fullscreen_sub fullscreen_foot : FontRole

-- The methods of Canvas: places and sizes, then the colour.
pub data Call : Type 0 where
  draw_pixel : ℤ → ℤ → ℕ → Call
  fill_rect : ℤ → ℤ → ℤ → ℤ → ℕ → Call
  draw_fast_h_line : ℤ → ℤ → ℤ → ℕ → Call
  draw_fast_v_line : ℤ → ℤ → ℤ → ℕ → Call
  draw_rect : ℤ → ℤ → ℤ → ℤ → ℕ → Call
  set_cursor : ℤ → ℤ → Call
  set_text_color : ℕ → Call
  set_role_font : FontRole → Call
  print : Text → Call

abbrev pub Drawing : Type 0
Drawing = List Call

-- One drawing after the other.
abbrev pub in_order : List Drawing → Drawing
in_order [] = []
in_order (d ∷ ds) = d ++ in_order ds
