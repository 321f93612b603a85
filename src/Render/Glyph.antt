-- ===== src/Render/Glyph.antt =====
-- src/render/custom_glyph.cpp, and the small sprites of src/render/layout.cpp and
-- src/render/network_plan.cpp: bitmaps drawn by pixels, the leftmost pixel of a row in its highest bit.
pub mod Bits
use bustaferl.Prelude.{
  ℕ, zero, suc, ◌+◌, ◌-◌, ◌*◌, ◌/◌, ◌%◌, List, [], ◌∷◌, ◌++◌, if◌then◌else◌, get_or,
}
use bustaferl.Prelude.Int.{ℤ, pos, ◌+ℤ◌}
use bustaferl.Render.{Drawing, draw_pixel}
use bustaferl.Render.Frame.{has_bit, mask_of}

pub record GlyphBitmap : Type 0 where
  pub bits : List ℕ
  pub w : ℕ  -- uint16_t
  pub h : ℕ  -- uint16_t

-- The columns `col` and on, of which `cols` are left; the row starts at byte `start`.
unfoldable pub draw_glyph_row : ℕ → ℕ → ℤ → ℤ → List ℕ → ℕ → ℕ → Drawing
draw_glyph_row zero col x y bits start ink = []
draw_glyph_row (suc cols) col x y bits start ink =
    let rest = draw_glyph_row cols (col + 1) x y bits start ink in
    if has_bit (get_or bits (start + col / 8) 0) (mask_of (col % 8))
    then draw_pixel (x +ℤ pos col) y ink ∷ rest
    else rest

unfoldable pub draw_glyph_rows : ℕ → ℕ → ℤ → ℤ → GlyphBitmap → ℕ → Drawing
unfolding draw_glyph_row
draw_glyph_rows zero row x y glyph ink = []
draw_glyph_rows (suc rows) row x y glyph ink =
    draw_glyph_row glyph.w 0 x (y +ℤ pos row) glyph.bits (row * ((glyph.w + 7) / 8)) ink
    ++ draw_glyph_rows rows (row + 1) x y glyph ink

unfoldable pub draw_custom_glyph : ℤ → ℤ → GlyphBitmap → ℕ → Drawing
unfolding draw_glyph_rows
draw_custom_glyph x y glyph ink = draw_glyph_rows glyph.h 0 x y glyph ink

-- A sprite has one byte for each row.
abbrev pub triangle_down_5 : GlyphBitmap
triangle_down_5 = record { bits = 248 ∷ 112 ∷ 112 ∷ 32 ∷ 32 ∷ []; w = 5; h = 5 }

abbrev pub arrow_right_sprite : GlyphBitmap
arrow_right_sprite = record { bits = 8 ∷ 12 ∷ 254 ∷ 12 ∷ 8 ∷ []; w = 7; h = 5 }

unfoldable pub draw_triangle_down5 : ℤ → ℤ → Drawing
unfolding draw_custom_glyph
draw_triangle_down5 x y = draw_custom_glyph x y triangle_down_5 1

unfoldable pub draw_arrow_right : ℤ → ℤ → ℕ → Drawing
unfolding draw_custom_glyph
draw_arrow_right x y color = draw_custom_glyph x y arrow_right_sprite color
