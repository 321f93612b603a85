-- ===== src/Render/Glyph/Bits.antt =====
-- The pixels of a bitmap.
use bustaferl.Prelude.{
  ℕ, zero, suc, ◌+◌, ◌*◌, ◌/◌, ◌%◌, ◌≤◌, ◌<◌, [], ◌∷◌, ◌++◌, arith, All, both, get_or,
}
use bustaferl.Prelude.Int.{ℤ, pos, ◌+ℤ◌, int_laws}
use bustaferl.Render.{Drawing, Call}
use bustaferl.Render.Frame.{has_bit, mask_of}
use bustaferl.Render.Gauge.Shape.{InBox}
use bustaferl.Render.Glyph.{GlyphBitmap, draw_glyph_row, draw_glyph_rows, draw_custom_glyph}

module _ (x y : ℤ) (g : GlyphBitmap) (ink : ℕ) where
  abbrev InGlyph : Call → Type 0
  InGlyph = InBox x y (x +ℤ pos g.w) (y +ℤ pos g.h)

  row-InGlyph :
      (cols col row start : ℕ)
      → col + cols ≤ g.w
      → row < g.h
      → All InGlyph (draw_glyph_row cols col x (y +ℤ pos row) g.bits start ink)
  unfolding draw_glyph_row
  row-InGlyph zero col row start h k = tt
  row-InGlyph (suc cols) col row start h k =
      let rest = row-InGlyph cols (col + 1) row start (omega arith) k in
      both (All InGlyph) (has_bit (get_or g.bits (start + col / 8) 0) (mask_of (col % 8))) _ _
        ((omega int_laws, (omega int_laws, (omega int_laws, omega int_laws))), rest) rest

  glyph-append : (xs ys : Drawing) → All InGlyph xs → All InGlyph ys → All InGlyph (xs ++ ys)
  glyph-append [] ys h k = k
  glyph-append (c ∷ xs) ys h k = (h.0, glyph-append xs ys h.1 k)

  rows-InGlyph :
      (rows row : ℕ) → row + rows ≤ g.h → All InGlyph (draw_glyph_rows rows row x y g ink)
  unfolding draw_glyph_rows
  rows-InGlyph zero row h = tt
  rows-InGlyph (suc rows) row h =
      glyph-append (draw_glyph_row g.w 0 x (y +ℤ pos row) g.bits (row * ((g.w + 7) / 8)) ink) _
        (row-InGlyph g.w 0 row (row * ((g.w + 7) / 8)) (omega arith) (omega arith))
        (rows-InGlyph rows (row + 1) (omega arith))

  pub draw_custom_glyph-InBox :
      All (InBox x y (x +ℤ pos g.w) (y +ℤ pos g.h)) (draw_custom_glyph x y g ink)
  unfolding draw_custom_glyph
  draw_custom_glyph-InBox = rows-InGlyph g.h 0 (omega arith)
