-- ===== src/Render/Panel.antt =====
-- The board is drawn inside the panel.
use bustaferl.Prelude.{
  ℕ, ◌+◌, ◌≤◌, ◌≡◌, refl, Bool, true, false, List, [], ◌∷◌, ◌++◌, arith, leb, ◌&&◌, All, both,
}
use bustaferl.Prelude.Int.{ℤ, pos, pos_part, neg_part, ◌+ℤ◌, ◌-ℤ◌, ◌≤ℤ◌, int_laws, half_int}
use bustaferl.Parse.{Text, key}
use bustaferl.Data.{
  Departure, StreamSnapshot, stream_58a_atz, stream_58a_hietzing, stream_58b_atz, stream_sbahn_hbf,
}
use bustaferl.Render.{
  Drawing, in_order, Call, draw_pixel, fill_rect, draw_fast_h_line, draw_fast_v_line, draw_rect,
  set_cursor, set_text_color, set_role_font, print, atzg_row, section_header_eg_atzg,
}
use bustaferl.Render.Digits.{Clock}
use bustaferl.Render.Gauge.{draw_plan_mark, has_deviation, deviation_minutes}
use bustaferl.Render.Gauge.Shape.{InBox, draw_deviation_gauge-Near, draw_plan_mark-InBox}
use bustaferl.Render.Glyph.{
  arrow_right_sprite, draw_arrow_right, draw_triangle_down5, draw_custom_glyph,
}
use bustaferl.Render.Glyph.Bits.{draw_custom_glyph-InBox}
use bustaferl.Render.Network.{draw_network_plan}
use bustaferl.Render.Board.{
  Width, draw_header_bar, draw_slot, gauge_if, plan_mark_if, slot_is_plan, format_slot_time,
  draw_direction, draw_times, row_content_height, badge_bounds, SlotSpec, lg, md,
}
use bustaferl.Render.Layout.{
  draw_board, board_parts, bus_row, slot_of, draw_sbahn_slot, sbahn_spec, draw_sbahn_header_bar,
  eg_header,
}

abbrev leb_int : ℤ → ℤ → Bool
leb_int a b = leb (pos_part a + neg_part b) (pos_part b + neg_part a)

abbrev box_on_panel : ℤ → ℤ → ℤ → ℤ → Bool
box_on_panel x y w h =
    leb_int (pos 0) x
    && (leb_int (pos 0) y && (leb_int (x +ℤ w) (pos 400) && leb_int (y +ℤ h) (pos 300)))

-- What a call draws without a font is on the panel of 400 by 300 pixels.
abbrev pub on_panel : Call → Bool
on_panel (fill_rect x y w h c) = box_on_panel x y w h
on_panel (draw_rect x y w h c) = box_on_panel x y w h
on_panel (draw_fast_h_line x y w c) = box_on_panel x y w (pos 1)
on_panel (draw_fast_v_line x y h c) = box_on_panel x y (pos 1) h
on_panel (draw_pixel x y c) = box_on_panel x y (pos 1) (pos 1)
on_panel _ = true

abbrev pub OnPanel : Call → Type 0
OnPanel c = on_panel c ≡ true

box_lem :
    (l t r b x y w h : ℤ)
    → pos 0 ≤ℤ l
    → pos 0 ≤ℤ t
    → r ≤ℤ pos 400
    → b ≤ℤ pos 300
    → (l ≤ℤ x) × ((t ≤ℤ y) × ((x +ℤ w ≤ℤ r) × (y +ℤ h ≤ℤ b)))
    → box_on_panel x y w h ≡ true
box_lem l t r b x y w h p q u v k = ground (arith, k.0, k.1.0, k.1.1.0, k.1.1.1)

OnPanel-InBox :
    (l t r b : ℤ) (c : Call)
    → pos 0 ≤ℤ l
    → pos 0 ≤ℤ t
    → r ≤ℤ pos 400
    → b ≤ℤ pos 300
    → InBox l t r b c
    → OnPanel c
OnPanel-InBox l t r b (fill_rect x y w h c) p q u v k = box_lem l t r b x y w h p q u v k
OnPanel-InBox l t r b (draw_rect x y w h c) p q u v k = box_lem l t r b x y w h p q u v k
OnPanel-InBox l t r b (draw_fast_h_line x y w c) p q u v k = box_lem l t r b x y w (pos 1) p q u v k
OnPanel-InBox l t r b (draw_fast_v_line x y h c) p q u v k = box_lem l t r b x y (pos 1) h p q u v k
OnPanel-InBox l t r b (draw_pixel x y c) p q u v k = box_lem l t r b x y (pos 1) (pos 1) p q u v k
OnPanel-InBox l t r b (set_cursor x y) p q u v k = refl
OnPanel-InBox l t r b (set_text_color c) p q u v k = refl
OnPanel-InBox l t r b (set_role_font f) p q u v k = refl
OnPanel-InBox l t r b (print s) p q u v k = refl

All-InBox :
    (l t r b : ℤ) (cs : Drawing)
    → pos 0 ≤ℤ l
    → pos 0 ≤ℤ t
    → r ≤ℤ pos 400
    → b ≤ℤ pos 300
    → All (InBox l t r b) cs
    → All OnPanel cs
All-InBox l t r b [] p q u v k = tt
All-InBox l t r b (c ∷ cs) p q u v k =
    (OnPanel-InBox l t r b c p q u v k.0, All-InBox l t r b cs p q u v k.1)

All-append : (xs ys : Drawing) → All OnPanel xs → All OnPanel ys → All OnPanel (xs ++ ys)
All-append [] ys h k = k
All-append (x ∷ xs) ys h k = (h.0, All-append xs ys h.1 k)

All-in_order : (ds : List Drawing) → All (All OnPanel) ds → All OnPanel (in_order ds)
All-in_order [] h = tt
All-in_order (d ∷ ds) h = All-append d (in_order ds) h.0 (All-in_order ds h.1)

-- A drawing at fixed places is checked by evaluation.
all_on_panel : Drawing → Bool
all_on_panel [] = true
all_on_panel (c ∷ cs) = on_panel c && all_on_panel cs

All-checked : (cs : Drawing) → all_on_panel cs ≡ true → All OnPanel cs
unfolding all_on_panel
All-checked [] h = tt
All-checked (c ∷ cs) h = (ground arith, All-checked cs (ground arith))

network_plan-OnPanel : All OnPanel (draw_network_plan (pos 8) (pos 196) 384)
unfolding draw_network_plan draw_triangle_down5 draw_custom_glyph all_on_panel ◌+ℤ◌ ◌-ℤ◌
network_plan-OnPanel = All-checked (draw_network_plan (pos 8) (pos 196) 384) refl

gauge_if-OnPanel :
    (d : Departure) (cx top : ℕ)
    → 3 ≤ cx
    → 2 ≤ top
    → cx ≤ 395
    → top ≤ 274
    → All OnPanel (gauge_if d (pos cx) (pos top))
gauge_if-OnPanel d cx top a b c e =
    both (All OnPanel) d.valid _ _
      (All-InBox (pos cx -ℤ pos 3) (pos top -ℤ pos 2) (pos cx +ℤ pos 5) (pos top +ℤ pos 26) _
        (omega int_laws) (omega int_laws) (omega int_laws) (omega int_laws)
        (draw_deviation_gauge-Near (pos cx) (pos top) (has_deviation d) (deviation_minutes d)))
      tt

plan_mark_if-OnPanel :
    (plan : Bool) (x y : ℤ)
    → pos 0 ≤ℤ x
    → pos 0 ≤ℤ y
    → x +ℤ pos 5 ≤ℤ pos 400
    → y +ℤ pos 5 ≤ℤ pos 300
    → All OnPanel (plan_mark_if plan x y)
plan_mark_if-OnPanel plan x y a b c d =
    both (All OnPanel) plan _ _
      (All-InBox x y (x +ℤ pos 5) (y +ℤ pos 5) (draw_plan_mark x y) a b c d
        (draw_plan_mark-InBox x y))
      tt

draw_direction-OnPanel : (x y : ℤ) (text : Text) → All OnPanel (draw_direction x y text)
draw_direction-OnPanel x y [] = tt
draw_direction-OnPanel x y (c ∷ cs) = (refl, (refl, (refl, (refl, tt))))

-- A row is on the panel if its badge and its markers are.
row-OnPanel :
    (width : Width) (local : Clock) (s : SlotSpec)
    → let row_h = row_content_height s.row_font in
      let b = badge_bounds s.sz in
      box_on_panel s.x (s.y +ℤ half_int (pos row_h -ℤ pos b.h)) (pos b.w) (pos b.h) ≡ true
      → All OnPanel (draw_times width local s (s.x +ℤ pos b.w) row_h s.d2).0
      → All OnPanel (draw_slot width local s).0
unfolding draw_slot
row-OnPanel width local s badge times =
    let row_h = row_content_height s.row_font in
    let badge_right = s.x +ℤ pos (badge_bounds s.sz).w in
    let dir_y = s.y +ℤ half_int (pos row_h -ℤ pos 10) in
    let at_end : All OnPanel (
        set_role_font s.row_font
        ∷ set_text_color 1
        ∷ (draw_times width local s badge_right row_h s.d2).0) =
      (refl, (refl, times)) in
    (
      badge,
      (
        refl,
        (
          refl,
          (
            refl,
            (
              refl,
              All-append (draw_direction (badge_right +ℤ pos 6) dir_y s.direction) _
                  (draw_direction-OnPanel (badge_right +ℤ pos 6) dir_y s.direction) at_end,
            ),
          ),
        ),
      ),
    )

-- The rows of the buses, at their places.
tg_row-gauges :
    (snapshot : StreamSnapshot) (stream top : ℕ)
    → 2 ≤ top
    → top ≤ 274
    → All OnPanel (
        gauge_if (slot_of snapshot stream 0) (pos 290) (pos top)
        ++ gauge_if (slot_of snapshot stream 1) (pos 388) (pos top))
tg_row-gauges snapshot stream top a b =
    All-append (gauge_if (slot_of snapshot stream 0) (pos 290) (pos top)) _
      (gauge_if-OnPanel (slot_of snapshot stream 0) 290 top (omega arith) a (omega arith) b)
      (gauge_if-OnPanel (slot_of snapshot stream 1) 388 top (omega arith) a (omega arith) b)

tg_row0-OnPanel :
    (width : Width) (local : Clock) (snapshot : StreamSnapshot)
    → All OnPanel (draw_slot width local (bus_row snapshot stream_58a_atz 22 (key "58A") lg true)).0
unfolding ◌+ℤ◌ ◌-ℤ◌
tg_row0-OnPanel width local snapshot =
    row-OnPanel width local (bus_row snapshot stream_58a_atz 22 (key "58A") lg true) refl (
      refl,
      (refl, (refl, (refl, tg_row-gauges snapshot stream_58a_atz 24 (omega arith) (omega arith)))),
    )

tg_row1-OnPanel :
    (width : Width) (local : Clock) (snapshot : StreamSnapshot)
    → All OnPanel
        (draw_slot width local (bus_row snapshot stream_58a_hietzing 54 (key "58A") lg true)).0
unfolding ◌+ℤ◌ ◌-ℤ◌
tg_row1-OnPanel width local snapshot =
    row-OnPanel width local (bus_row snapshot stream_58a_hietzing 54 (key "58A") lg true) refl (
      refl,
      (
        refl,
        (refl, (refl, tg_row-gauges snapshot stream_58a_hietzing 56 (omega arith) (omega arith))),
      ),
    )

eg_row-OnPanel :
    (width : Width) (local : Clock) (snapshot : StreamSnapshot)
    → All OnPanel
        (draw_slot width local (bus_row snapshot stream_58b_atz 112 (key "58B") md false)).0
unfolding ◌+ℤ◌ ◌-ℤ◌
eg_row-OnPanel width local snapshot =
    let mark = slot_is_plan (slot_of snapshot stream_58b_atz 0) in
    row-OnPanel width local (bus_row snapshot stream_58b_atz 112 (key "58B") md false) refl (
      refl,
      (
        refl,
        (
          refl,
          (
            refl,
            All-append (plan_mark_if mark (pos 287) (pos 112)) _
                (plan_mark_if-OnPanel mark (pos 287) (pos 112) (omega arith) (omega arith)
                  (omega int_laws) (omega int_laws))
                (plan_mark_if-OnPanel (slot_is_plan (slot_of snapshot stream_58b_atz 1)) (pos 387)
                  (pos 112) (omega arith) (omega arith) (omega int_laws) (omega int_laws)),
          ),
        ),
      ),
    )

-- A slot of the S-Bahn at `x`, whose time is not wider than leaves room for its mark.
sbahn_slot-OnPanel :
    (width : Width) (local : Clock) (x : ℕ) (d : Departure)
    → x + width atzg_row (format_slot_time local d) + 36 ≤ 400
    → All OnPanel (draw_sbahn_slot width local (pos x) (pos 162) d)
unfolding draw_sbahn_slot ◌-ℤ◌
sbahn_slot-OnPanel width local x d room =
    both (All OnPanel) d.valid _ _
      (row-OnPanel width local (sbahn_spec (pos x) (pos 162) d)
        (box_lem (pos 0) (pos 0) (pos 400) (pos 300) (pos x) (pos 162 +ℤ pos 2) (pos 22) (pos 14)
          (omega arith) (omega arith) (omega arith) (omega arith)
          (omega arith, (omega int_laws, (omega int_laws, omega int_laws))))
        (
          refl,
          (
            refl,
            plan_mark_if-OnPanel (slot_is_plan d)
                (pos x
                  +ℤ pos 22
                  +ℤ pos 6
                  +ℤ pos (width atzg_row (format_slot_time local d))
                  +ℤ pos 3)
                (pos 162) (omega int_laws) (omega arith) (omega int_laws) (omega int_laws),
          ),
        ))
      (refl, (refl, (refl, (refl, tt))))

header-OnPanel : (y : ℕ) (text : Text) → y ≤ 284 → All OnPanel (draw_header_bar (pos y) text)
header-OnPanel y text h = (
  box_lem (pos 0) (pos 0) (pos 400) (pos 300) (pos 0) (pos y) (pos 400) (pos 16) (omega arith)
      (omega arith) (omega arith) (omega arith)
      (omega arith, (omega arith, (omega int_laws, omega int_laws))),
  (refl, (refl, (refl, (refl, tt)))),
)

sbahn_header-OnPanel :
    (width : Width)
    → width section_header_eg_atzg (key "ATZGERSDORF") ≤ 381
    → All OnPanel (draw_sbahn_header_bar width (pos 140))
unfolding draw_sbahn_header_bar draw_arrow_right
sbahn_header-OnPanel width h =
    let arrow_x = pos (8 + width section_header_eg_atzg (key "ATZGERSDORF") + 4) in
    let arrow_y = pos 140 +ℤ pos 3 +ℤ pos 3 in
    (
      box_lem (pos 0) (pos 0) (pos 400) (pos 300) (pos 0) (pos 140) (pos 400) (pos 16) (omega arith)
          (omega arith) (omega arith) (omega arith)
          (omega arith, (omega arith, (omega int_laws, omega int_laws))),
      (
        refl,
        (
          refl,
          (
            refl,
            (
              refl,
              All-append (draw_custom_glyph arrow_x arrow_y arrow_right_sprite 0)
                  (set_cursor (arrow_x +ℤ pos 11) (pos 140 +ℤ pos 3) ∷ print (key "WIEN HBF") ∷ [])
                  (All-InBox arrow_x arrow_y (arrow_x +ℤ pos 7) (arrow_y +ℤ pos 5)
                    (draw_custom_glyph arrow_x arrow_y arrow_right_sprite 0) (omega arith)
                    (omega int_laws) (omega int_laws) (omega int_laws)
                    (draw_custom_glyph-InBox arrow_x arrow_y arrow_right_sprite 0))
                  (refl, (refl, tt)),
            ),
          ),
        ),
      ),
    )

-- Whatever the snapshot holds, all that the board draws without a font, its bars, badges, markers, gauges
-- and the network plan, is on the panel, if each time of the S-Bahn leaves room for its mark and the
-- station's name in the header for the arrow.
pub draw_board-OnPanel :
    (width : Width) (local : Clock) (snapshot : StreamSnapshot)
    → ((d : Departure) → width atzg_row (format_slot_time local d) ≤ 100)
    → width section_header_eg_atzg (key "ATZGERSDORF") ≤ 381
    → All OnPanel (draw_board width local snapshot)
unfolding draw_board
draw_board-OnPanel width local snapshot narrow fits =
    All-in_order (board_parts width local snapshot) (
      header-OnPanel 0 (key "TULLNERTALGASSE") (omega arith),
      (
        tg_row0-OnPanel width local snapshot,
        (
          tg_row1-OnPanel width local snapshot,
          (
            header-OnPanel 90 eg_header (omega arith),
            (
              eg_row-OnPanel width local snapshot,
              (
                sbahn_header-OnPanel width fits,
                (
                  slot-OnPanel 8 0 (omega arith),
                  (
                    slot-OnPanel 136 1 (omega arith),
                    (slot-OnPanel 264 2 (omega arith), (network_plan-OnPanel, tt)),
                  ),
                ),
              ),
            ),
          ),
        ),
      ),
    )
  where
    slot-OnPanel :
        (x i : ℕ)
        → x ≤ 264
        → All OnPanel
            (draw_sbahn_slot width local (pos x) (pos 162) (slot_of snapshot stream_sbahn_hbf i))
    slot-OnPanel x i h =
        let d = slot_of snapshot stream_sbahn_hbf i in
        let n = narrow d in sbahn_slot-OnPanel width local x d (omega (arith, n, h))
