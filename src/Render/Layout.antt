-- ===== src/Render/Layout.antt =====
-- src/render/layout.cpp: the whole board, and the stamp of an update.
use bustaferl.Prelude.{
  ℕ, ◌+◌, ◌-◌, ◌*◌, Bool, true, false, List, [], ◌∷◌, ◌++◌, none, some, ◌==◌, ◌||◌, if◌then◌else◌,
  get_or,
}
use bustaferl.Prelude.Int.{ℤ, pos, ◌+ℤ◌, ◌-ℤ◌}
use bustaferl.Parse.{Text, key}
use bustaferl.Data.{
  Departure, no_departure, StreamSnapshot, empty_stream, stream_58a_atz, stream_58a_hietzing,
  stream_58b_atz, stream_sbahn_hbf,
}
use bustaferl.Render.{
  in_order, tg_row, eg_row, atzg_row, section_header_eg_atzg, network_label, Drawing, fill_rect,
  set_cursor, set_text_color, set_role_font, print,
}
use bustaferl.Render.Digits.{Clock, format_hhmm}
use bustaferl.Render.Glyph.{draw_arrow_right}
use bustaferl.Render.Network.{draw_network_plan}
use bustaferl.Render.Board.{
  Width, fb_w, fb_h, header_bar_h, sb_slot_width, BadgeSize, sm, md, lg, text_at, draw_header_bar,
  dashes, SlotSpec, draw_slot,
}

abbrev pub display_dir : ℕ → Text
display_dir idx =
    if idx == stream_58a_hietzing
    then key "Hietzing"
    else if idx == stream_58a_atz || idx == stream_58b_atz
    then key "Atzgersdorf"
    else []

abbrev pub sbahn_line_label : Departure → Text
sbahn_line_label slot = label_of slot.valid slot.line_label
  where
    label_of : Bool → Text → Text
    label_of false label = key "S?"
    label_of true [] = key "S?"
    label_of true (c ∷ cs) = c ∷ cs

unfoldable pub draw_sbahn_header_bar : Width → ℤ → Drawing
draw_sbahn_header_bar width y =
    let text_top_y = y +ℤ pos 3 in
    let arrow_x = pos (8 + width section_header_eg_atzg (key "ATZGERSDORF") + 4) in
    fill_rect (pos 0) y (pos fb_w) (pos header_bar_h) 1
      ∷ text_at section_header_eg_atzg 0 (pos 8) text_top_y (key "ATZGERSDORF")
    ++ draw_arrow_right arrow_x (text_top_y +ℤ pos 3) 0
    ++ (set_cursor (arrow_x +ℤ pos 11) text_top_y ∷ print (key "WIEN HBF") ∷ [])

abbrev pub sbahn_spec : ℤ → ℤ → Departure → SlotSpec
sbahn_spec x y d = record {
  x = x;
  y = y;
  line = sbahn_line_label d;
  direction = [];
  d = d;
  d2 = none;
  sz = sm;
  row_font = atzg_row;
  show_dev = false;
}

unfoldable pub draw_sbahn_slot : Width → Clock → ℤ → ℤ → Departure → Drawing
unfolding draw_slot
draw_sbahn_slot width local x y d =
    if d.valid then (draw_slot width local (sbahn_spec x y d)).0 else text_at atzg_row 1 x y dashes

-- A slot of a stream of the snapshot.
abbrev pub slot_of : StreamSnapshot → ℕ → ℕ → Departure
slot_of snapshot stream i = get_or (get_or snapshot.stream stream empty_stream).slot i no_departure

-- The row of a stream with its next two departures.
abbrev pub bus_row : StreamSnapshot → ℕ → ℕ → Text → BadgeSize → Bool → SlotSpec
bus_row snapshot stream y line sz show_dev = record {
  x = pos 8;
  y = pos y;
  line = line;
  direction = display_dir stream;
  d = slot_of snapshot stream 0;
  d2 = some (slot_of snapshot stream 1);
  sz = sz;
  row_font = if show_dev then tg_row else eg_row;
  show_dev = show_dev;
}

-- "ENDEMANNGASSE · NACH SCHLEIFE", in UTF-8.
abbrev pub eg_header : Text
eg_header = key "ENDEMANNGASSE " ++ (194 ∷ 183 ∷ key " NACH SCHLEIFE")

-- The sections, from the top.
abbrev pub board_parts : Width → Clock → StreamSnapshot → List Drawing
board_parts width local snapshot =
    draw_header_bar (pos 0) (key "TULLNERTALGASSE")
    ∷ (draw_slot width local (bus_row snapshot stream_58a_atz 22 (key "58A") lg true)).0
    ∷ (draw_slot width local (bus_row snapshot stream_58a_hietzing 54 (key "58A") lg true)).0
    ∷ draw_header_bar (pos 90) eg_header
    ∷ (draw_slot width local (bus_row snapshot stream_58b_atz 112 (key "58B") md false)).0
    ∷ draw_sbahn_header_bar width (pos 140)
    ∷ draw_sbahn_slot width local (pos 8) (pos 162) (slot_of snapshot stream_sbahn_hbf 0)
    ∷ draw_sbahn_slot width local (pos (8 + sb_slot_width)) (pos 162)
        (slot_of snapshot stream_sbahn_hbf 1)
    ∷ draw_sbahn_slot width local (pos (8 + 2 * sb_slot_width)) (pos 162)
        (slot_of snapshot stream_sbahn_hbf 2)
    ∷ draw_network_plan (pos 8) (pos 196) 384
    ∷ []

unfoldable pub draw_board : Width → Clock → StreamSnapshot → Drawing
draw_board width local snapshot = in_order (board_parts width local snapshot)

-- drawUpdateStamp: the time 0 stamps nothing.
unfoldable pub draw_update_stamp : Width → Clock → ℕ → Drawing
draw_update_stamp width local t =
    let buf = key "upd " ++ format_hhmm local t in
    let w = width network_label buf in
    let x = pos fb_w -ℤ pos w -ℤ pos 2 in
    let y = pos (fb_h - 8) in
    if t == 0
    then []
    else set_role_font network_label
      ∷ fill_rect (x -ℤ pos 2) (y -ℤ pos 1) (pos (w + 4)) (pos 9) 0
      ∷ set_text_color 1
      ∷ set_cursor x y
      ∷ print buf
      ∷ []
