-- ===== src/Render/Network.antt =====
-- src/render/network_plan.cpp: the five stations at the foot of the board.
use bustaferl.Prelude.{ℕ, zero, suc, ◌+◌, ◌-◌, ◌*◌, ◌/◌, [], ◌∷◌, ◌++◌, length}
use bustaferl.Prelude.Int.{ℤ, pos, ◌+ℤ◌, ◌-ℤ◌, abs_int}
use bustaferl.Parse.{Text, key}
use bustaferl.Render.{
  network_label, Drawing, draw_fast_h_line, draw_fast_v_line, fill_rect, set_cursor, set_text_color,
  set_role_font, print,
}
use bustaferl.Render.Glyph.{draw_triangle_down5}

abbrev pub netplan_height : ℕ
netplan_height = 52

-- x + (width * (2 * i + 1)) / (2 * NETPLAN_COL_COUNT)
abbrev pub centre : ℤ → ℕ → ℕ → ℤ
centre x width i = x +ℤ pos (width * (2 * i + 1) / 10)

-- The row `dy` and those below it, of which `rows` are left.
abbrev pub draw_diamond_rows : ℕ → ℤ → ℤ → ℤ → ℕ → Drawing
draw_diamond_rows zero dy cx cy half_size = []
draw_diamond_rows (suc rows) dy cx cy half_size =
    let dx = half_size - abs_int dy in
    draw_fast_h_line (cx -ℤ pos dx) (cy +ℤ dy) (pos (2 * dx + 1)) 1
    ∷ draw_diamond_rows rows (dy +ℤ pos 1) cx cy half_size

-- for (dy = -half_size; dy <= half_size; ++dy)
abbrev pub draw_diamond : ℤ → ℤ → ℕ → Drawing
draw_diamond cx cy half_size =
    draw_diamond_rows (2 * half_size + 1) (pos 0 -ℤ pos half_size) cx cy half_size

abbrev pub draw_centered_filled_rect : ℤ → ℤ → ℕ → ℕ → Drawing
draw_centered_filled_rect cx cy w h =
    fill_rect (cx -ℤ pos (w / 2)) (cy -ℤ pos (h / 2)) (pos w) (pos h) 1 ∷ []

-- A line from one mark's edge to the next one's.
abbrev link : ℤ → ℤ → ℤ → Drawing
link from to y = draw_fast_h_line from y (to -ℤ from) 1 ∷ []

abbrev label : ℤ → ℤ → Text → Drawing
label cx y text = set_cursor (cx -ℤ pos (3 * length text / 2)) y ∷ print text ∷ []

unfoldable pub draw_network_plan : ℤ → ℤ → ℕ → Drawing
draw_network_plan x y width =
    let hbf = centre x width 0 in
    let atzg = centre x width 1 in
    let ende = centre x width 2 in
    let tull = centre x width 3 in
    let hietz = centre x width 4 in
    let top_y = y +ℤ pos 5 in
    let bottom_y = y +ℤ pos netplan_height -ℤ pos 5 in
    let label_y = y +ℤ pos netplan_height +ℤ pos 8 in
    draw_centered_filled_rect hbf top_y 5 5
    ++ draw_diamond atzg top_y 4
    ++ link (hbf +ℤ pos 3) (atzg -ℤ pos 4) top_y
    ++ (draw_fast_v_line atzg (top_y +ℤ pos 4) (bottom_y -ℤ pos 4 -ℤ (top_y +ℤ pos 4)) 1
        ∷ draw_triangle_down5 (tull -ℤ pos 2) (bottom_y -ℤ pos 9))
    ++ draw_diamond atzg bottom_y 4
    ++ draw_centered_filled_rect ende bottom_y 5 5
    ++ draw_centered_filled_rect tull bottom_y 8 8
    ++ draw_centered_filled_rect hietz bottom_y 5 5
    ++ link (atzg +ℤ pos 5) (ende -ℤ pos 3) bottom_y
    ++ link (ende +ℤ pos 3) (tull -ℤ pos 5) bottom_y
    ++ link (tull +ℤ pos 5) (hietz -ℤ pos 3) bottom_y
    ++ (set_role_font network_label ∷ set_text_color 1 ∷ label hbf label_y (key "Hbf"))
    ++ label atzg label_y (key "Atzg")
    ++ label ende label_y (key "Ende")
    ++ label tull label_y (key "Tull")
    ++ label hietz label_y (key "Hietz")
