-- ===== src/Render/Screens.antt =====
-- src/render/display_state.cpp: the screens that fill the panel, and renderFrame of src/render/layout.cpp,
-- which chooses one. The bitmaps of 90 by 90 pixels are arguments.
use bustaferl.Prelude.{ℕ, zero, suc, ◌+◌, ◌-◌, ◌*◌, List, [], ◌∷◌, ◌++◌, ltb, if◌then◌else◌, length}
use bustaferl.Prelude.Int.{ℤ, pos, ◌-ℤ◌, half_int}
use bustaferl.Parse.{Text, key}
use bustaferl.Ssid.{net_ssid_buf, SsidCaseMismatch, copy_text}
use bustaferl.Screen.{boot, normal, offline, auth, wifi_auth, RenderInput}
use bustaferl.Render.{
  FontRole, fullscreen_title, fullscreen_sub, fullscreen_foot, Drawing, fill_rect, set_cursor,
  set_text_color, set_role_font, print,
}
use bustaferl.Render.Digits.{Clock, decimal, decimal_int, format_hhmm}
use bustaferl.Render.Glyph.{GlyphBitmap, draw_custom_glyph}
use bustaferl.Render.Board.{Width, fb_w, fb_h}
use bustaferl.Render.Layout.{draw_board}

pub record Glyphs : Type 0 where
  pub dotted_circle : GlyphBitmap
  pub exclamation : GlyphBitmap
  pub para_nine : GlyphBitmap

-- A network in range, and its RSSI.
pub record AccessPoint : Type 0 where
  pub ssid : Text
  pub rssi_dbm : ℤ

-- What the screen without a network is told besides the fields of RenderInput that the cycle composes.
pub record Surroundings : Type 0 where
  pub visible_aps : List AccessPoint
  pub wanted_ssids : List Text
  pub case_mismatch : SsidCaseMismatch

abbrev pub glyph_y : ℕ
glyph_y = 64

abbrev pub title_y : ℕ
title_y = 178

abbrev pub sub_y : ℕ
sub_y = 206

abbrev pub foot_y : ℕ
foot_y = 288

abbrev pub sub_buf_cap : ℕ
sub_buf_cap = 48

abbrev pub offline_wanted_y : ℕ
offline_wanted_y = 226

abbrev pub offline_found_y0 : ℕ
offline_found_y0 = 242

-- "·" in UTF-8
abbrev dot : Text
dot = 194 ∷ 183 ∷ []

abbrev pub draw_glyph : GlyphBitmap → Drawing
draw_glyph glyph = draw_custom_glyph (pos 155) (pos glyph_y) glyph 1

abbrev pub draw_centered : Width → FontRole → ℕ → Text → Drawing
draw_centered width role y text =
    set_role_font role
    ∷ set_text_color 1
    ∷ set_cursor (half_int (pos fb_w -ℤ pos (width role text))) (pos y)
    ∷ print text
    ∷ []

unfoldable pub draw_brownout_screen : Width → Glyphs → Text → Drawing
draw_brownout_screen width glyphs reason_text =
    fill_rect (pos 0) (pos 0) (pos fb_w) (pos fb_h) 0 ∷ draw_glyph glyphs.exclamation
    ++ draw_centered width fullscreen_title title_y reason_text
    ++ draw_centered width fullscreen_sub sub_y (key "ungeplanter Neustart")

-- An empty version is a null pointer.
abbrev draw_version : Width → Text → Drawing
draw_version width [] = []
draw_version width (c ∷ cs) = draw_centered width fullscreen_foot foot_y (c ∷ cs)

unfoldable pub draw_boot : Width → Glyphs → Text → Drawing
draw_boot width glyphs version_str =
    draw_glyph glyphs.dotted_circle
    ++ draw_centered width fullscreen_title title_y (key "BUSTAFERL")
    ++ draw_centered width fullscreen_sub sub_y (key "l" ++ (195 ∷ 164 ∷ key "dt Fahrplan..."))
    ++ draw_version width version_str

-- Schreibweise? "configured" vs "visible"
abbrev pub mismatch_text : Text → Text → Text
mismatch_text configured visible =
    key "Schreibweise? "
    ++ (34 ∷ (configured ++ (34 ∷ (key " vs " ++ (34 ∷ (visible ++ (34 ∷ [])))))))

abbrev pub mismatch_line : SsidCaseMismatch → Text
mismatch_line m = copy_text 90 (mismatch_text m.configured m.visible)

-- The loop over the further networks; `n` is the length that the line would have without its limit.
unfoldable pub wanted_more : ℕ → Text → List Text → Text
wanted_more n line [] = line
wanted_more n line (w ∷ ws) =
    let part = key ", " ++ w in
    let rest = wanted_more (n + length part) (line ++ copy_text (sub_buf_cap - n) part) ws in
    if ltb n sub_buf_cap then rest else line

unfoldable pub wanted_line : Text → List Text → Text
unfolding wanted_more
wanted_line first more =
    let line = key "gesucht: " ++ first in
    wanted_more (length line) (copy_text sub_buf_cap line) more

abbrev pub draw_wanted_ssids : Width → List Text → Drawing
draw_wanted_ssids width [] = []
draw_wanted_ssids width (w ∷ ws) =
    draw_centered width fullscreen_foot offline_wanted_y (wanted_line w ws)

-- The rows of the list, at most three.
abbrev pub ap_rows : ℕ → Width → ℕ → List AccessPoint → Drawing
ap_rows zero width i aps = []
ap_rows (suc rows) width i [] = []
ap_rows (suc rows) width i (ap ∷ aps) =
    draw_centered width fullscreen_foot (offline_found_y0 + (i + 1) * 12)
      (copy_text sub_buf_cap (ap.ssid ++ key "  " ++ decimal_int ap.rssi_dbm ++ key "dBm"))
    ++ ap_rows rows width (i + 1) aps

abbrev pub draw_visible_aps : Width → List AccessPoint → Drawing
draw_visible_aps width [] =
    draw_centered width fullscreen_foot offline_found_y0 (key "Keine Netze in Reichweite")
draw_visible_aps width (ap ∷ aps) =
    draw_centered width fullscreen_foot offline_found_y0 (key "Gefundene Netze:")
    ++ ap_rows 3 width 0 (ap ∷ aps)

unfoldable pub draw_offline : Width → Clock → Glyphs → ℕ → ℕ → Surroundings → Drawing
draw_offline width local glyphs last_fetch_at retry_in_s around =
    let sub =
      if ltb 0 last_fetch_at
      then copy_text sub_buf_cap (key "Letzte Aktualisierung " ++ format_hhmm local last_fetch_at)
      else key "Noch nie aktualisiert" in
    let foot =
      if ltb 0 retry_in_s
      then key "WLAN " ++ dot ++ key " Retry in " ++ decimal retry_in_s ++ key "s"
      else key "WLAN " ++ dot ++ key " retrying..." in
    draw_glyph glyphs.exclamation
    ++ draw_centered width fullscreen_title title_y (key "KEIN EMPFANG")
    ++ draw_centered width fullscreen_sub sub_y sub
    ++ (if around.case_mismatch.found
        then draw_centered width fullscreen_foot offline_wanted_y
            (mismatch_line around.case_mismatch)
        else draw_wanted_ssids width around.wanted_ssids)
    ++ draw_visible_aps width around.visible_aps
    ++ draw_centered width fullscreen_foot foot_y (copy_text sub_buf_cap foot)

abbrev aid_or_dashes : Text → Text
aid_or_dashes [] = key "---"
aid_or_dashes (c ∷ cs) = c ∷ cs

unfoldable pub draw_auth : Width → Glyphs → Text → ℕ → Drawing
draw_auth width glyphs aid_short http_code =
    let code = if ltb 0 http_code then decimal http_code else key "---" in
    let foot = key "AID " ++ aid_or_dashes aid_short ++ key " " ++ dot ++ key " ERR " ++ code in
    draw_glyph glyphs.para_nine
    ++ draw_centered width fullscreen_title title_y (key "AUTH-FEHLER")
    ++ draw_centered width fullscreen_sub sub_y
        (key "Client-ID veraltet " ++ dot ++ key " bitte neu registrieren")
    ++ draw_centered width fullscreen_foot foot_y (copy_text sub_buf_cap foot)

abbrev wrong_password_text : List Text → Text
wrong_password_text [] = key "Falsches WLAN-Passwort"
wrong_password_text (w ∷ ws) =
    copy_text (32 + net_ssid_buf)
      (key "Falsches Passwort f" ++ (195 ∷ 188 ∷ key "r ") ++ (34 ∷ w) ++ (34 ∷ []))

unfoldable pub draw_wifi_auth : Width → Glyphs → List Text → Drawing
draw_wifi_auth width glyphs wanted_ssids =
    draw_glyph glyphs.exclamation
    ++ draw_centered width fullscreen_title title_y (key "WLAN-PASSWORT")
    ++ draw_centered width fullscreen_sub sub_y (wrong_password_text wanted_ssids)
    ++ draw_centered width fullscreen_foot foot_y
        (key "Passwort in secrets.h korrigieren " ++ dot ++ key " kein Retry")

-- The calls on a cleared frame.
unfoldable pub render_frame : Width → Clock → Glyphs → Surroundings → RenderInput → Drawing
render_frame width local glyphs around input = elim input.state [
  | boot ↦ draw_boot width glyphs input.firmware_version
  | offline ↦ draw_offline width local glyphs input.last_fetch_at input.retry_in_s around
  | auth ↦ draw_auth width glyphs input.auth_aid_short input.auth_http_code
  | wifi_auth ↦ draw_wifi_auth width glyphs around.wanted_ssids
  | normal ↦ draw_board width local input.snapshot
]
