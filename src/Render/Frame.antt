-- ===== src/Render/Frame.antt =====
-- src/render/frame_buffer.h: a frame of one bit for each pixel, the leftmost pixel in the highest bit.
pub mod Bit
pub mod Pixel
pub mod Rect
use Prim.Native.Nat.{bit_and, bit_or}
use bustaferl.Prelude.{
  ℕ, zero, suc, ◌+◌, ◌-◌, ◌*◌, ◌/◌, ◌%◌, ◌^◌, ◌≤◌, ◌<◌, ◌≡◌, ◌≢◌, refl, sym, ap, ◌∙◌, subst, Bool,
  true, false, List, [], ◌∷◌, arith, leb, ltb, ltb→lt, ◌==◌, ==_iff, ◌&&◌, ◌||◌, not, if◌then◌else◌,
  length, get_or, set, replicate, Bool-cases, inl, inr, All, length-set,
}
use bustaferl.Prelude.Int.{ℤ, pos, negsuc, ◌+ℤ◌}

-- FrameBuffer<W, H>, its bytes; W and H are arguments.
abbrev pub FrameBuffer : Type 0
FrameBuffer = List ℕ

unfoldable pub clear : ℕ → ℕ → Bool → FrameBuffer
clear w h white = replicate (w * h / 8) (if white then 255 else 0)

-- x < 0 || x >= W
abbrev pub out_of : ℕ → ℤ → Bool
out_of w (pos n) = leb w n
out_of w (negsuc n) = true

abbrev pub number : ℤ → ℕ
number (pos n) = n
number (negsuc n) = 0

-- y * (W / 8) + (x / 8), of a place inside.
abbrev pub byte_at : ℕ → ℤ → ℤ → ℕ
byte_at w x y = number y * (w / 8) + number x / 8

-- 0x80 >> (x & 7)
abbrev pub mask_of : ℕ → ℕ
mask_of k = 128 / 2 ^ k

-- buf_[idx] |= mask, or buf_[idx] &= ~mask, of a byte.
abbrev pub put_bit : ℕ → ℕ → Bool → ℕ
put_bit byte mask white = if white then bit_or byte mask else bit_and byte (255 - mask)

abbrev pub has_bit : ℕ → ℕ → Bool
has_bit byte mask = not (bit_and byte mask == 0)

unfoldable pub set_pixel : ℕ → ℕ → ℤ → ℤ → Bool → FrameBuffer → FrameBuffer
set_pixel w h x y white buf =
    let idx = byte_at w x y in
    if out_of w x || out_of h y
    then buf
    else set buf idx (put_bit (get_or buf idx 0) (mask_of (number x % 8)) white)

unfoldable pub get_pixel : ℕ → ℕ → FrameBuffer → ℤ → ℤ → Bool
get_pixel w h buf x y =
    if out_of w x || out_of h y
    then true
    else has_bit (get_or buf (byte_at w x y) 0) (mask_of (number x % 8))

-- for (xx = x; xx < x + n; ++xx) setPixel(xx, y, white); a negative width draws nothing.
unfoldable pub fill_row : ℕ → ℕ → ℕ → ℤ → ℤ → Bool → FrameBuffer → FrameBuffer
fill_row w h zero x y white buf = buf
fill_row w h (suc n) x y white buf =
    fill_row w h n (x +ℤ pos 1) y white (set_pixel w h x y white buf)

unfoldable pub fill_rows : ℕ → ℕ → ℕ → ℕ → ℤ → ℤ → Bool → FrameBuffer → FrameBuffer
unfolding fill_row
fill_rows w h cols zero x y white buf = buf
fill_rows w h cols (suc rows) x y white buf =
    fill_rows w h cols rows x (y +ℤ pos 1) white (fill_row w h cols x y white buf)

unfoldable pub fill_rect : ℕ → ℕ → ℤ → ℤ → ℤ → ℤ → Bool → FrameBuffer → FrameBuffer
unfolding fill_rows
fill_rect w h x y cols rows white buf = fill_rows w h (number cols) (number rows) x y white buf
