-- ===== src/Cycle/Store.antt =====
-- src/hal/Esp32PersistentStore.cpp: the slots in RTC memory that outlast deep sleep, over the run-length
-- code. A slot whose magic number does not match reads as its default, which is what the world holds.
use bustaferl.Prelude.{
  ℕ, ◌<◌, ◌≤◌, ◌≡◌, ◌∙◌, Bool, true, List, [], arith, leb, ◌==◌, ◌||◌, not, if◌then◌else◌, length,
}
use bustaferl.Rle.{rle_encode_delta, rle_decode_delta, delta, tabulate}
use bustaferl.Rle.RoundTrip.{code_size}
use bustaferl.Rle.Delta.{
  length-rle_encode_delta, code_size_pos, length-tabulate, rle_decode_delta-rle_encode_delta,
}
use bustaferl.Cycle.{World, frame_saved, emit}

abbrev pub fb_stride : ℕ
fb_stride = 50

abbrev pub frame_bytes : ℕ
frame_bytes = 15000

abbrev pub rle_cap : ℕ
rle_cap = 7168

-- The result, and the world after it.
unfoldable pub save_framebuffer : World → Bool × World
save_framebuffer w =
    let code = rle_encode_delta w.curr fb_stride rle_cap in
    let saved = not (length code == 0) in
    (
      saved,
      record (emit frame_saved w) {
        saved_code = code;
        saved_meta = record w.saved_meta { framebuffer_valid = saved };
      },
    )

-- An empty result is the source's 0.
unfoldable pub load_framebuffer : World → ℕ → List ℕ
load_framebuffer w out_cap =
    if not w.saved_meta.framebuffer_valid
    then []
    else if length w.saved_code == 0 || not (leb (length w.saved_code) rle_cap)
    then []
    else rle_decode_delta w.saved_code fb_stride out_cap

load_framebuffer_lem :
    (w : World) (out_cap : ℕ)
    → w.saved_meta.framebuffer_valid ≡ true
    → 0 < length w.saved_code
    → length w.saved_code ≤ rle_cap
    → load_framebuffer w out_cap ≡ rle_decode_delta w.saved_code fb_stride out_cap
unfolding load_framebuffer
load_framebuffer_lem w out_cap v p q = ground arith

saved_iff : (n : ℕ) → 0 < n → not (n == 0) ≡ true
saved_iff n h = ground arith

-- What was saved is what is loaded: a frame that is not empty, whose code fits the slot, is saved with
-- success, and read back whole into any buffer that holds it.
pub load-save_framebuffer :
    (w : World) (out_cap : ℕ)
    → 0 < length w.curr
    → length w.curr ≤ out_cap
    → code_size (tabulate (delta w.curr fb_stride) 0 (length w.curr)) ≤ rle_cap
    → ((save_framebuffer w).0 ≡ true) × (load_framebuffer (save_framebuffer w).1 out_cap ≡ w.curr)
unfolding save_framebuffer
load-save_framebuffer w out_cap some_frame room fits =
    let xs = tabulate (delta w.curr fb_stride) 0 (length w.curr) in
    let n = length-rle_encode_delta w.curr fb_stride rle_cap (omega arith) fits in
    let l = length-tabulate (delta w.curr fb_stride) 0 (length w.curr) in
    let p = code_size_pos xs (omega (arith, l, some_frame)) in
    let d =
      rle_decode_delta-rle_encode_delta w.curr fb_stride rle_cap out_cap (omega arith) fits room in
    let some_code : 0 < length (rle_encode_delta w.curr fb_stride rle_cap) = omega (arith, n, p) in
    (
      saved_iff _ some_code,
      load_framebuffer_lem (save_framebuffer w).1 out_cap (saved_iff _ some_code) some_code
            (omega (arith, n, fits))
          ∙ d,
    )
