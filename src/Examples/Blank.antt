-- ===== src/Examples/Blank.antt =====
-- The saved frame of a blank board: 15000 bytes of 0 and their code.
use bustaferl.Prelude.{
  ℕ, zero, suc, ◌-◌, ◌≡◌, refl, ◌∙◌, ap, true, false, List, [], ◌∷◌, get_or, set, replicate, ◌==◌,
  length, leb,
}
use bustaferl.Rle.{undo_rows, rle_decode, decode_loop, rle_decode_delta}
use bustaferl.Cycle.{World}
use bustaferl.Cycle.Store.{load_framebuffer}
use bustaferl.Cycle.Push.{prev_frame}

abbrev dark : ℕ
dark = 0

get_or-zeros : (n i : ℕ) → get_or (replicate n dark) i dark ≡ dark
get_or-zeros zero i = refl
get_or-zeros (suc n) zero = refl
get_or-zeros (suc n) (suc i) = get_or-zeros n i

set-zeros : (n i : ℕ) → set (replicate n dark) i dark ≡ replicate n dark
set-zeros zero i = refl
set-zeros (suc n) zero = refl
set-zeros (suc n) (suc i) = ap (λ xs. dark ∷ xs) (set-zeros n i)

undo_rows-zeros :
    (rounds i stride n : ℕ) → undo_rows rounds i stride (replicate n dark) ≡ replicate n dark
unfolding undo_rows
undo_rows-zeros zero i stride n = refl
undo_rows-zeros (suc rounds) i stride n =
    rw (get_or-zeros n i, get_or-zeros n (i - stride), set-zeros n i)
      (undo_rows-zeros rounds (suc i) stride n)

length-replicate : (n : ℕ) → length (replicate n dark) ≡ n
length-replicate zero = refl
length-replicate (suc n) = ap suc (length-replicate n)

abbrev pub blank_frame : List ℕ
blank_frame = replicate 15000 0

abbrev runs : ℕ → List ℕ
runs zero = 210 ∷ 0 ∷ []
runs (suc n) = 255 ∷ 0 ∷ runs n

abbrev pub blank_code : List ℕ
blank_code = runs 58

rle_decode-blank : rle_decode blank_code 15000 ≡ blank_frame
unfolding rle_decode decode_loop
rle_decode-blank = refl

decoded-zeros :
    (code : List ℕ) (n : ℕ)
    → rle_decode code n ≡ replicate n dark
    → rle_decode_delta code 50 n ≡ replicate n dark
unfolding rle_decode_delta
decoded-zeros code n e =
    rw (e, rle_decode_delta) (undo_rows-zeros (length (replicate n dark) - 50) 50 50 n)

loaded :
    (w : World) (frame : List ℕ)
    → w.saved_meta.framebuffer_valid ≡ true
    → (length w.saved_code == 0) ≡ false
    → leb (length w.saved_code) 7168 ≡ true
    → rle_decode_delta w.saved_code 50 15000 ≡ frame
    → load_framebuffer w 15000 ≡ frame
unfolding load_framebuffer
loaded w frame a b c e = rw (a, b, c, load_framebuffer) e

found :
    (w : World) (frame : List ℕ)
    → w.meta.framebuffer_valid ≡ true
    → load_framebuffer w 15000 ≡ frame
    → (length frame == 15000) ≡ true
    → prev_frame w ≡ (true, frame)
unfolding prev_frame load_framebuffer
found w frame a e l = rw (a, e, l, prev_frame) refl

-- What a push starts from, in a world whose slot holds the blank frame.
pub prev_frame-blank :
    (w : World)
    → w.meta.framebuffer_valid ≡ true
    → w.saved_meta.framebuffer_valid ≡ true
    → w.saved_code ≡ blank_code
    → prev_frame w ≡ (true, blank_frame)
prev_frame-blank w a b c =
    found w blank_frame a
      (loaded w blank_frame b (ap (λ (x : List ℕ). length x == 0) c)
        (ap (λ (x : List ℕ). leb (length x) 7168) c)
        (ap (λ (x : List ℕ). rle_decode_delta x 50 15000) c
          ∙ decoded-zeros blank_code 15000 rle_decode-blank))
      (ap (λ n. n == 15000) (length-replicate 15000))
