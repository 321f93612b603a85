-- ===== src/Refresh/Cover.antt =====
-- The extent that the loops find: it covers every byte that differs, and stays on the panel.
use native.Mathlib.Decide.{ℕ_discrete}
use bustaferl.Prelude.{
  ℕ, zero, suc, ◌+◌, ◌*◌, ◌/◌, ◌%◌, ◌≤◌, ◌<◌, ◌≡◌, refl, true, List, Option, none, some, arith,
  Bool-cases, inl, inr,
}
use bustaferl.Refresh.Scan.{Extent, widen, differs, scan_byte, scan_row, scan_rows, diff_extent}

abbrev pub AtMost : ℕ → Option ℕ → Type 0
AtMost v none = ⊥
AtMost v (some m) = v ≤ m

-- The byte column `xb` of row `y` lies in the extent.
pub record Covers (xb y : ℕ) (e : Extent) : Type 0 where
  pub left : e.min_x ≤ xb * 8
  pub right : AtMost (xb * 8 + 7) e.max_x
  pub top : e.min_y ≤ y
  pub bottom : AtMost y e.max_y

widen-Covers : (xb y : ℕ) (e : Extent) → Covers xb y (widen xb y e)
unfolding widen
widen-Covers xb y e = ground arith

widen-keeps : (xb y xb' y' : ℕ) (e : Extent) → Covers xb y e → Covers xb y (widen xb' y' e)
unfolding widen
widen-keeps xb y xb' y' e c = ground arith

-- The extent found so far, on a panel of `w` by `h` pixels: nothing yet, or whole bytes on the panel.
abbrev pub OnPanel : ℕ → ℕ → Extent → Option ℕ → Option ℕ → Type 0
OnPanel w h e none none = (e.min_x ≡ w) × (e.min_y ≡ h)
OnPanel w h e none (some n) = ⊥
OnPanel w h e (some m) none = ⊥
OnPanel w h e (some m) (some n) =
    (m < w) × (m % 8 ≡ 7) × (e.min_x % 8 ≡ 0) × (e.min_x ≤ m) × (e.min_y ≤ n) × (n < h)

abbrev pub IsOnPanel : ℕ → ℕ → Extent → Type 0
IsOnPanel w h e = OnPanel w h e e.max_x e.max_y

widen-IsOnPanel :
    (w h xb y : ℕ) (e : Extent)
    → w % 8 ≡ 0
    → xb < w / 8
    → y < h
    → IsOnPanel w h e
    → IsOnPanel w h (widen xb y e)
unfolding widen
widen-IsOnPanel w h xb y e aligned px py p = ground arith

module _ (a b : List ℕ) (stride : ℕ) where
  scan_byte_keeps :
      (xb y xb' y' : ℕ) (e : Extent) → Covers xb y e → Covers xb y (scan_byte a b stride xb' y' e)
  unfolding scan_byte
  scan_byte_keeps xb y xb' y' e c = elim (Bool-cases (differs a b stride xb' y')) [
    | inl d ↦ rw d (widen-keeps xb y xb' y' e c)
    | inr d ↦ rw d c
  ]

  scan_byte-Covers :
      (xb y : ℕ) (e : Extent)
      → differs a b stride xb y ≡ true
      → Covers xb y (scan_byte a b stride xb y e)
  unfolding scan_byte
  scan_byte-Covers xb y e d = rw d (widen-Covers xb y e)

  scan_row_keeps :
      (rounds xb y xb' y' : ℕ) (e : Extent)
      → Covers xb y e
      → Covers xb y (scan_row a b stride rounds xb' y' e)
  unfolding scan_row
  scan_row_keeps zero xb y xb' y' e c = c
  scan_row_keeps (suc rounds) xb y xb' y' e c =
      scan_row_keeps rounds xb y (suc xb') y' _ (scan_byte_keeps xb y xb' y' e c)

  scan_row-Covers :
      (rounds xb y xb' : ℕ) (e : Extent)
      → xb' ≤ xb
      → xb < xb' + rounds
      → differs a b stride xb y ≡ true
      → Covers xb y (scan_row a b stride rounds xb' y e)
  unfolding scan_row
  scan_row-Covers zero xb y xb' e lo hi d = absurd (omega arith)
  scan_row-Covers (suc rounds) xb y xb' e lo hi d = elim (ℕ_discrete xb' xb) [
    | yes here ↦ rw here (scan_row_keeps rounds xb y (suc xb) y _ (scan_byte-Covers xb y e d))
    | no away ↦
        scan_row-Covers rounds xb y (suc xb') (scan_byte a b stride xb' y e) (omega arith)
          (omega arith) d
  ]

  scan_rows_keeps :
      (rounds xb y y' : ℕ) (e : Extent)
      → Covers xb y e
      → Covers xb y (scan_rows a b stride rounds y' e)
  unfolding scan_rows
  scan_rows_keeps zero xb y y' e c = c
  scan_rows_keeps (suc rounds) xb y y' e c =
      scan_rows_keeps rounds xb y (suc y') _ (scan_row_keeps stride xb y 0 y' e c)

  scan_rows-Covers :
      (rounds xb y y' : ℕ) (e : Extent)
      → xb < stride
      → y' ≤ y
      → y < y' + rounds
      → differs a b stride xb y ≡ true
      → Covers xb y (scan_rows a b stride rounds y' e)
  unfolding scan_rows
  scan_rows-Covers zero xb y y' e x lo hi d = absurd (omega arith)
  scan_rows-Covers (suc rounds) xb y y' e x lo hi d = elim (ℕ_discrete y' y) [
    | yes here ↦ rw here (
        scan_rows_keeps rounds xb y (suc y) _
          (scan_row-Covers stride xb y 0 e (omega arith) (omega arith) d))
    | no away ↦ scan_rows-Covers rounds xb y (suc y') _ x (omega arith) (omega arith) d
  ]

  scan_row-IsOnPanel :
      (w h rounds xb y : ℕ) (e : Extent)
      → w % 8 ≡ 0
      → xb + rounds ≤ w / 8
      → y < h
      → IsOnPanel w h e
      → IsOnPanel w h (scan_row a b stride rounds xb y e)
  unfolding scan_row scan_byte
  scan_row-IsOnPanel w h zero xb y e al px py p = p
  scan_row-IsOnPanel w h (suc rounds) xb y e al px py p =
      scan_row-IsOnPanel w h rounds (suc xb) y _ al (omega arith) py
        (elim (Bool-cases (differs a b stride xb y)) [
          | inl d ↦ rw d (widen-IsOnPanel w h xb y e al (omega arith) py p)
          | inr d ↦ rw d p
        ])

  scan_rows-IsOnPanel :
      (w h rounds y : ℕ) (e : Extent)
      → w % 8 ≡ 0
      → stride ≡ w / 8
      → y + rounds ≤ h
      → IsOnPanel w h e
      → IsOnPanel w h (scan_rows a b stride rounds y e)
  unfolding scan_rows
  scan_rows-IsOnPanel w h zero y e al st py p = p
  scan_rows-IsOnPanel w h (suc rounds) y e al st py p =
      scan_rows-IsOnPanel w h rounds (suc y) _ al st (omega arith)
        (scan_row-IsOnPanel w h stride 0 y e al (omega arith) (omega arith) p)

module _ (a b : List ℕ) (w h : ℕ) where
  pub diff_extent-Covers :
      (xb y : ℕ)
      → xb < w / 8
      → y < h
      → differs a b (w / 8) xb y ≡ true
      → Covers xb y (diff_extent a b w h)
  unfolding diff_extent
  diff_extent-Covers xb y x yh d =
      scan_rows-Covers a b (w / 8) h xb y 0 _ x (omega arith) (omega arith) d

  pub diff_extent-IsOnPanel : w % 8 ≡ 0 → IsOnPanel w h (diff_extent a b w h)
  unfolding diff_extent
  diff_extent-IsOnPanel al =
      scan_rows-IsOnPanel a b (w / 8) w h h 0 _ al refl (omega arith) (refl, refl)
