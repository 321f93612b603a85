-- ===== src/Refresh/Scan.antt =====
-- src/logic/refresh_planner.cpp, the loops of `diffBbox`.
use Prim.Native.Nat.{bit_xor}
use bustaferl.Prelude.{
  ℕ, zero, suc, ◌+◌, ◌*◌, ◌/◌, Bool, true, List, Option, none, some, ltb, ◌==◌, not, if◌then◌else◌,
  get_or,
}

-- `none` is the -1 that the maxima start with.
pub record Extent : Type 0 where
  pub min_x : ℕ
  pub min_y : ℕ
  pub max_x : Option ℕ
  pub max_y : Option ℕ

-- `v > m`
abbrev pub above : ℕ → Option ℕ → Bool
above v none = true
above v (some m) = ltb m v

unfoldable pub widen : ℕ → ℕ → Extent → Extent
widen xb y e =
    let x0 = xb * 8 in
    record {
      min_x = if ltb x0 e.min_x then x0 else e.min_x;
      min_y = if ltb y e.min_y then y else e.min_y;
      max_x = if above (x0 + 7) e.max_x then some (x0 + 7) else e.max_x;
      max_y = if above y e.max_y then some y else e.max_y;
    }

-- The byte at row `y` and byte column `xb` differs.
abbrev pub differs : List ℕ → List ℕ → ℕ → ℕ → ℕ → Bool
differs a b stride xb y =
    not (bit_xor (get_or a (y * stride + xb) 0) (get_or b (y * stride + xb) 0) == 0)

unfoldable pub scan_byte : List ℕ → List ℕ → ℕ → ℕ → ℕ → Extent → Extent
scan_byte a b stride xb y e = if differs a b stride xb y then widen xb y e else e

unfoldable pub scan_row : List ℕ → List ℕ → ℕ → ℕ → ℕ → ℕ → Extent → Extent
scan_row a b stride zero xb y e = e
scan_row a b stride (suc rounds) xb y e =
    scan_row a b stride rounds (suc xb) y (scan_byte a b stride xb y e)

unfoldable pub scan_rows : List ℕ → List ℕ → ℕ → ℕ → ℕ → Extent → Extent
scan_rows a b stride zero y e = e
scan_rows a b stride (suc rounds) y e =
    scan_rows a b stride rounds (suc y) (scan_row a b stride stride 0 y e)

unfoldable pub diff_extent : List ℕ → List ℕ → ℕ → ℕ → Extent
diff_extent a b w h =
    scan_rows a b (w / 8) h 0 (record { min_x = w; min_y = h; max_x = none; max_y = none })
