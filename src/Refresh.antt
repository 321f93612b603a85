-- ===== src/Refresh.antt =====
-- src/logic/refresh_planner.cpp, and the Bbox of src/hal/IDisplay.h: what of a new frame reaches the
-- panel. A framebuffer is the list of its bytes, row by row, eight pixels to a byte.
pub mod Scan
pub mod Cover
pub mod Plan
pub mod Apply
use bustaferl.Prelude.{
  ℕ, zero, suc, ◌+◌, ◌-◌, ◌*◌, ◌/◌, Bool, true, false, List, Option, none, some, leb, ◌==◌, ◌&&◌,
  ◌||◌, if◌then◌else◌, get_or,
}
use Scan.{Extent, diff_extent}

abbrev pub pixels_per_byte : ℕ
pixels_per_byte = 8

pub record Bbox : Type 0 where
  pub x : ℕ
  pub y : ℕ
  pub w : ℕ
  pub h : ℕ

abbrev pub no_bbox : Bbox
no_bbox = record { x = 0; y = 0; w = 0; h = 0 }

abbrev pub is_empty : Bbox → Bool
is_empty b = b.w == 0 || b.h == 0

-- `v & ~BYTE_PIXEL_MASK`
abbrev pub byte_floor : ℕ → ℕ
byte_floor v = v / pixels_per_byte * pixels_per_byte

-- The box of an extent. `max_x` and `max_y` are set together; `none` is the source's -1.
unfoldable pub extent_bbox : Extent → Option ℕ → Option ℕ → Bbox
extent_bbox e none max_y = no_bbox
extent_bbox e (some max_x) none = no_bbox
extent_bbox e (some max_x) (some max_y) = record {
  x = byte_floor e.min_x;
  y = e.min_y;
  w = byte_floor (max_x + 1 - byte_floor e.min_x + 7);
  h = max_y + 1 - e.min_y;
}

unfoldable pub diff_bbox : List ℕ → List ℕ → ℕ → ℕ → Bbox
unfolding extent_bbox
diff_bbox a b w h = let e = diff_extent a b w h in extent_bbox e e.max_x e.max_y

pub data RefreshKind : Type 0 where
  no_refresh partial light_full deep_clean : RefreshKind

pub record RefreshDecision : Type 0 where
  pub kind : RefreshKind
  pub bbox : Bbox

pub record RefreshConfig : Type 0 where
  pub width : ℕ
  pub height : ℕ
  pub light_full_every_s : ℕ
  pub partial_hardcap : ℕ

-- The RefreshConfig that `renderAndPush` uses.
abbrev pub default_refresh_config : RefreshConfig
default_refresh_config = record {
  width = 400;
  height = 300;
  light_full_every_s = 3600;
  partial_hardcap = 15;
}

abbrev pub decide : RefreshKind → RefreshDecision
decide k = record { kind = k; bbox = no_bbox }

-- std::memcmp(a, b, n) == 0, from byte `i` on.
unfoldable pub same_bytes : ℕ → ℕ → List ℕ → List ℕ → Bool
same_bytes zero i a b = true
same_bytes (suc n) i a b = get_or a i 0 == get_or b i 0 && same_bytes n (suc i) a b

-- `now - last_light_full >= every` is over signed times.
abbrev pub time_trigger : ℕ → ℕ → ℕ → Bool
time_trigger now last_light_full every = last_light_full == 0 || leb (last_light_full + every) now

unfoldable pub plan_refresh :
    List ℕ → List ℕ → Bool → ℕ → ℕ → ℕ → RefreshConfig → Bool → RefreshDecision
plan_refresh prev curr prev_valid now last_light_full partial_count cfg panel_ram_untrusted =
    let box = diff_bbox prev curr cfg.width cfg.height in
    if prev_valid
    then if same_bytes (cfg.width * cfg.height / 8) 0 prev curr
      then decide no_refresh
      else if time_trigger now last_light_full cfg.light_full_every_s
          || leb cfg.partial_hardcap partial_count
          || panel_ram_untrusted
      then decide light_full
      else record { kind = if is_empty box then no_refresh else partial; bbox = box }
    else decide light_full
