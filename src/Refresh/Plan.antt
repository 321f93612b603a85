-- ===== src/Refresh/Plan.antt =====
-- What a refresh decision of `planRefresh` puts on the glass.
use Prim.Native.Nat.{bit_xor}
use native.Mathlib.Decide.{ℕ_discrete}
use bustaferl.Prelude.{
  ℕ, zero, suc, ◌+◌, ◌*◌, ◌/◌, ◌%◌, ◌≤◌, ◌<◌, ◌≡◌, ◌≢◌, refl, ap, sym, ◌∙◌, Bool, true, false, List,
  Option, none, some, arith, ltb, leb, ◌==◌, not, ◌&&◌, ◌||◌, if◌then◌else◌, get_or, Bool-cases,
  inl, inr, ◌⊎◌,
}
use bustaferl.Rle.Xor.{bit_xor_twice, zero-bit_xor}
use bustaferl.Refresh.Scan.{Extent, differs, diff_extent}
use bustaferl.Refresh.Cover.{OnPanel, AtMost, diff_extent-Covers, diff_extent-IsOnPanel}
use bustaferl.Refresh.{
  Bbox, is_empty, extent_bbox, diff_bbox, RefreshKind, no_refresh, partial, light_full, deep_clean,
  RefreshDecision, RefreshConfig, same_bytes, plan_refresh, time_trigger,
}

-- The byte column `xb` of row `y` lies in the box.
abbrev pub inside : ℕ → ℕ → Bbox → Bool
inside xb y b =
    (leb b.x (xb * 8) && leb (xb * 8 + 8) (b.x + b.w)) && (leb b.y y && ltb y (b.y + b.h))

-- The box is made of whole bytes of the panel.
pub record FitsPanel (w h : ℕ) (b : Bbox) : Type 0 where
  pub x_aligned : b.x % 8 ≡ 0
  pub w_aligned : b.w % 8 ≡ 0
  pub x_fits : b.x + b.w ≤ w
  pub y_fits : b.y + b.h ≤ h

extent_bbox-inside :
    (w h xb y : ℕ) (e : Extent) (mx my : Option ℕ)
    → OnPanel w h e mx my
    → e.min_x ≤ xb * 8
    → AtMost (xb * 8 + 7) mx
    → e.min_y ≤ y
    → AtMost y my
    → inside xb y (extent_bbox e mx my) ≡ true
unfolding extent_bbox
extent_bbox-inside w h xb y e none my p l r t b = absurd r
extent_bbox-inside w h xb y e (some mx) none p l r t b = absurd b
extent_bbox-inside w h xb y e (some mx) (some my) p l r t b = ground arith

extent_bbox-FitsPanel :
    (w h : ℕ) (e : Extent) (mx my : Option ℕ)
    → OnPanel w h e mx my
    → w % 8 ≡ 0
    → FitsPanel w h (extent_bbox e mx my)
unfolding extent_bbox
extent_bbox-FitsPanel w h e none none p al = omega arith
extent_bbox-FitsPanel w h e none (some my) p al = absurd p
extent_bbox-FitsPanel w h e (some mx) none p al = absurd p
extent_bbox-FitsPanel w h e (some mx) (some my) p al = omega arith

module _ (a b : List ℕ) (w h : ℕ) (aligned : w % 8 ≡ 0) where
  -- The box of the differences is made of whole bytes of the panel, and every byte that differs lies
  -- in it. The width of the panel is a multiple of eight.
  pub diff_bbox-FitsPanel : FitsPanel w h (diff_bbox a b w h)
  unfolding diff_bbox
  diff_bbox-FitsPanel =
      extent_bbox-FitsPanel w h (diff_extent a b w h) _ _ (diff_extent-IsOnPanel a b w h aligned)
        aligned

  pub diff_bbox-inside :
      (xb y : ℕ)
      → xb < w / 8
      → y < h
      → differs a b (w / 8) xb y ≡ true
      → inside xb y (diff_bbox a b w h) ≡ true
  unfolding diff_bbox
  diff_bbox-inside xb y x yh d =
      let c = diff_extent-Covers a b w h xb y x yh d in
      extent_bbox-inside w h xb y (diff_extent a b w h) _ _ (diff_extent-IsOnPanel a b w h aligned)
        c.left c.right c.top c.bottom

same_of_differs : (x y : ℕ) → not (bit_xor x y == 0) ≡ false → x ≡ y
same_of_differs x y e =
    let z : bit_xor x y ≡ 0 = ground arith in
    sym (bit_xor_twice x y) ∙ ap (λ k. bit_xor k y) z ∙ zero-bit_xor y

same_bytes_at :
    (n i : ℕ) (a b : List ℕ) (j : ℕ)
    → same_bytes n i a b ≡ true
    → i ≤ j
    → j < i + n
    → get_or a j 0 ≡ get_or b j 0
unfolding same_bytes
same_bytes_at zero i a b j e lo hi = absurd (omega arith)
same_bytes_at (suc n) i a b j e lo hi = elim (ℕ_discrete i j) [
  | yes here ↦ rw (← here) (ground arith)
  | no away ↦ same_bytes_at n (suc i) a b j (ground arith) (omega arith) (omega arith)
]

-- A panel of `s` byte columns: the byte's place is below the number of bytes.
byte_in_range : (xb y w h s : ℕ) → w ≡ s * 8 → xb < s → y < h → y * s + xb < w * h / 8
byte_in_range xb y w h s e x yh =
    let bytes : w * h / 8 ≡ s * h = rw e (omega arith) in
    let below : y * s + s ≤ s * h = grind arith in omega arith

-- What the glass shows at a byte of which `before` was shown and `after` is wanted: a partial refresh
-- writes inside its box, a full one everywhere.
abbrev pub refreshed : RefreshKind → Bool → ℕ → ℕ → ℕ
refreshed no_refresh in_box before after = before
refreshed partial in_box before after = if in_box then after else before
refreshed light_full in_box before after = after
refreshed deep_clean in_box before after = after

-- The byte column `xb` of row `y` after the decision `d`, if the glass showed `prev`.
abbrev pub glass : RefreshDecision → List ℕ → List ℕ → ℕ → ℕ → ℕ → ℕ
glass d prev curr stride xb y =
    refreshed d.kind (inside xb y d.bbox) (get_or prev (y * stride + xb) 0)
      (get_or curr (y * stride + xb) 0)

refreshed_same : (k : RefreshKind) (in_box : Bool) (v : ℕ) → refreshed k in_box v v ≡ v
refreshed_same no_refresh in_box v = refl
refreshed_same partial true v = refl
refreshed_same partial false v = refl
refreshed_same light_full in_box v = refl
refreshed_same deep_clean in_box v = refl

glass_in_box :
    (b : Bbox) (xb y before after : ℕ)
    → inside xb y b ≡ true
    → refreshed (if is_empty b then no_refresh else partial) (inside xb y b) before after ≡ after
glass_in_box b xb y before after h = rw h (ground arith)

-- The three outcomes of the plan.
plan_refresh_cases :
    (prev curr : List ℕ) (prev_valid : Bool) (now llf pc : ℕ) (cfg : RefreshConfig)
    (untrusted : Bool)
    → let d = plan_refresh prev curr prev_valid now llf pc cfg untrusted in
      let box = diff_bbox prev curr cfg.width cfg.height in
      (same_bytes (cfg.width * cfg.height / 8) 0 prev curr ≡ true)
      ⊎ (d.kind ≡ light_full)
      ⊎ ((d.kind ≡ (if is_empty box then no_refresh else partial)) × (d.bbox ≡ box))
unfolding plan_refresh
plan_refresh_cases prev curr false now llf pc cfg untrusted = inr (inl refl)
plan_refresh_cases prev curr true now llf pc cfg untrusted =
    elim (Bool-cases (same_bytes (cfg.width * cfg.height / 8) 0 prev curr)) [
      | inl e ↦ inl e
      | inr e ↦
          elim (Bool-cases (
            (time_trigger now llf cfg.light_full_every_s || leb cfg.partial_hardcap pc)
            || untrusted)) [
              | inl f ↦ rw (e, f) (inr (inl refl))
              | inr f ↦ rw (e, f) (inr (inr (refl, refl)))
            ]
    ]

-- Whatever is decided, the glass shows the new frame afterwards: at every byte of the panel, if it
-- showed the frame `prev` before. The width of the panel is a multiple of eight.
pub glass-plan_refresh :
    (prev curr : List ℕ) (prev_valid : Bool) (now last_light_full partial_count : ℕ)
    (cfg : RefreshConfig) (untrusted : Bool) (stride xb y : ℕ)
    → cfg.width ≡ stride * 8
    → xb < stride
    → y < cfg.height
    → glass
        (plan_refresh prev curr prev_valid now last_light_full partial_count cfg untrusted)
        prev
        curr
        stride
        xb
        y
      ≡ get_or curr (y * stride + xb) 0
glass-plan_refresh prev curr prev_valid now llf pc cfg untrusted stride xb y al x yh =
    let d = plan_refresh prev curr prev_valid now llf pc cfg untrusted in
    let e : cfg.width / 8 ≡ stride = omega arith in
    elim (Bool-cases (differs prev curr stride xb y)) [
      | inr same ↦ rw (same_of_differs _ _ same) (refreshed_same d.kind (inside xb y d.bbox) _)
      | inl other ↦ elim (plan_refresh_cases prev curr prev_valid now llf pc cfg untrusted) [
        | inl bytes ↦
            rw
              (same_bytes_at _ 0 prev curr (y * stride + xb) bytes (omega arith)
                (omega (arith, byte_in_range xb y cfg.width cfg.height stride al x yh)))
              (refreshed_same d.kind (inside xb y d.bbox) _)
        | inr (inl full) ↦ rw full
        | inr (inr (k, b)) ↦
            rw (k, b)
              (glass_in_box (diff_bbox prev curr cfg.width cfg.height) xb y _ _ (
                diff_bbox-inside prev curr cfg.width cfg.height (omega arith) xb y (omega arith) yh
                  (rw e other)))
      ]
    ]

module _ (prev curr : List ℕ) (prev_valid : Bool) (now last_light_full partial_count : ℕ)
    (cfg : RefreshConfig) (untrusted : Bool) where
  abbrev planned : RefreshDecision
  planned = plan_refresh prev curr prev_valid now last_light_full partial_count cfg untrusted

  -- A partial refresh is planned only over a valid previous frame, on a panel whose memory is trusted,
  -- under the cap on partial refreshes, with a full one before that is not due again; and its box is
  -- then a non-empty one of whole bytes of the panel. The panel's width is a multiple of eight.
  pub plan_refresh-partial :
      cfg.width % 8 ≡ 0
      → planned.kind ≡ partial
      → (prev_valid ≡ true)
        × (untrusted ≡ false)
        × (partial_count < cfg.partial_hardcap)
        × (last_light_full ≢ 0)
        × (now < last_light_full + cfg.light_full_every_s)
        × (is_empty planned.bbox ≡ false)
        × FitsPanel cfg.width cfg.height planned.bbox
  unfolding plan_refresh
  plan_refresh-partial al k =
      let fits = diff_bbox-FitsPanel prev curr cfg.width cfg.height al in
      (
        ground arith,
        ground arith,
        ground arith,
        λ e. ground arith,
        ground arith,
        ground arith,
        ground (arith, fits),
      )
