-- ===== src/Render/Gauge/Legible.antt =====
-- The gauge is legible as a shape.
use bustaferl.Prelude.{◌≡◌, ◌↔◌, sym, subst, true, ◌++◌, arith, zero, suc, inl, inr, ◌⊎◌}
use bustaferl.Prelude.Int.{ℤ, pos, negsuc, ◌+ℤ◌, ◌-ℤ◌, int_laws, ◌≤ℤ◌}
use bustaferl.Render.Gauge.{clamped, live_mark, draw_deviation_gauge}
use bustaferl.Render.Gauge.Ink.{
  Shows, LooksLike, scale, row, Shows-append, Shows-second, scale-misses,
}
use bustaferl.Render.Gauge.Marks.{
  reading, over, under, MarkAt, late_row, early_row, over-clamped, under-clamped, not_both,
  reading-marked, mark_of_reading,
}

reading-InRange : (dev : ℤ) → (negsuc 3 ≤ℤ reading dev) × (reading dev ≤ℤ pos 6)
reading-InRange dev = (ground arith, ground arith)

module _ (cx top dev k : ℤ) where
  abbrev GaugeAt : Type 0
  GaugeAt = Shows (draw_deviation_gauge cx top true dev) (cx -ℤ pos 2) (row (top +ℤ pos 15) k)

  abbrev LiveAt : Type 0
  LiveAt = MarkAt cx top (clamped dev) k (over dev) (under dev)

  -- On these rows the scale shows nothing.
  gauge-live : GaugeAt ↔ LiveAt
  unfolding draw_deviation_gauge
  gauge-live =
      let mark = live_mark cx top (top +ℤ pos 15) true dev in
      let y = row (top +ℤ pos 15) k in
      (
        λ h. elim (Shows-append (scale cx top) mark (cx -ℤ pos 2) y h) [
          | inl i ↦ absurd (scale-misses cx top k i)
          | inr j ↦ j
        ],
        λ h. Shows-second (scale cx top) mark (cx -ℤ pos 2) y h,
      )

  gauge_late : pos 1 ≤ℤ k → k ≤ℤ pos 6 → GaugeAt ↔ (k ≤ℤ reading dev)
  gauge_late lo hi =
      let (f, g) = gauge-live in
      let (i, j) =
        late_row cx top (clamped dev) k (over dev) (under dev) lo hi (over-clamped dev)
          (under-clamped dev) in
      (
        λ h. subst (λ m. k ≤ℤ m) (sym (reading-marked dev)) (i (f h)),
        λ h. g (j (subst (λ m. k ≤ℤ m) (reading-marked dev) h)),
      )

  gauge_early : negsuc 2 ≤ℤ k → k ≤ℤ pos 0 → GaugeAt ↔ (reading dev +ℤ pos 1 ≤ℤ k)
  gauge_early lo hi =
      let (f, g) = gauge-live in
      let (i, j) =
        early_row cx top (clamped dev) k (over dev) (under dev) lo hi (over-clamped dev)
          (under-clamped dev) (not_both dev) in
      (
        λ h. subst (λ (m : ℤ). m +ℤ pos 1 ≤ℤ k) (sym (reading-marked dev)) (i (f h)),
        λ h. g (j (subst (λ (m : ℤ). m +ℤ pos 1 ≤ℤ k) (reading-marked dev) h)),
      )

reading_mono :
    (cx top a b : ℤ)
    → LooksLike (draw_deviation_gauge cx top true a) (draw_deviation_gauge cx top true b)
    → reading a ≤ℤ reading b
reading_mono cx top a b same = elim (sign (reading a)) [
  | inl late ↦
      let k = reading a in
      let shown = (gauge_late cx top a k late (reading-InRange a).1).1 (omega int_laws) in
      (gauge_late cx top b k late (reading-InRange a).1).0 ((same _ _).0 shown)
  | inr early ↦ elim (sign (reading b +ℤ pos 1)) [
    | inl late ↦ omega (int_laws, early, late)
    | inr ahead ↦
        let k = reading b +ℤ pos 1 in
        let lo : negsuc 2 ≤ℤ k = omega (int_laws, reading-InRange b) in
        let shown = (gauge_early cx top b k lo ahead).1 (omega int_laws) in
        let next = (gauge_early cx top a k lo ahead).0 ((same _ _).1 shown) in
        omega (int_laws, next)
  ]
]
  where
    sign : (m : ℤ) → (pos 1 ≤ℤ m) ⊎ (m ≤ℤ pos 0)
    sign (pos zero) = inr (omega arith)
    sign (pos (suc n)) = inl (omega arith)
    sign (negsuc n) = inr (omega arith)

-- Two live gauges at one place show the same pixels exactly if their deviations are read alike: the
-- same minutes on the track, or both beyond the same end of it.
pub draw_deviation_gauge_legible :
    (cx top a b : ℤ)
    → LooksLike (draw_deviation_gauge cx top true a) (draw_deviation_gauge cx top true b)
      ↔ (reading a ≡ reading b)
unfolding draw_deviation_gauge
draw_deviation_gauge_legible cx top a b = (
  λ h.
      antisym _ _ (reading_mono cx top a b h)
        (reading_mono cx top b a (λ x y. ((h x y).1, (h x y).0))),
  λ e x y. (
    subst (λ ds. Shows (scale cx top ++ ds) x y) (mark_of_reading cx top a b e),
    subst (λ ds. Shows (scale cx top ++ ds) x y) (sym (mark_of_reading cx top a b e)),
  ),
)
  where
    antisym : (m n : ℤ) → m ≤ℤ n → n ≤ℤ m → m ≡ n
    antisym m n h k = omega int_laws
