-- ===== src/Render/Gauge/Marks.antt =====
-- Which rows beside the scale the bar and the tabs of a deviation cover.
use bustaferl.Prelude.{
  ◌+◌, ◌≡◌, ◌↔◌, refl, sym, subst, ap, ◌∙◌, Bool, true, false, [], ◌∷◌, arith, if◌then◌else◌, ◌&&◌,
  inl, inr, Bool-cases, ◌⊎◌, ltb→lt,
}
use bustaferl.Prelude.Int.{
  ℤ, pos, negsuc, pos_part, neg_part, ◌+ℤ◌, ◌-ℤ◌, ltb_int, min_int, max_int, int_laws, *ℤ_three,
  ◌≤ℤ◌,
}
use bustaferl.Render.{Drawing, fill_rect}
use bustaferl.Render.Gauge.{gauge_up_min, gauge_down_min, clamped, bar, live_mark}
use bustaferl.Render.Gauge.Ink.{Covers, Shows, bar-InBar, row, bar_late_row, bar_early_row}

-- What a deviation is read as: its minutes on the track, or one more at either end for all beyond.
abbrev pub reading : ℤ → ℤ
reading dev = max_int (negsuc 3) (min_int (pos 6) dev)

abbrev pub tabs : ℤ → ℤ → Bool → Bool → Drawing
tabs cx top over under =
    if over
    then fill_rect (cx -ℤ pos 3) (top -ℤ pos 2) (pos 7) (pos 2) 1 ∷ []
    else if under
    then fill_rect (cx -ℤ pos 3) (top +ℤ pos 24) (pos 7) (pos 2) 1 ∷ []
    else []

abbrev pub over : ℤ → Bool
over dev = ltb_int gauge_up_min dev

abbrev pub under : ℤ → Bool
under dev = ltb_int dev gauge_down_min

pub not_both : (dev : ℤ) → (over dev && under dev) ≡ false
not_both dev = ground arith

abbrev pub marked : Bool → Bool → ℤ → ℤ
marked o u c = if o then pos 6 else if u then negsuc 3 else c

pub reading-marked : (dev : ℤ) → reading dev ≡ marked (over dev) (under dev) (clamped dev)
reading-marked (pos n) = ground arith
reading-marked (negsuc n) = ground arith

clamped-reading : (dev : ℤ) → clamped (reading dev) ≡ clamped dev
clamped-reading (pos n) = ground arith
clamped-reading (negsuc n) = ground arith

over-reading : (dev : ℤ) → over (reading dev) ≡ over dev
over-reading (pos n) = ground arith
over-reading (negsuc n) = ground arith

under-reading : (dev : ℤ) → under (reading dev) ≡ under dev
under-reading (pos n) = ground arith
under-reading (negsuc n) = ground arith

pub mark_of_reading :
    (cx top a b : ℤ)
    → reading a ≡ reading b
    → live_mark cx top (top +ℤ pos 15) true a ≡ live_mark cx top (top +ℤ pos 15) true b
mark_of_reading cx top a b e =
    let c = sym (clamped-reading a) ∙ ap clamped e ∙ clamped-reading b in
    let o = sym (over-reading a) ∙ ap over e ∙ over-reading b in
    let u = sym (under-reading a) ∙ ap under e ∙ under-reading b in
    ap (λ m. bar cx (top +ℤ pos 15) m ∷ tabs cx top (over a) (under a)) c
    ∙ ap (λ o. bar cx (top +ℤ pos 15) (clamped b) ∷ tabs cx top o (under a)) o
    ∙ ap (λ u. bar cx (top +ℤ pos 15) (clamped b) ∷ tabs cx top (over b) u) u

pub over-clamped : (dev : ℤ) → over dev ≡ true → clamped dev ≡ pos 5
over-clamped (pos n) e = ground arith
over-clamped (negsuc n) e = ground arith

pub under-clamped : (dev : ℤ) → under dev ≡ true → clamped dev ≡ negsuc 2
under-clamped (pos n) e = ground arith
under-clamped (negsuc n) e = ground arith

clamped-InTrack : (dev : ℤ) → (negsuc 2 ≤ℤ clamped dev) × (clamped dev ≤ℤ pos 5)
clamped-InTrack dev = (ground arith, ground arith)

-- A number up to `n` is `n`, or less.
at_most : (k n : ℤ) → k ≤ℤ n → (n ≤ℤ k) ⊎ (k +ℤ pos 1 ≤ℤ n)
at_most k n h = elim (Bool-cases (ltb_int k n)) [
  | inl e ↦ inr (omega (int_laws, ltb→lt (pos_part k + neg_part n) (pos_part n + neg_part k) e))
  | inr e ↦ inl (ground arith)
]

module _ (cx top c k : ℤ) where
  abbrev pub MarkAt : Bool → Bool → Type 0
  MarkAt o u =
      Shows (bar cx (top +ℤ pos 15) c ∷ tabs cx top o u) (cx -ℤ pos 2) (row (top +ℤ pos 15) k)

  pub late_row :
      (o u : Bool)
      → pos 1 ≤ℤ k
      → k ≤ℤ pos 6
      → (o ≡ true → c ≡ pos 5)
      → (u ≡ true → c ≡ negsuc 2)
      → MarkAt o u ↔ (k ≤ℤ marked o u c)
  late_row o u lo hi a b = by_tab o u a b
    where
      z : ℤ
      z = top +ℤ pos 15

      on_bar : Covers (cx -ℤ pos 2) (row z k) (bar cx z c) ↔ (k ≤ℤ c)
      on_bar =
          let (f, g) = bar-InBar cx z c (row z k) in
          let (i, j) = bar_late_row z c k lo in (λ h. i (f h), λ h. g (j h))

      by_tab :
          (o u : Bool)
          → (o ≡ true → c ≡ pos 5)
          → (u ≡ true → c ≡ negsuc 2)
          → MarkAt o u ↔ (k ≤ℤ marked o u c)
      by_tab true u a b = (
        λ h. hi,
        λ h. elim (at_most k (pos 6) hi) [
          | inl six ↦ inr (
              inl (
                refl,
                (
                  omega int_laws,
                  (omega (int_laws, *ℤ_three k), (omega int_laws, omega (int_laws, *ℤ_three k))),
                ),
              ))
          | inr less ↦ inl (on_bar.1 (subst (λ m. k ≤ℤ m) (sym (a refl)) (omega int_laws)))
        ],
      )
      by_tab false true a b = (
        λ h. elim h [
          | inl i ↦ absurd (small (on_bar.0 i) (b refl))
          | inr j ↦ elim j [ inl t ↦ absurd (omega (int_laws, *ℤ_three k, t)) | inr t ↦ absurd t ]
        ],
        λ h. absurd (omega (int_laws, h)),
      )
        where
          small : k ≤ℤ c → c ≡ negsuc 2 → ⊥
          small h e = omega (int_laws, subst (λ m. k ≤ℤ m) e h)
      by_tab false false a b =
          (λ h. elim h [ inl i ↦ on_bar.0 i | inr j ↦ absurd j ], λ h. inl (on_bar.1 h))

  pub early_row :
      (o u : Bool)
      → negsuc 2 ≤ℤ k
      → k ≤ℤ pos 0
      → (o ≡ true → c ≡ pos 5)
      → (u ≡ true → c ≡ negsuc 2)
      → (o && u) ≡ false
      → MarkAt o u ↔ (marked o u c +ℤ pos 1 ≤ℤ k)
  early_row o u lo hi a b one = by_tab o u a b one
    where
      z : ℤ
      z = top +ℤ pos 15

      on_bar : Covers (cx -ℤ pos 2) (row z k) (bar cx z c) ↔ (c +ℤ pos 1 ≤ℤ k)
      on_bar =
          let (f, g) = bar-InBar cx z c (row z k) in
          let (i, j) = bar_early_row z c k hi in (λ h. i (f h), λ h. g (j h))

      big : c +ℤ pos 1 ≤ℤ k → c ≡ pos 5 → ⊥
      big h e = omega (int_laws, subst (λ (m : ℤ). m +ℤ pos 1 ≤ℤ k) e h)

      by_tab :
          (o u : Bool)
          → (o ≡ true → c ≡ pos 5)
          → (u ≡ true → c ≡ negsuc 2)
          → (o && u) ≡ false
          → MarkAt o u ↔ (marked o u c +ℤ pos 1 ≤ℤ k)
      by_tab true u a b one = (
        λ h. elim h [
          | inl i ↦ absurd (big (on_bar.0 i) (a refl))
          | inr j ↦ elim j [ inl t ↦ absurd (omega (int_laws, *ℤ_three k, t)) | inr t ↦ absurd t ]
        ],
        λ h. absurd (omega (int_laws, h)),
      )
      by_tab false true a b one = (
        λ h. omega int_laws,
        λ h. elim (at_most (negsuc 2) k lo) [
          | inl last ↦ inr (
              inl (
                refl,
                (
                  omega int_laws,
                  (omega (int_laws, *ℤ_three k), (omega int_laws, omega (int_laws, *ℤ_three k))),
                ),
              ))
          | inr more ↦
              inl (on_bar.1 (subst (λ (m : ℤ). m +ℤ pos 1 ≤ℤ k) (sym (b refl)) (omega int_laws)))
        ],
      )
      by_tab false false a b one =
          (λ h. elim h [ inl i ↦ on_bar.0 i | inr j ↦ absurd j ], λ h. inl (on_bar.1 h))
