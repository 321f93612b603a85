-- ===== src/Ssid/Match.antt =====
-- What the mismatch search finds, against the plain definition of a case-only difference.
use bustaferl.Prelude.{
  ℕ, zero, suc, ◌<◌, ◌≡◌, ◌≢◌, refl, ap, sym, subst, ◌∙◌, true, false, List, [], ◌∷◌, arith, ◌↔◌,
  ◌⊎◌, inl, inr, length, map, All, Any, Bool-cases,
}
use bustaferl.Ssid.{
  net_ssid_buf, to_lower_ascii, equals_from, ssid_equals_ignore_case, same_ssid, copy_text,
  find_visible, find_case_mismatch, SsidCaseMismatch,
}

-- The specification: equal after folding the ASCII capitals, but not equal.
abbrev pub IsCaseOnly : List ℕ → List ℕ → Type 0
IsCaseOnly a b = (map to_lower_ascii a ≡ map to_lower_ascii b) × (a ≢ b)

same_ssid_iff : (a b : List ℕ) → (same_ssid a b ≡ true) ↔ (a ≡ b)
unfolding same_ssid
same_ssid_iff [] [] = (λ e. refl, λ e. refl)
same_ssid_iff [] (y ∷ ys) = (λ e. cc, λ e. cc)
same_ssid_iff (x ∷ xs) [] = (λ e. cc, λ e. cc)
same_ssid_iff (x ∷ xs) (y ∷ ys) =
    let h = same_ssid_iff xs ys in (λ e. ground (arith, h.0), λ e. ground (arith, h.1))

equals_from_iff :
    (a b : List ℕ) → (equals_from a b ≡ true) ↔ (map to_lower_ascii a ≡ map to_lower_ascii b)
unfolding equals_from
equals_from_iff [] [] = (λ e. refl, λ e. refl)
equals_from_iff [] (y ∷ ys) = (λ e. cc, λ e. cc)
equals_from_iff (x ∷ xs) [] = (λ e. cc, λ e. cc)
equals_from_iff (x ∷ xs) (y ∷ ys) =
    let h = equals_from_iff xs ys in (λ e. ground (arith, h.0), λ e. ground (arith, h.1))

-- A text that fits, with its NUL, is copied whole.
copy_text-fits : (cap : ℕ) (text : List ℕ) → length text < cap → copy_text cap text ≡ text
unfolding copy_text
copy_text-fits zero text h = absurd (omega arith)
copy_text-fits (suc zero) [] h = refl
copy_text-fits (suc zero) (c ∷ text) h = absurd (omega arith)
copy_text-fits (suc (suc n)) [] h = refl
copy_text-fits (suc (suc n)) (c ∷ text) h =
    ap (λ t. c ∷ t) (copy_text-fits (suc n) text (omega arith))

true_not_false : true ≡ false → ⊥
true_not_false e = cc

-- One more alternative, which is ruled out.
skip_iff : {F C M R : Type 0} → (F ↔ (M ⊎ R)) → (C → ⊥) → F ↔ ((C ⊎ M) ⊎ R)
skip_iff h out = (
  λ f. elim (h.0 f) [ inl m ↦ inl (inr m) | inr r ↦ inr r ],
  λ d. elim d [ inl (inl c) ↦ absurd (out c) | inl (inr m) ↦ h.1 (inl m) | inr r ↦ h.1 (inr r) ],
)

find_visible_iff :
    (want : List ℕ) (visible : List (List ℕ)) (rest : SsidCaseMismatch)
    → ((find_visible want visible rest).found ≡ true)
      ↔ (Any (IsCaseOnly want) visible ⊎ (rest.found ≡ true))
unfolding find_visible ssid_equals_ignore_case
find_visible_iff want [] rest = (λ e. inr e, λ h. ground arith)
find_visible_iff want (seen ∷ more) rest =
    let same = same_ssid_iff want seen in
    let folded = equals_from_iff want seen in
    let ih = find_visible_iff want more rest in
    elim (Bool-cases (same_ssid want seen)) [
      | inl e ↦ rw e (skip_iff ih (λ c. c.1 (same.0 e)))
      | inr e ↦ elim (Bool-cases (equals_from want seen)) [
        | inl f ↦
            rw (e, f)
              (λ t. inl (inl (folded.0 f, λ p. true_not_false (sym (same.1 p) ∙ e))), λ h. refl)
        | inr f ↦ rw (e, f) (skip_iff ih (λ c. true_not_false (sym (folded.1 c.0) ∙ f)))
      ]
    ]

-- A mismatch is reported exactly if some visible network differs from a wanted one by the case of its
-- ASCII letters only.
pub find_case_mismatch_iff :
    (wanted visible : List (List ℕ))
    → ((find_case_mismatch wanted visible).found ≡ true)
      ↔ Any (λ w. Any (IsCaseOnly w) visible) wanted
unfolding find_case_mismatch
find_case_mismatch_iff [] visible = (λ e. cc, λ h. absurd h)
find_case_mismatch_iff (w ∷ ws) visible =
    let one = find_visible_iff w visible (find_case_mismatch ws visible) in
    let ih = find_case_mismatch_iff ws visible in
    (
      λ e. elim (one.0 e) [ inl m ↦ inl m | inr r ↦ inr (ih.0 r) ],
      λ h. elim h [ inl m ↦ one.1 (inl m) | inr r ↦ one.1 (inr (ih.1 r)) ],
    )

-- The answer is a wanted and a visible network that differ by case only.
abbrev Hit : List (List ℕ) → List (List ℕ) → SsidCaseMismatch → Type 0
Hit wanted visible m =
    Any (λ w. m.configured ≡ w) wanted
    × Any (λ v. v ≡ m.visible) visible
    × IsCaseOnly m.configured m.visible

find_visible-Hit :
    (want : List ℕ) (visible : List (List ℕ)) (rest : SsidCaseMismatch)
    → length want < net_ssid_buf
    → All (λ v. length v < net_ssid_buf) visible
    → (find_visible want visible rest ≡ rest)
      ⊎ Hit (want ∷ []) visible (find_visible want visible rest)
unfolding find_visible ssid_equals_ignore_case
find_visible-Hit want [] rest fits all = inl refl
find_visible-Hit want (seen ∷ more) rest fits all =
    let ih = find_visible-Hit want more rest fits all.1 in
    elim (Bool-cases (same_ssid want seen)) [
      | inl e ↦ later ih (rw e)
      | inr e ↦ elim (Bool-cases (equals_from want seen)) [
        | inl f ↦ inr (
            subst (Hit (want ∷ []) (seen ∷ more)) (hit e f) (
              inl refl,
              inl refl,
              (
                (equals_from_iff want seen).0 f,
                λ p. true_not_false (sym ((same_ssid_iff want seen).1 p) ∙ e),
              ),
            ))
        | inr f ↦ later ih (rw (e, f))
      ]
    ]
  where
    hit :
        same_ssid want seen ≡ false
        → equals_from want seen ≡ true
        → record { found = true; configured = want; visible = seen }
          ≡ find_visible want (seen ∷ more) rest
    hit e f =
        rw (e, f, copy_text-fits net_ssid_buf want fits, copy_text-fits net_ssid_buf seen all.0)

    later :
        (find_visible want more rest ≡ rest) ⊎ Hit (want ∷ []) more (find_visible want more rest)
        → find_visible want (seen ∷ more) rest ≡ find_visible want more rest
        → (find_visible want (seen ∷ more) rest ≡ rest)
          ⊎ Hit (want ∷ []) (seen ∷ more) (find_visible want (seen ∷ more) rest)
    later ih e = elim ih [
      | inl r ↦ inl (e ∙ r)
      | inr (c, v, o) ↦ inr (subst (Hit (want ∷ []) (seen ∷ more)) (sym e) (c, inr v, o))
    ]

-- What is reported is a wanted and a visible network, whole, that differ by the case of ASCII letters
-- only. Every SSID fits its buffer, as 802.11 bounds it.
pub find_case_mismatch_sound :
    (wanted visible : List (List ℕ))
    → All (λ w. length w < net_ssid_buf) wanted
    → All (λ v. length v < net_ssid_buf) visible
    → (find_case_mismatch wanted visible).found ≡ true
    → Any (λ w. (find_case_mismatch wanted visible).configured ≡ w) wanted
      × Any (λ v. v ≡ (find_case_mismatch wanted visible).visible) visible
      × IsCaseOnly
          (find_case_mismatch wanted visible).configured
          (find_case_mismatch wanted visible).visible
unfolding find_case_mismatch
find_case_mismatch_sound [] visible ws vs found = cc
find_case_mismatch_sound (w ∷ ws) visible fw fv found =
    elim (find_visible-Hit w visible (find_case_mismatch ws visible) fw.0 fv) [
      | inl e ↦
          let (a, b, c) =
            find_case_mismatch_sound ws visible fw.1 fv (ap (λ m. m.found) (sym e) ∙ found) in
          subst (Hit (w ∷ ws) visible) (sym e) (inr a, b, c)
      | inr (inl c, v, o) ↦ (inl c, v, o)
      | inr (inr c, v, o) ↦ absurd c
    ]
