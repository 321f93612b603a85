-- ===== src/Parse/Hafas/Codes.antt =====
-- The error codes of a HAFAS response.
use bustaferl.Prelude.{
  ℕ, ◌≡◌, refl, ap, true, [], ◌∷◌, Option, none, some, ◌↔◌, ◌⊎◌, inl, inr, arith, Bool-cases, ◌==◌,
  ==_iff,
}
use bustaferl.Parse.{Text, Reader, LocalTime, key, get_some, same_text}
use bustaferl.Parse.Hafas.{err_of, res_of, is_auth_error}

cons_inj : (a b : ℕ) (s t : Text) → a ∷ s ≡ b ∷ t → (a ≡ b) × (s ≡ t)
cons_inj a b s t e = (cc, cc)

cons_ap : (a b : ℕ) (s t : Text) → a ≡ b → s ≡ t → a ∷ s ≡ b ∷ t
cons_ap a b s t e f = cc

same_text_iff : (s t : Text) → (same_text s t ≡ true) ↔ (s ≡ t)
unfolding same_text
same_text_iff [] [] = (λ e. refl, λ e. refl)
same_text_iff [] (b ∷ t) = (λ e. cc, λ e. cc)
same_text_iff (a ∷ s) [] = (λ e. cc, λ e. cc)
same_text_iff (a ∷ s) (b ∷ t) = elim (Bool-cases (a == b)) [
  | inl e ↦
      rw (e, same_text)
        (
          λ f. cons_ap a b s t ((==_iff a b).0 e) ((same_text_iff s t).0 f),
          λ f. (same_text_iff s t).1 (cons_inj a b s t f).1,
        )
  | inr e ↦ rw (e, same_text) (λ f. cc, λ f. absurd (ground (arith, e, (cons_inj a b s t f).0)))
]

-- A text that is not empty is there.
get_some_iff : (o : Option Text) (a : ℕ) (s : Text) → (get_some o [] ≡ a ∷ s) ↔ (o ≡ some (a ∷ s))
get_some_iff none a s = (λ e. cc, λ e. cc)
get_some_iff (some t) a s = (λ e. ap some e, λ e. cc)

module _ {V : Type 0} (r : Reader V) (mktime : LocalTime → Option ℕ) where
  -- The response has this error code.
  abbrev pub HasCode : Text → V → Type 0
  HasCode code doc = r.text (r.member doc (key "err")) ≡ some code

  abbrev pub IsRefused : V → Type 0
  IsRefused doc = HasCode (key "AID") doc ⊎ HasCode (key "AUTH") doc

  -- The code is OK, and the result is there.
  abbrev pub IsAnswer : V → Type 0
  IsAnswer doc = HasCode (key "OK") doc × (r.is_object (res_of r mktime doc) ≡ true)

  has_code :
      (doc : V) (a : ℕ) (s : Text)
      → (same_text (err_of r mktime doc) (a ∷ s) ≡ true) ↔ HasCode (a ∷ s) doc
  has_code doc a s =
      let (f, g) = same_text_iff (err_of r mktime doc) (a ∷ s) in
      let (h, k) = get_some_iff (r.text (r.member doc (key "err"))) a s in
      (λ e. h (f e), λ e. g (k e))

  pub IsRefused-iff :
      (doc : V) → (is_auth_error r mktime (err_of r mktime doc) ≡ true) ↔ IsRefused doc
  IsRefused-iff doc =
      let aid = has_code doc 65 (73 ∷ 68 ∷ []) in
      let auth = has_code doc 65 (85 ∷ 84 ∷ 72 ∷ []) in
      (λ e. ground (arith, aid.0, auth.0), λ h. ground (arith, aid.1, auth.1))

  pub ok_iff :
      (doc : V) → (same_text (err_of r mktime doc) (key "OK") ≡ true) ↔ HasCode (key "OK") doc
  ok_iff doc = has_code doc 79 (75 ∷ [])

  two_codes :
      (o : Option Text) → o ≡ some (key "OK") → (o ≡ some (key "AID")) ⊎ (o ≡ some (key "AUTH")) → ⊥
  two_codes o e (inl f) = cc
  two_codes o e (inr f) = cc

  pub answer_not_refused : (doc : V) → IsAnswer doc → IsRefused doc → ⊥
  answer_not_refused doc a h = two_codes (r.text (r.member doc (key "err"))) a.0 h
