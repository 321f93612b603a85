-- ===== src/Cycle/Ends.antt =====
-- What holds of the result of a run on fuel, if there is one.
use bustaferl.Prelude.{◌≡◌, subst, Option, none, some}

none-ne-some : {A : Type 0} (a : A) → none ≡ some a → ⊥
none-ne-some a e = cc

some_inj : {A : Type 0} (a b : A) → some a ≡ some b → a ≡ b
some_inj a b e = cc

pub data Ends {A : Type 0} (P : A → Type 0) : Option A → Type 0 where
  unfinished : Ends P none
  ends : {a : A} → P a → Ends P (some a)

pub of_Ends : {A : Type 0} (P : A → Type 0) (o : Option A) (a : A) → Ends P o → o ≡ some a → P a
of_Ends P none a h e = absurd (none-ne-some a e)
of_Ends P (some b) a (ends h) e = subst P (some_inj b a e) h

-- A run returns, with a result of which this holds.
pub data Returns {A : Type 0} (P : A → Type 0) : Option A → Type 0 where
  returns : {a : A} → P a → Returns P (some a)

abbrev pub Done : {A : Type 0} → Option A → Type 0
Done o = Returns (λ a. a ≡ a) o

pub Ends-Done : {A : Type 0} {P : A → Type 0} (o : Option A) → Ends P o → Done o → Returns P o
Ends-Done none h d = elim d [ ]
Ends-Done (some a) (ends h) d = returns h
