-- ===== src/Ssid.antt =====
-- src/logic/ssid_match.cpp: a configured network that is visible under another case.
-- An SSID is the list of its bytes, without the NUL at the end.
pub mod Match
use bustaferl.Prelude.{
  ℕ, zero, suc, ◌+◌, ◌-◌, Bool, true, false, List, [], ◌∷◌, Option, none, some, leb, ◌==◌, ◌&&◌,
  if◌then◌else◌,
}

abbrev pub net_ssid_buf : ℕ
net_ssid_buf = 33

unfoldable pub to_lower_ascii : ℕ → ℕ
to_lower_ascii c = if leb 65 c && leb c 90 then c - 65 + 97 else c

-- The loop over both strings, which ends at the first NUL of either.
unfoldable pub equals_from : List ℕ → List ℕ → Bool
unfolding to_lower_ascii
equals_from [] [] = true
equals_from [] (y ∷ ys) = false
equals_from (x ∷ xs) [] = false
equals_from (x ∷ xs) (y ∷ ys) =
    let rest = equals_from xs ys in if to_lower_ascii x == to_lower_ascii y then rest else false

-- `none` is a null pointer.
unfoldable pub ssid_equals_ignore_case : Option (List ℕ) → Option (List ℕ) → Bool
unfolding equals_from
ssid_equals_ignore_case none b = false
ssid_equals_ignore_case (some a) none = false
ssid_equals_ignore_case (some a) (some b) = equals_from a b

pub record SsidCaseMismatch : Type 0 where
  pub found : Bool
  pub configured : List ℕ
  pub visible : List ℕ

abbrev pub no_mismatch : SsidCaseMismatch
no_mismatch = record { found = false; configured = []; visible = [] }

-- strcmp(a, b) == 0
unfoldable pub same_ssid : List ℕ → List ℕ → Bool
same_ssid [] [] = true
same_ssid [] (y ∷ ys) = false
same_ssid (x ∷ xs) [] = false
same_ssid (x ∷ xs) (y ∷ ys) = x == y && same_ssid xs ys

-- snprintf(dst, cap, "%s", src) for a buffer of `cap` bytes.
unfoldable pub copy_text : ℕ → List ℕ → List ℕ
copy_text zero text = []
copy_text (suc zero) text = []
copy_text (suc (suc n)) [] = []
copy_text (suc (suc n)) (c ∷ text) = c ∷ copy_text (suc n) text

-- The inner loop, over the visible networks; `rest` is what the outer loop goes on with.
unfoldable pub find_visible : List ℕ → List (List ℕ) → SsidCaseMismatch → SsidCaseMismatch
find_visible want [] rest = rest
find_visible want (seen ∷ more) rest =
    let later = find_visible want more rest in
    if same_ssid want seen
    then later
    else if ssid_equals_ignore_case (some want) (some seen)
    then record {
      found = true;
      configured = copy_text net_ssid_buf want;
      visible = copy_text net_ssid_buf seen;
    }
    else later

unfoldable pub find_case_mismatch : List (List ℕ) → List (List ℕ) → SsidCaseMismatch
find_case_mismatch [] visible = no_mismatch
find_case_mismatch (want ∷ more) visible =
    find_visible want visible (find_case_mismatch more visible)
