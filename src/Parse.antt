-- ===== src/Parse.antt =====
-- src/data/string_util.h and the way in which the parsers under src/data read a JSON document.
-- The document is ArduinoJson's: a type of values, and what the parsers ask of a value, are arguments.
-- A text is the list of its bytes, without the NUL at the end; `none` is a null pointer.
pub mod Iso
pub mod Efa
pub mod Hafas
pub mod Monitor
pub mod Printed
pub mod Calendar
use Prim.Native.Char.{code}
use Prim.Native.String.{String}
use bustaferl.Prelude.{ℕ, Bool, true, false, List, [], ◌∷◌, Option, none, some, ◌==◌, if◌then◌else◌}
use bustaferl.Prelude.Int.{ℤ}

abbrev pub Text : Type 0
Text = List ℕ

-- What is read from a value `v` of a document. A member or an element that is missing, or asked of a
-- value of another type, is the null value, of which all else is missing too.
pub record Reader (V : Type 0) : Type 0 where
  pub deserialize : Text → Option V  -- deserializeJson, with no error
  pub member : V → Text → V  -- v["key"]
  pub element : V → ℕ → V  -- v[i]
  pub items : V → Option (List V)  -- v.as<JsonArrayConst>(), if it is not null
  pub is_object : V → Bool  -- !v.as<JsonObjectConst>().isNull()
  pub text : V → Option Text  -- v | (const char *)nullptr
  pub int : V → Option ℤ  -- v | n, if it is an int
  pub bool : V → Option Bool  -- v | b, if it is a Boolean

abbrev pub get_some {ℓ} : {A : Type ℓ} → Option A → A → A
get_some none d = d
get_some (some a) d = a

abbrev pub or_else {ℓ} : {A : Type ℓ} → Option A → Option A → Option A
or_else none b = b
or_else (some a) b = some a

-- std::string == const char *, and strcmp(a, b) == 0
unfoldable pub same_text : Text → Text → Bool
same_text [] [] = true
same_text [] (b ∷ bs) = false
same_text (a ∷ r) [] = false
same_text (a ∷ r) (b ∷ bs) = let rest = same_text r bs in if a == b then rest else false

-- strncmp(s, prefix, prefix.size()) == 0 for a text that is not null.
unfoldable pub starts_with : Text → Text → Bool
starts_with s [] = true
starts_with [] (p ∷ ps) = false
starts_with (c ∷ s) (p ∷ ps) = let rest = starts_with s ps in if c == p then rest else false

-- The bytes of a literal.
abbrev pub key : String → Text
key String.[] = []
key (String.◌∷◌ c s) = code c ∷ key s

-- The fields of struct tm that the parsers fill; `tm_isdst` is -1.
pub record LocalTime : Type 0 where
  pub tm_year : ℤ
  pub tm_mon : ℤ
  pub tm_mday : ℤ
  pub tm_hour : ℤ
  pub tm_min : ℤ
  pub tm_sec : ℤ
