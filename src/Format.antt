-- ===== src/Format.antt =====
-- The wire format, as plain functions from a value to its bytes: the specification that the
-- implementations of `Wiring` in wiring/src/core/wire.rs are measured against.
use wiring.Base.{ℕ, Bool, true, false, List, [], ◌∷◌, ◌++◌, Option, none, some, length, flat_map}
use wiring.Bytes.{to_be_bytes}

abbrev pub bool_byte : Bool → ℕ
bool_byte false = 0
bool_byte true = 1

-- An 8-bit integer, by its bit pattern.
abbrev pub enc_byte : ℕ → List ℕ
enc_byte n = n ∷ []

-- A unit value is one zero byte, so that the other end can see that it was sent.
abbrev pub enc_unit : Unit {0} → List ℕ
enc_unit u = 0 ∷ []

abbrev pub enc_bool : Bool → List ℕ
enc_bool b = bool_byte b ∷ []

-- A text is its bytes behind their number.
abbrev pub enc_string : List ℕ → List ℕ
enc_string bs = to_be_bytes 8 (length bs) ++ bs

module _ {A : Type 0} (enc : A → List ℕ) where
  abbrev pub enc_vec : List A → List ℕ
  enc_vec xs = to_be_bytes 8 (length xs) ++ flat_map enc xs

  abbrev pub enc_option : Option A → List ℕ
  enc_option none = 0 ∷ []
  enc_option (some x) = 1 ∷ enc x

module _ {A B : Type 0} (enc : A → List ℕ) (enc' : B → List ℕ) where
  abbrev pub enc_pair : A × B → List ℕ
  enc_pair p = enc p.0 ++ enc' p.1

module _ {A B C : Type 0} (enc : A → List ℕ) (enc' : B → List ℕ) (enc'' : C → List ℕ) where
  abbrev pub enc_triple : A × B × C → List ℕ
  enc_triple p = enc p.0 ++ (enc' p.1 ++ enc'' p.2)
