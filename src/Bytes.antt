-- ===== src/Bytes.antt =====
-- Big-endian bytes: Rust's `to_be_bytes` and `from_be_bytes`, which every number goes through in
-- wiring/src/core/wire.rs and wiring/src/core/unwire.rs. A byte is a number below 256; a signed
-- integer or a float is its bit pattern.
use wiring.Base.{
  ℕ, zero, suc, ◌+◌, ◌*◌, ◌/◌, ◌%◌, ◌^◌, ◌<◌, ◌≡◌, refl, ◌∙◌, List, [], ◌∷◌, ◌++◌, arith, length,
  length-append, ◌-◌,
}
use native.Mathlib.Nat.{pow-suc}

unfoldable pub to_be_bytes : ℕ → ℕ → List ℕ
to_be_bytes zero n = []
to_be_bytes (suc w) n = to_be_bytes w (n / 256) ++ (n % 256) ∷ []

from_be : ℕ → List ℕ → ℕ
from_be acc [] = acc
from_be acc (b ∷ bs) = from_be (acc * 256 + b) bs

pub from_be_bytes : List ℕ → ℕ
unfolding from_be
from_be_bytes = from_be 0

from_be-snoc :
    (acc : ℕ) (bs : List ℕ) (b : ℕ) → from_be acc (bs ++ b ∷ []) ≡ from_be acc bs * 256 + b
unfolding from_be
from_be-snoc acc [] b = refl
from_be-snoc acc (c ∷ bs) b = from_be-snoc (acc * 256 + c) bs b

pub length-to_be_bytes : (w n : ℕ) → length (to_be_bytes w n) ≡ w
unfolding to_be_bytes
length-to_be_bytes zero n = refl
length-to_be_bytes (suc w) n =
    length-append (to_be_bytes w (n / 256)) ((n % 256) ∷ [])
    ∙ omega (arith, length-to_be_bytes w (n / 256))

pub from_be_bytes-to_be_bytes : (w n : ℕ) → n < 256 ^ w → from_be_bytes (to_be_bytes w n) ≡ n
unfolding from_be_bytes to_be_bytes
from_be_bytes-to_be_bytes zero n h = omega (arith)
from_be_bytes-to_be_bytes (suc w) n h =
    from_be-snoc 0 (to_be_bytes w (n / 256)) (n % 256)
    ∙ omega (arith, from_be_bytes-to_be_bytes w (n / 256) (omega (arith, pow-suc 256 w)))

pub from_be_bytes-singleton : (b : ℕ) → from_be_bytes (b ∷ []) ≡ b
unfolding from_be_bytes
from_be_bytes-singleton b = omega arith

abbrev pub isize_max : ℕ
isize_max = 2 ^ 63 - 1
