-- ===== src/Encode/ConcatBytes.antt =====
-- `concat_array` of wiring/src/core/wire.rs: a value of a fixed size, laid out in a buffer of that size.
use wiring.Base.{
  ℕ, List, length, ◌∷◌, flat_map, ◌≡◌, ok, ◌∙◌, [], All, leb, Result, ◌+◌, sym, ◌*◌, true, ltb,
  le→leb, ◌++◌, false, arith, ge→ltb, take, drop_all, length-take_le, drop, append-nil, length-drop,
  refl,
}
use wiring.Bytes.{to_be_bytes, length-to_be_bytes}
use wiring.Wire.{copy_to_front}
use wiring.Format.{enc_byte, enc_pair}
use wiring.Encode.{Wiring}
use wiring.Encode.Containers.{split_concat, concat_each, array_wiring, pair_wiring}
use wiring.Encode.NumberBytes.{AnyValue}
use wiring.Encode.Numbers.{u64_wiring, u8_wiring, u16_wiring, be_concat}
use wiring.Encode.TupleBytes.{FitsArray, FitsPair}
use native.Mathlib.Nat.{mul_comm}

-- The value's bytes fill a buffer of exactly the type's `FIXED_SIZE`.
abbrev pub Fills : {A : Type 0} → Wiring A → (A → Type 0) → (A → List ℕ) → Type 0
Fills {A} w Fits enc =
    (x : A) (buf : List ℕ) → Fits x → length buf ≡ w.fixed_size → w.concat_array x buf ≡ ok (enc x)

copy_to_front_lem : (bs buf : List ℕ) → length buf ≡ length bs → copy_to_front bs buf ≡ ok bs
unfolding copy_to_front
copy_to_front_lem bs buf e =
    let fits : leb (length bs) (length buf) ≡ true = le→leb _ _ (omega (arith, e)) in
    rw (fits, sym e, drop_all buf, append-nil bs)

be_Fills :
    (w : ℕ) (n : ℕ) (buf : List ℕ) → length buf ≡ w → be_concat w n buf ≡ ok (to_be_bytes w n)
be_Fills w n buf e = copy_to_front_lem (to_be_bytes w n) buf (e ∙ sym (length-to_be_bytes w n))

pub u8-Fills : Fills u8_wiring AnyValue enc_byte
unfolding u8_wiring
u8-Fills n buf h e = copy_to_front_lem (n ∷ []) buf e

pub u16-Fills : Fills u16_wiring AnyValue (to_be_bytes 2)
unfolding u16_wiring
u16-Fills n buf h e = be_Fills 2 n buf e

pub u64-Fills : Fills u64_wiring AnyValue (to_be_bytes 8)
unfolding u64_wiring
u64-Fills n buf h e = be_Fills 8 n buf e

-- A buffer that is split at `n`, each part filled by what it is given to.
split_concat_lem :
    (n m : ℕ) (f g : List ℕ → Result (List ℕ)) (left right buf : List ℕ)
    → ((part : List ℕ) → length part ≡ n → f part ≡ ok left)
    → ((part : List ℕ) → length part ≡ m → g part ≡ ok right)
    → length buf ≡ n + m
    → split_concat n f g buf ≡ ok (left ++ right)
unfolding split_concat
split_concat_lem n m f g left right buf hf hg e =
    let enough : ltb (length buf) n ≡ false = ge→ltb (length buf) n (omega (arith, e)) in
    let taken : length (take n buf) ≡ n = length-take_le n buf (omega (arith, e)) in
    let dropped : length (drop n buf) ≡ m = omega (arith, e, length-drop n buf) in
    rw (enough, hf (take n buf) taken, hg (drop n buf) dropped)

module _ {A : Type 0} (w : Wiring A) (Fits : A → Type 0) (enc : A → List ℕ)
    (fills : Fills w Fits enc) where
  concat_each_lem :
      (xs : List A) (buf : List ℕ)
      → All Fits xs
      → length buf ≡ length xs * w.fixed_size
      → concat_each w xs buf ≡ ok (flat_map enc xs)
  unfolding concat_each flat_map
  concat_each_lem [] [] h e = refl
  concat_each_lem [] (b ∷ bs) h e = ground arith
  concat_each_lem (x ∷ xs) buf h e =
      let size = w.fixed_size in
      let enough : ltb (length buf) size ≡ false = ge→ltb (length buf) size (omega (arith, e)) in
      let taken : length (take size buf) ≡ size = length-take_le size buf (omega (arith, e)) in
      let dropped : length (drop size buf) ≡ length xs * size =
        omega (arith, e, length-drop size buf) in
      rw (enough, fills x (take size buf) h.0 taken, concat_each_lem xs (drop size buf) h.1 dropped)

  -- concat_array of [T; LEN] fills a buffer of FIXED_SIZE bytes with exactly the bytes of the
  -- format, with no panic, if that of T does.
  pub array-Fills : (n : ℕ) → Fills (array_wiring w n) (FitsArray Fits n) (flat_map enc)
  unfolding array_wiring
  array-Fills n xs buf h e = concat_each_lem xs buf h.0 (e ∙ rw (h.1, mul_comm w.fixed_size n))

module _ {A B : Type 0} (w : Wiring A) (w' : Wiring B) (Fits : A → Type 0) (Fits' : B → Type 0)
    (enc : A → List ℕ) (enc' : B → List ℕ) (fills : Fills w Fits enc)
    (fills' : Fills w' Fits' enc') where
  -- concat_array of (T, TT) fills a buffer of FIXED_SIZE bytes with exactly the bytes of the format,
  -- with no panic, if those of T and TT do.
  pub pair-Fills : Fills (pair_wiring w w') (FitsPair Fits Fits') (enc_pair enc enc')
  unfolding pair_wiring
  pair-Fills p buf h e =
      split_concat_lem w.fixed_size w'.fixed_size _ _ (enc p.0) (enc' p.1) buf
        (λ part eq. fills p.0 part h.0 eq) (λ part eq. fills' p.1 part h.1 eq) e
