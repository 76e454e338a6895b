-- ===== src/Decode/Laws.antt =====
-- wiring/src/core/unwire.rs: what a round trip asks of an implementation of `Unwiring`, and the readers
-- of the numbers, arrays and vectors on bytes that follow the format.
use wiring.Base.{
  All, flat_map, ◌<◌, ◌^◌, append_assoc, ◌≡◌, ◌∷◌, ◌++◌, ap, ok, ge→ltb, ◌*◌, [], arith, ◌≤◌,
  length-append, take-append, drop-append, refl, ℕ, List, length, Result,
}
use wiring.Bytes.{
  to_be_bytes, from_be_bytes-to_be_bytes, from_be_bytes-singleton, length-to_be_bytes, isize_max,
}
use wiring.Format.{enc_vec, enc_byte}
use wiring.Decode.{
  Unwiring, Reader, safe, split_slice, read_exact, sync_unwiring_array, sync_unwiring_vec,
  sync_unwire_u64, sync_unwire_f32, sync_unwire_u8, sync_unwire_u32, sync_unwire_u16,
}
use wiring.Decode.Numbers.{read_be}

abbrev pub Reads :
    {A : Type 0} → (A → Type 0) → (A → List ℕ) → (Reader → Result (A × Reader)) → Type 0
Reads {A} Fits enc f =
    (x : A) (rest : List ℕ) → Fits x → f (safe (enc x ++ rest)) ≡ ok (x, safe rest)

-- A number of `w` bytes.
abbrev pub IsUint : ℕ → ℕ → Type 0
IsUint w n = n < 256 ^ w

split_slice-append :
    (n : ℕ) (bs rest : List ℕ) → length bs ≡ n → split_slice n (bs ++ rest) ≡ ok (bs, safe rest)
unfolding split_slice
split_slice-append n bs rest h = rw (← h) (
    rw (ge→ltb (length (bs ++ rest)) (length bs) (omega (arith, length-append bs rest)))
      (rw (take-append bs rest, drop-append bs rest)))

pub read_exact-append :
    (n : ℕ) (bs rest : List ℕ)
    → length bs ≡ n
    → read_exact n (safe (bs ++ rest)) ≡ ok (bs, safe rest)
unfolding read_exact
read_exact-append n bs rest h = split_slice-append n bs rest h

uint_from_split :
    (w n : ℕ) (rest : List ℕ)
    → IsUint w n
    → split_slice w (to_be_bytes w n ++ rest) ≡ ok (to_be_bytes w n, safe rest)
uint_from_split w n rest h = split_slice-append w (to_be_bytes w n) rest (length-to_be_bytes w n)

pub u64_read : Reads (IsUint 8) (to_be_bytes 8) sync_unwire_u64
unfolding sync_unwire_u64
u64_read n rest h =
    rw (uint_from_split 8 n rest h)
      (ap (λ (k : ℕ). ok (k, safe rest)) (from_be_bytes-to_be_bytes 8 n h))

pub f32_read : Reads (IsUint 4) (to_be_bytes 4) sync_unwire_f32
unfolding sync_unwire_f32
f32_read n rest h =
    rw (uint_from_split 4 n rest h)
      (ap (λ (k : ℕ). ok (k, safe rest)) (from_be_bytes-to_be_bytes 4 n h))

pub u32_read : Reads (IsUint 4) (to_be_bytes 4) sync_unwire_u32
unfolding sync_unwire_u32
u32_read n rest h =
    rw (uint_from_split 4 n rest h)
      (ap (λ (k : ℕ). ok (k, safe rest)) (from_be_bytes-to_be_bytes 4 n h))

pub u16_read : Reads (IsUint 2) (to_be_bytes 2) sync_unwire_u16
unfolding sync_unwire_u16
u16_read n rest h =
    rw (uint_from_split 2 n rest h)
      (ap (λ (k : ℕ). ok (k, safe rest)) (from_be_bytes-to_be_bytes 2 n h))

pub be_read : (w : ℕ) → Reads (IsUint w) (to_be_bytes w) (read_be w)
unfolding read_be
be_read w n rest h =
    rw (uint_from_split w n rest h)
      (ap (λ (k : ℕ). ok (k, safe rest)) (from_be_bytes-to_be_bytes w n h))

abbrev pub AnyByte : ℕ → Type 0
AnyByte n = Unit {0}

pub u8_read : Reads AnyByte enc_byte sync_unwire_u8
unfolding sync_unwire_u8
u8_read n rest h =
    rw (split_slice-append 1 (n ∷ []) rest refl)
      (ap (λ (k : ℕ). ok (k, safe rest)) (from_be_bytes-singleton n))

module _ {A : Type 0} (u : Unwiring A) (Fits : A → Type 0) (enc : A → List ℕ)
    (reads : Reads Fits enc u.sync_unwiring) where
  pub array_read :
      (xs : List A) (rest : List ℕ)
      → All Fits xs
      → sync_unwiring_array u (length xs) (safe (flat_map enc xs ++ rest)) ≡ ok (xs, safe rest)
  unfolding sync_unwiring_array flat_map
  array_read [] rest h = refl
  array_read (x ∷ xs) rest h = rw (
    append_assoc (enc x) (flat_map enc xs) rest,
    reads x (flat_map enc xs ++ rest) h.0,
    array_read xs rest h.1,
  )

  -- A vector whose elements Rust can reserve room for.
  abbrev pub FitsVec : List A → Type 0
  FitsVec xs = All Fits xs × (length xs < 2 ^ 64) × (length xs * u.size_of ≤ isize_max)

  -- sync_unwiring_vec of a slice that starts with the format of a vector returns the vector and
  -- leaves what follows, if sync_unwiring of an element reads its format and the vector fits
  -- isize::MAX bytes.
  pub vec_read : Reads FitsVec (enc_vec enc) (sync_unwiring_vec u)
  unfolding sync_unwiring_vec
  vec_read xs rest h =
      rw
        (
          append_assoc (to_be_bytes 8 (length xs)) (flat_map enc xs) rest,
          u64_read (length xs) (flat_map enc xs ++ rest) h.1,
          ge→ltb isize_max (length xs * u.size_of) h.2,
        )
        (array_read xs rest h.0)
