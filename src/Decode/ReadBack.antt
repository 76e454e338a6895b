-- ===== src/Decode/ReadBack.antt =====
-- wiring/src/core/unwire.rs: the implementations of `Unwiring` on bytes that follow the format.
use wiring.Base.{
  List, ℕ, Bool, ◌≡◌, append_assoc, true, ◌++◌, length, some, false, ◌≤◌, none, arith, ge→ltb, refl,
}
use wiring.Bytes.{to_be_bytes, isize_max}
use wiring.Format.{
  enc_bool, enc_unit, enc_pair, enc_triple, enc_option, enc_string, enc_vec, enc_byte,
}
use wiring.Decode.{Unwiring}
use wiring.Decode.Containers.{
  string_unwiring, option_unwiring, option_tag, vec_unwiring, pair_unwiring, pair_sync_unwiring,
  triple_unwiring, triple_sync_unwiring,
}
use wiring.Decode.Laws.{
  Reads, u8_read, FitsVec, vec_read, u64_read, read_exact-append, IsUint, AnyByte, u32_read,
  u16_read, be_read,
}
use wiring.Decode.Numbers.{
  u8_unwiring, u16_unwiring, u32_unwiring, u64_unwiring, u128_unwiring, bool_unwiring,
  unit_unwiring,
}
use wiring.Encode.ContainerBytes.{FitsOption}

abbrev pub AnyOf : {A : Type 0} → A → Type 0
AnyOf x = Unit {0}

pub bool_read : Reads AnyOf enc_bool bool_unwiring.sync_unwiring
unfolding bool_unwiring
bool_read true rest h = rw (u8_read 1 rest tt)
bool_read false rest h = rw (u8_read 0 rest tt)

pub unit_read : Reads AnyOf enc_unit unit_unwiring.sync_unwiring
unfolding unit_unwiring
unit_read u rest h = rw (u8_read 0 rest tt)

-- A text that is one, and that memory can be reserved for.
abbrev pub FitsText : (List ℕ → Bool) → List ℕ → Type 0
FitsText valid_utf8 s = (valid_utf8 s ≡ true) × (length s ≤ isize_max)

-- sync_unwiring of String on a slice that starts with the format of a valid text of at most
-- isize::MAX bytes returns the text and leaves what follows.
pub string_read :
    (valid_utf8 : List ℕ → Bool)
    → Reads (FitsText valid_utf8) enc_string (string_unwiring valid_utf8).sync_unwiring
unfolding string_unwiring
string_read valid_utf8 s rest h = rw (
  append_assoc (to_be_bytes 8 (length s)) s rest,
  u64_read (length s) (s ++ rest) (omega (arith, h.1)),
  ge→ltb isize_max (length s) h.1,
  read_exact-append (length s) s rest refl,
  h.0,
)

module _ {A : Type 0} (u : Unwiring A) (Fits : A → Type 0) (enc : A → List ℕ)
    (reads : Reads Fits enc u.sync_unwiring) where
  -- sync_unwiring of Option<T> on a slice that starts with the format of an option returns it and
  -- leaves what follows, if that of T reads its format.
  pub option_read :
      (size : ℕ) → Reads (FitsOption Fits) (enc_option enc) (option_unwiring u size).sync_unwiring
  unfolding option_unwiring option_tag
  option_read size none rest h = rw (u8_read 0 rest tt)
  option_read size (some x) rest h = rw (u8_read 1 (enc x ++ rest) tt, reads x rest h)

  pub vec_unwiring_read :
      Reads (FitsVec u Fits enc reads) (enc_vec enc) (vec_unwiring u).sync_unwiring
  unfolding vec_unwiring
  vec_unwiring_read = vec_read u Fits enc reads

module _ {A B : Type 0} (u : Unwiring A) (u' : Unwiring B) (F : A → Type 0) (F' : B → Type 0)
    (enc : A → List ℕ) (enc' : B → List ℕ) (reads : Reads F enc u.sync_unwiring)
    (reads' : Reads F' enc' u'.sync_unwiring) where
  -- sync_unwiring of (T, TT) on a slice that starts with the format of a pair returns it and leaves
  -- what follows, if those of T and TT read their formats.
  pub pair_read :
      (size : ℕ)
      → Reads (λ p. F p.0 × F' p.1) (enc_pair enc enc') (pair_unwiring u u' size).sync_unwiring
  unfolding pair_unwiring pair_sync_unwiring
  pair_read size p rest h = rw (
    append_assoc (enc p.0) (enc' p.1) rest,
    reads p.0 (enc' p.1 ++ rest) h.0,
    reads' p.1 rest h.1,
  )

module _ {A B C : Type 0} (u : Unwiring A) (u' : Unwiring B) (u'' : Unwiring C) (F : A → Type 0)
    (F' : B → Type 0) (F'' : C → Type 0) (enc : A → List ℕ) (enc' : B → List ℕ) (enc'' : C → List ℕ)
    (reads : Reads F enc u.sync_unwiring) (reads' : Reads F' enc' u'.sync_unwiring)
    (reads'' : Reads F'' enc'' u''.sync_unwiring) where
  -- sync_unwiring of (T, TT, T3) on a slice that starts with the format of a triple returns it and
  -- leaves what follows, if those of the parts read their formats.
  pub triple_read :
      (size : ℕ)
      → Reads
          (λ p. F p.0 × F' p.1 × F'' p.2)
          (enc_triple enc enc' enc'')
          (triple_unwiring u u' u'' size).sync_unwiring
  unfolding triple_unwiring triple_sync_unwiring
  triple_read size p rest h = rw (
    append_assoc (enc p.0) (enc' p.1 ++ enc'' p.2) rest,
    append_assoc (enc' p.1) (enc'' p.2) rest,
    reads p.0 (enc' p.1 ++ (enc'' p.2 ++ rest)) h.0,
    reads' p.1 (enc'' p.2 ++ rest) h.1,
    reads'' p.2 rest h.2,
  )

pub sync_u8_read : Reads AnyByte enc_byte u8_unwiring.sync_unwiring
unfolding u8_unwiring
sync_u8_read = u8_read

pub sync_u16_read : Reads (IsUint 2) (to_be_bytes 2) u16_unwiring.sync_unwiring
unfolding u16_unwiring
sync_u16_read = u16_read

pub sync_u32_read : Reads (IsUint 4) (to_be_bytes 4) u32_unwiring.sync_unwiring
unfolding u32_unwiring
sync_u32_read = u32_read

pub sync_u64_read : Reads (IsUint 8) (to_be_bytes 8) u64_unwiring.sync_unwiring
unfolding u64_unwiring
sync_u64_read = u64_read

pub sync_u128_read : Reads (IsUint 16) (to_be_bytes 16) u128_unwiring.sync_unwiring
unfolding u128_unwiring
sync_u128_read = be_read 16
