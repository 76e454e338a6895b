-- ===== src/Encode/Laws.antt =====
-- wiring/src/core/wire.rs: what it is for an implementation of `Wiring` to meet a format, and the methods
-- that the trait provides.
use wiring.Base.{
  ℕ, ◌*◌, ◌≡◌, ◌<◌, sym, ◌%◌, ◌^◌, inl, inr, Bool-cases, All, length-append, ap, ◌∙◌, Bool, false,
  List, [], ◌∷◌, arith, length, flat_map, flatten, ok, Result, ◌++◌, flatten-flat_map, ◌>>=◌,
}
use wiring.Bytes.{to_be_bytes}
use wiring.Wire.{VecWire, Target, wrapped, reserve_capacity, Writes}
use wiring.Wire.Laws.{
  extended, sync_wire_u64_lem, Room, Room-first, Room-second, Room-direct, extend-extend,
  extend-nil, Allocates-first, reserve_capacity_lem, Room-Allocates, reserved, Room-reserved,
  extend-reserved,
}
use wiring.Format.{enc_vec}
use wiring.Encode.{SyncWiring, Wiring, sync_each, default_sync_wiring_slice, provided}

-- The synchronous method appends the bytes, through either target.
abbrev pub SyncWrites : {A : Type 0} → (A → Type 0) → (A → List ℕ) → SyncWiring A → Type 0
SyncWrites {A} Fits enc f =
    (t : Target) (x : A) (v : VecWire)
    → Fits x
    → Room t v (length (enc x))
    → f t x v ≡ ok (extended (enc x) v)

abbrev pub FitsSlice : {A : Type 0} → (A → Type 0) → (A → List ℕ) → List A → Type 0
FitsSlice Fits enc xs = All Fits xs × (length xs < 2 ^ 64) × (length (flat_map enc xs) < 2 ^ 64)

-- The bytes of a type that is not `MIXED` are as many as its `FIXED_SIZE`.
abbrev pub HasFixedSize : {A : Type 0} → (A → Type 0) → (A → List ℕ) → ℕ → Bool → Type 0
HasFixedSize {A} Fits enc fixed is_mixed =
    (x : A) → Fits x → is_mixed ≡ false → length (enc x) ≡ fixed

pub record Encodes {A : Type 0} (w : Wiring A) (Fits : A → Type 0) (enc : A → List ℕ) : Type 0 where
  pub sync : SyncWrites Fits enc w.sync_wiring
  pub slice : SyncWrites (FitsSlice Fits enc) (enc_vec enc) w.sync_wiring_slice
  pub array : SyncWrites (All Fits) (flat_map enc) w.sync_wiring_array
  pub async : (x : A) → flatten (w.async_wiring x) ≡ enc x
  pub by_ref : (x : A) → flatten (w.wiring_ref x) ≡ enc x
  pub async_slice : (xs : List A) → flatten (w.wiring_slice xs) ≡ enc_vec enc xs
  pub async_array : (xs : List A) → flatten (w.wiring_array xs) ≡ flat_map enc xs
  pub fixed : HasFixedSize Fits enc w.fixed_size w.mixed

module _ {A : Type 0} (Fits : A → Type 0) (enc : A → List ℕ) (f : SyncWiring A)
    (sync : SyncWrites Fits enc f) where
  pub sync_each_lem : SyncWrites (All Fits) (flat_map enc) (sync_each f)
  unfolding sync_each flat_map
  sync_each_lem t [] v h room = ap ok (sym (extend-nil v (Room-direct t v 0 room)))
  sync_each_lem t (x ∷ xs) v h room =
      rw (sync t x v h.0 (Room-first t v (enc x) (flat_map enc xs) room)) (
        sync_each_lem t xs (extended (enc x) v) h.1 (Room-second t v (enc x) (flat_map enc xs) room)
        ∙ ap ok (extend-extend (enc x) (flat_map enc xs) v))

  module _ (fixed : ℕ) (is_mixed : Bool) (size : HasFixedSize Fits enc fixed is_mixed) where
    pub length-flat_map_fixed :
        (xs : List A)
        → All Fits xs
        → is_mixed ≡ false
        → length (flat_map enc xs) ≡ length xs * fixed
    unfolding flat_map
    length-flat_map_fixed [] h e = omega arith
    length-flat_map_fixed (x ∷ xs) h e = omega (
      arith,
      length-append (enc x) (flat_map enc xs),
      size x h.0 e,
      length-flat_map_fixed xs h.1 e,
    )

    unchecked_each :
        (t : Target) (xs : List A) (v : VecWire)
        → All Fits xs
        → length (flat_map enc xs) < 2 ^ 64
        → is_mixed ≡ false
        → Room t v (length (flat_map enc xs))
        → (reserve_capacity t (length xs * fixed % 2 ^ 64) v >>= sync_each f wrapped xs)
          ≡ ok (extended (flat_map enc xs) v)
    unchecked_each t xs v h small e room =
        let n = length (flat_map enc xs) in
        let exact : length xs * fixed % 2 ^ 64 ≡ n = omega (arith, length-flat_map_fixed xs h e) in
        rw (exact, reserve_capacity_lem t n v (Room-Allocates t v n room))
          (sync_each_lem wrapped xs (reserved t n v) h (Room-reserved t v n room)
            ∙ ap ok (extend-reserved t (flat_map enc xs) v))

    -- sync_wiring_slice, with its unchecked writes after one reservation for types that are not
    -- MIXED, appends the length and the elements' bytes and stays inside what is allocated, however
    -- the vector grows, if sync_wiring of an element appends its bytes, FIXED_SIZE is exact when the
    -- type is not MIXED, the length and the bytes of the slice fit 64 bits, and what the vector
    -- allocates while it grows to the bytes is at most isize::MAX.
    pub default_sync_wiring_slice_lem :
        SyncWrites (FitsSlice Fits enc) (enc_vec enc) (default_sync_wiring_slice fixed is_mixed f)
    unfolding default_sync_wiring_slice
    default_sync_wiring_slice_lem t xs v h room =
        let len = to_be_bytes 8 (length xs) in
        let bs = flat_map enc xs in
        let room' = Room-second t v len bs room in
        let wrote = sync_wire_u64_lem t (length xs) v (Allocates-first t v len bs room) in
        let together = ap ok (extend-extend len bs v) in
        elim (Bool-cases is_mixed) [
          | inl e ↦ rw (wrote, e) (sync_each_lem t xs _ h.0 room' ∙ together)
          | inr e ↦ rw (wrote, e) (unchecked_each t xs _ h.0 h.2 e room' ∙ together)
        ]

-- An implementation that overrides no provided method meets the format if its own methods do.
pub provided-Encodes :
    {A : Type 0} (Fits : A → Type 0) (enc : A → List ℕ) (fixed : ℕ) (is_mixed : Bool)
    (f g : A → Writes) (h : SyncWiring A) (concat : A → List ℕ → Result (List ℕ))
    → ((x : A) → flatten (f x) ≡ enc x)
    → ((x : A) → flatten (g x) ≡ enc x)
    → SyncWrites Fits enc h
    → HasFixedSize Fits enc fixed is_mixed
    → Encodes (provided fixed is_mixed f g h concat) Fits enc
unfolding provided flatten
provided-Encodes Fits enc fixed is_mixed f g h concat async by_ref sync size = record {
  sync = sync;
  slice = default_sync_wiring_slice_lem Fits enc h sync fixed is_mixed size;
  array = sync_each_lem Fits enc h sync;
  async = async;
  by_ref = by_ref;
  async_slice = λ xs. ap (◌++◌ (to_be_bytes 8 (length xs))) (flatten-flat_map g enc by_ref xs);
  async_array = flatten-flat_map f enc async;
  fixed = size;
}
