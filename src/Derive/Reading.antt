-- ===== src/Derive/Reading.antt =====
-- wiring-derive/src/lib.rs: what `#[derive(Unwiring)]` makes of a structure.
pub mod Measure
use wiring.Base.{ℕ, ◌+◌, ◌||◌, false, refl, Bool, List, [], ◌++◌, append_assoc, Result, ok, ◌>>=◌}
use wiring.Decode.{Reader, Unwiring}
use wiring.Decode.Async.{AsyncUnwiring}
use wiring.Decode.AsyncReads.{Follows, Agree-ok, Agree-bind}
use wiring.Decode.Containers.{add_lengths, wrapping_add}
use wiring.Decode.Takes.{Takes}

-- The fields of a structure behind each other, each with the readings of its type; the constructor takes them in order.
pub data FieldReads : Type 0 → Type 1 where
  no_fields : {S : Type 0} → S → FieldReads S
  and_field : {A S : Type 0} → FieldReads (A → S) → Unwiring A → AsyncUnwiring A → FieldReads S

-- `Self { name: wire.unwiring().await?, … }`.
pub struct_unwiring : {S : Type 0} → FieldReads S → AsyncUnwiring S
struct_unwiring (no_fields s) b = ok (s, b)
struct_unwiring (and_field r u f) b = do
  (make, b') ← struct_unwiring r b
  (a, b'') ← f b'
  ok (make a, b'')

pub struct_sync_unwiring : {S : Type 0} → FieldReads S → Reader → Result (S × Reader)
struct_sync_unwiring (no_fields s) r = ok (s, r)
struct_sync_unwiring (and_field rs u f) r = do
  (make, r') ← struct_sync_unwiring rs r
  (a, r'') ← u.sync_unwiring r'
  ok (make a, r'')

abbrev pub fields_fixed_size : {S : Type 0} → FieldReads S → ℕ
fields_fixed_size (no_fields s) = 0
fields_fixed_size (and_field r u f) = fields_fixed_size r + u.fixed_size

abbrev pub fields_mixed : {S : Type 0} → FieldReads S → Bool
fields_mixed (no_fields s) = false
fields_mixed (and_field r u f) = fields_mixed r || u.mixed

-- One round of `bytes_length`.
pub fields_length : {S : Type 0} → FieldReads S → Reader → Result (ℕ × Reader)
fields_length (no_fields s) r = ok (0, r)
fields_length (and_field rs u f) r = do
  (n, r1) ← fields_length rs r
  (n', r2) ← u.bytes_length 1 r1
  ok (wrapping_add n n', r2)

-- The implementation that is derived; `size` is the size of the structure.
pub derived_unwiring : {S : Type 0} → FieldReads S → ℕ → Unwiring S
unfolding struct_sync_unwiring fields_length add_lengths
derived_unwiring r size = record {
  fixed_size = fields_fixed_size r;
  mixed = fields_mixed r;
  size_of = size;
  sync_unwiring = struct_sync_unwiring r;
  bytes_length = λ count. add_lengths (fields_length r) count 0;
}

-- Every field is taken from its bytes, and the structure from all of them.
pub data FieldTakes : (S : Type 0) → FieldReads S → S → List ℕ → Type 1 where
  takes_none : {S : Type 0} (s : S) → FieldTakes S (no_fields s) s []
  takes_field :
      {A S : Type 0} (r : FieldReads (A → S)) (u : Unwiring A) (f : AsyncUnwiring A) (make : A → S)
      (a : A) (bs cs : List ℕ)
      → FieldTakes (A → S) r make bs
      → Takes f a cs
      → FieldTakes S (and_field r u f) (make a) (bs ++ cs)

-- The unwiring that is derived for a structure takes from a stream exactly the bytes of its fields,
-- in their order, and gives the structure with these fields, if unwiring of each field takes its
-- bytes and gives the field.
pub struct-Takes :
    {S : Type 0} (r : FieldReads S) (s : S) (bs : List ℕ)
    → FieldTakes S r s bs
    → Takes (struct_unwiring r) s bs
unfolding struct_unwiring
struct-Takes r s bs (takes_none s') rest = refl
struct-Takes r s bs (takes_field r' u f make a bs' cs t t') rest =
    rw (append_assoc bs' cs rest, struct_unwiring, struct-Takes r' make bs' t (cs ++ rest), t' rest)
      refl

abbrev pub AllFollow : {S : Type 0} → FieldReads S → Type 0
AllFollow (no_fields s) = Unit {0}
AllFollow (and_field r u f) = AllFollow r × Follows u.sync_unwiring f

pub struct-Follows :
    {S : Type 0} (r : FieldReads S)
    → AllFollow r
    → Follows (struct_sync_unwiring r) (struct_unwiring r)
unfolding struct_unwiring struct_sync_unwiring
struct-Follows (no_fields s) h b = Agree-ok s b
struct-Follows (and_field r u f) h b =
    Agree-bind _ _ _ _ (struct-Follows r h.0 b)
      λ make c. Agree-bind _ _ _ _ (h.1 c) λ a d. Agree-ok (make a) d
