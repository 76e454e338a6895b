-- ===== src/Encode/NumberBytes.antt =====
-- wiring/src/core/wire.rs: the bytes that the implementations of `Wiring` for numbers write.
use wiring.Base.{
  refl, ap, ℕ, append-nil, false, flatten, ◌≡◌, length, true, flat_map, flat_map_singleton, ok, ◌∷◌,
  ◌∙◌, [], All, List, sym,
}
use wiring.Bytes.{to_be_bytes, length-to_be_bytes}
use wiring.Wire.{write_uint, Target, sync_wire_u64, VecWire, sync_wire_all}
use wiring.Wire.Laws.{
  extended, sync_wire_all_lem, write_all_lem, sync_wire_f32_lem, sync_wire_u64_lem, Room,
  Room-second, extend-extend, Room-Allocates, Allocates-first,
}
use wiring.Format.{enc_byte, enc_bool, enc_unit, bool_byte, enc_vec}
use wiring.Encode.{sync_each}
use wiring.Encode.Laws.{Encodes, provided-Encodes, SyncWrites, FitsSlice}
use wiring.Encode.Numbers.{
  u16_wiring, i64_wiring, i32_wiring, bool_wiring, char_wiring, u64_wiring, unit_wiring,
  usize_wiring, u128_wiring, u8_wiring, i16_wiring, f64_wiring, i128_wiring, u32_wiring, f32_wiring,
  i8_wiring,
}

-- A value that any bit pattern of the type's width stands for.
abbrev pub AnyValue : {A : Type 0} → A → Type 0
AnyValue x = Unit {0}

module _ (w : ℕ) (n : ℕ) where
  uint_written : flatten (write_uint w n) ≡ to_be_bytes w n
  unfolding flatten
  uint_written = append-nil (to_be_bytes w n)

  uint_size : AnyValue n → false ≡ false → length (to_be_bytes w n) ≡ w
  uint_size h e = length-to_be_bytes w n

pub u16-Encodes : Encodes u16_wiring AnyValue (to_be_bytes 2)
unfolding u16_wiring
u16-Encodes =
    provided-Encodes AnyValue (to_be_bytes 2) 2 false _ _ _ _ (uint_written 2) (uint_written 2)
      (λ t n v h room. sync_wire_all_lem t (to_be_bytes 2 n) v room) (uint_size 2)

be_written :
    (w : ℕ) (t : Target) (n : ℕ) (v : VecWire)
    → AnyValue n
    → Room t v (length (to_be_bytes w n))
    → sync_wire_all t true (to_be_bytes w n) v ≡ ok (extended (to_be_bytes w n) v)
be_written w t n v h room = sync_wire_all_lem t (to_be_bytes w n) v room

pub i16-Encodes : Encodes i16_wiring AnyValue (to_be_bytes 2)
unfolding i16_wiring
i16-Encodes =
    provided-Encodes AnyValue (to_be_bytes 2) 2 false _ _ _ _ (uint_written 2) (uint_written 2)
      (be_written 2) (uint_size 2)

u32_base :
    Encodes
      (record u32_wiring { sync_wiring_array = sync_each u32_wiring.sync_wiring })
      AnyValue
      (to_be_bytes 4)
unfolding u32_wiring
u32_base =
    provided-Encodes AnyValue (to_be_bytes 4) 4 false _ _ _ _ (uint_written 4) (uint_written 4)
      (be_written 4) (uint_size 4)

-- Every writing method of u32 writes the 4 big-endian bytes of each value, sync_wiring_array, which
-- flattens the array first, included.
pub u32-Encodes : Encodes u32_wiring AnyValue (to_be_bytes 4)
unfolding u32_wiring
u32-Encodes = record {
  sync = u32_base.sync;
  slice = u32_base.slice;
  async = u32_base.async;
  by_ref = u32_base.by_ref;
  async_slice = u32_base.async_slice;
  async_array = u32_base.async_array;
  fixed = u32_base.fixed;
  array = λ t xs v h room. sync_wire_all_lem t (flat_map (to_be_bytes 4) xs) v room;
}

pub i32-Encodes : Encodes i32_wiring AnyValue (to_be_bytes 4)
unfolding i32_wiring
i32-Encodes =
    provided-Encodes AnyValue (to_be_bytes 4) 4 false _ _ _ _ (uint_written 4) (uint_written 4)
      (λ t n v h room. write_all_lem t (to_be_bytes 4 n) v (Room-Allocates t v _ room))
      (uint_size 4)

-- Every writing method of f32 writes the 4 big-endian bytes of the bit pattern, and FIXED_SIZE is
-- exact.
pub f32-Encodes : Encodes f32_wiring AnyValue (to_be_bytes 4)
unfolding f32_wiring
f32-Encodes =
    provided-Encodes AnyValue (to_be_bytes 4) 4 false _ _ _ _ (uint_written 4) (uint_written 4)
      (λ t n v h room. sync_wire_f32_lem t n v (Room-Allocates t v _ room)) (uint_size 4)

u64_written : SyncWrites AnyValue (to_be_bytes 8) sync_wire_u64
u64_written t n v h room = sync_wire_u64_lem t n v (Room-Allocates t v _ room)

pub u64-Encodes : Encodes u64_wiring AnyValue (to_be_bytes 8)
unfolding u64_wiring
u64-Encodes =
    provided-Encodes AnyValue (to_be_bytes 8) 8 false _ _ _ _ (uint_written 8) (uint_written 8)
      u64_written (uint_size 8)

pub i64-Encodes : Encodes i64_wiring AnyValue (to_be_bytes 8)
unfolding i64_wiring
i64-Encodes =
    provided-Encodes AnyValue (to_be_bytes 8) 8 false _ _ _ _ (uint_written 8) (uint_written 8)
      (be_written 8) (uint_size 8)

pub f64-Encodes : Encodes f64_wiring AnyValue (to_be_bytes 8)
unfolding f64_wiring
f64-Encodes =
    provided-Encodes AnyValue (to_be_bytes 8) 8 true _ _ _ _ (uint_written 8) (uint_written 8)
      (be_written 8) (λ n h e. cc)

pub u128-Encodes : Encodes u128_wiring AnyValue (to_be_bytes 16)
unfolding u128_wiring
u128-Encodes =
    provided-Encodes AnyValue (to_be_bytes 16) 16 false _ _ _ _ (uint_written 16) (uint_written 16)
      (be_written 16) (uint_size 16)

pub i128-Encodes : Encodes i128_wiring AnyValue (to_be_bytes 16)
unfolding i128_wiring
i128-Encodes =
    provided-Encodes AnyValue (to_be_bytes 16) 16 false _ _ _ _ (uint_written 16) (uint_written 16)
      (be_written 16) (uint_size 16)

pub usize-Encodes : Encodes usize_wiring AnyValue (to_be_bytes 8)
unfolding usize_wiring
usize-Encodes =
    provided-Encodes AnyValue (to_be_bytes 8) 8 true _ _ _ _ (uint_written 8) (uint_written 8)
      u64_written (λ n h e. cc)

pub char-Encodes : Encodes char_wiring AnyValue (to_be_bytes 4)
unfolding char_wiring
char-Encodes =
    provided-Encodes AnyValue (to_be_bytes 4) 0 true _ _ _ _ (uint_written 4) (uint_written 4)
      (be_written 4) (λ n h e. cc)

byte_written : SyncWrites AnyValue enc_byte (λ t n v. sync_wire_all t true (n ∷ []) v)
byte_written t n v h room = sync_wire_all_lem t (n ∷ []) v room

pub i8-Encodes : Encodes i8_wiring AnyValue enc_byte
unfolding i8_wiring flatten
i8-Encodes =
    provided-Encodes AnyValue enc_byte 1 false _ _ _ _ (λ n. refl) (λ n. refl) byte_written
      (λ n h e. refl)

-- A slice of bytes is written at once, behind its length.
u8_slice : SyncWrites (FitsSlice AnyValue enc_byte) (enc_vec enc_byte) u8_wiring.sync_wiring_slice
unfolding u8_wiring
u8_slice t xs v h room =
    let len = to_be_bytes 8 (length xs) in
    let room' = Room-second t v len (flat_map enc_byte xs) room in
    rw (sync_wire_u64_lem t (length xs) v (Allocates-first t v len (flat_map enc_byte xs) room)) (
      ap (λ (bs : List ℕ). sync_wire_all t true bs (extended len v)) (sym (flat_map_singleton xs))
      ∙ sync_wire_all_lem t (flat_map enc_byte xs) _ room'
      ∙ ap ok (extend-extend len (flat_map enc_byte xs) v))

u8_array : SyncWrites (All AnyValue) (flat_map enc_byte) u8_wiring.sync_wiring_array
unfolding u8_wiring
u8_array t xs v h room =
    ap (λ (bs : List ℕ). sync_wire_all t true bs v) (sym (flat_map_singleton xs))
    ∙ sync_wire_all_lem t (flat_map enc_byte xs) v room

-- Every writing method of u8 writes the byte, and the methods for slices and arrays, which write all
-- bytes at once, write what the format asks of a slice and an array.
pub u8-Encodes : Encodes u8_wiring AnyValue enc_byte
unfolding u8_wiring flatten
u8-Encodes = record {
  sync = byte_written;
  slice = u8_slice;
  array = u8_array;
  async = λ n. refl;
  by_ref = λ n. refl;
  async_slice = λ xs. rw (flat_map_singleton xs, append-nil);
  async_array = λ xs. rw (flat_map_singleton xs, append-nil);
  fixed = λ n h e. refl;
}

pub bool-Encodes : Encodes bool_wiring AnyValue enc_bool
unfolding bool_wiring flatten
bool-Encodes =
    provided-Encodes AnyValue enc_bool 1 false _ _ _ _ (λ b. refl) (λ b. refl)
      (λ t b v h room. byte_written t (bool_byte b) v h room) (λ b h e. refl)

pub unit-Encodes : Encodes unit_wiring AnyValue enc_unit
unfolding unit_wiring flatten
unit-Encodes =
    provided-Encodes AnyValue enc_unit 0 true _ _ _ _ (λ u. refl) (λ u. refl)
      (λ t u v h room. byte_written t 0 v h room) (λ u h e. cc)
