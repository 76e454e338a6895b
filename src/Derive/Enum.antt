-- ===== src/Derive/Enum.antt =====
-- wiring-derive/src/lib.rs: what the derives make of an enumeration: a tag, the index of the variant, and then the
-- variant's fields. Also what they make of a structure with no fields.
pub mod Tags
pub mod Measure
pub mod Sync
use wiring.Base.{
  ℕ, zero, suc, ◌-◌, ◌*◌, ◌%◌, ◌^◌, Bool, true, false, Option, none, some, List, [], ◌∷◌, ◌++◌,
  flat_map, ltb, if◌then◌else◌, invalid_data, Result, panic, err, ok, ◌>>=◌,
}
use wiring.Wire.{Writes}
use wiring.Encode.{provided, Wiring, SyncWiring}
use wiring.Decode.{Reader, Unwiring}
use wiring.Decode.Async.{
  u8_async_unwiring, u16_async_unwiring, u32_async_unwiring, unit_async_unwiring, AsyncUnwiring,
}
use wiring.Decode.Containers.{add_lengths}
use wiring.Decode.Numbers.{u8_unwiring, u16_unwiring, u32_unwiring}
use wiring.Encode.Numbers.{u8_wiring, u16_wiring, u32_wiring, unit_wiring}

pub data Tag : Type 0 where
  u8 u16 u32 : Tag

abbrev pub tag_size : Tag → ℕ
tag_size u8 = 1
tag_size u16 = 2
tag_size u32 = 4

-- The `panic!` of the macro for a tag that is too small.
abbrev pub too_many : Tag → ℕ → Bool
too_many u8 len = ltb (2 ^ 16 - 1) len
too_many u16 len = ltb (2 ^ 16 - 1) len
too_many u32 len = ltb (2 ^ 32 - 1) len

-- The `#[tag(..)]` attributes, the last one in force.
unfoldable pub get_tag : List Tag → ℕ → Result Tag
get_tag [] len = ok u16
get_tag (a ∷ []) len = if too_many a len then panic else ok a
get_tag (a ∷ (b ∷ rest)) len = if too_many a len then panic else get_tag (b ∷ rest) len

-- `(#idx as #tag)`.
abbrev pub as_tag : Tag → ℕ → ℕ
as_tag tag idx = idx % 2 ^ (8 * tag_size tag)

-- A variant: the fields of a value of it, as a wire takes them, reading them back into the value, and measuring them.
pub record Variant (E : Type 0) : Type 0 where
  pub is_unit : Bool
  pub fields : List (Wiring E)
  pub read_fields : AsyncUnwiring E
  pub sync_read_fields : Reader → Result (E × Reader)
  pub fields_length : Reader → Result (ℕ × Reader)

abbrev pub nth {ℓ} : {A : Type ℓ} → ℕ → List A → Option A
nth n [] = none
nth zero (x ∷ xs) = some x
nth (suc n) (x ∷ xs) = nth n xs

pub tag_wiring : Tag → Wiring ℕ
unfolding u8_wiring u16_wiring u32_wiring
tag_wiring u8 = u8_wiring
tag_wiring u16 = u16_wiring
tag_wiring u32 = u32_wiring

-- The arms of `concat_array`: a variant with fields leaves the buffer as it is.
pub enum_concat : Tag → ℕ → Bool → List ℕ → Result (List ℕ)
unfolding tag_wiring
enum_concat tag idx true buf = (tag_wiring tag).concat_array (as_tag tag idx) buf
enum_concat tag idx false buf = ok buf

tag_unwiring : Tag → AsyncUnwiring ℕ
unfolding u8_async_unwiring u16_async_unwiring u32_async_unwiring
tag_unwiring u8 = u8_async_unwiring
tag_unwiring u16 = u16_async_unwiring
tag_unwiring u32 = u32_async_unwiring

sync_tag_unwiring : Tag → Reader → Result (ℕ × Reader)
unfolding u8_unwiring u16_unwiring u32_unwiring
sync_tag_unwiring u8 r = u8_unwiring.sync_unwiring r
sync_tag_unwiring u16 r = u16_unwiring.sync_unwiring r
sync_tag_unwiring u32 r = u32_unwiring.sync_unwiring r

module _ {E : Type 0} where
  unfoldable pub sync_fields : List (Wiring E) → SyncWiring E
  sync_fields [] t e v = ok v
  sync_fields (w ∷ ws) t e v = w.sync_wiring t e v >>= sync_fields ws t e

  -- The arms of the match on the tag; there is none for an index beyond the last variant.
  abbrev pub read_variant : Option (Variant E) → AsyncUnwiring E
  read_variant none b = err invalid_data
  read_variant (some v) b = v.read_fields b

  abbrev pub sync_read_variant : Option (Variant E) → Reader → Result (E × Reader)
  sync_read_variant none r = err invalid_data
  sync_read_variant (some v) r = v.sync_read_fields r

  abbrev pub variant_length : Option (Variant E) → Reader → Result (ℕ × Reader)
  variant_length none r = err invalid_data
  variant_length (some v) r = v.fields_length r

module _ {E : Type 0} (tag : Tag) where
  -- The arms of `wiring` and of `wiring_ref`, by what they do with a field.
  pub enum_writes : (Wiring E → E → Writes) → ℕ → List (Wiring E) → E → Writes
  unfolding tag_wiring
  enum_writes f idx fields e =
      (tag_wiring tag).async_wiring (as_tag tag idx) ++ flat_map (λ w. f w e) fields

  unfoldable pub enum_sync_wiring : ℕ → List (Wiring E) → SyncWiring E
  unfolding tag_wiring sync_fields
  enum_sync_wiring idx fields t e v =
      (tag_wiring tag).sync_wiring t (as_tag tag idx) v >>= sync_fields fields t e

  pub enum_unwiring : List (Variant E) → AsyncUnwiring E
  unfolding tag_unwiring
  enum_unwiring variants b = tag_unwiring tag b >>= λ p. read_variant (nth p.0 variants) p.1

  pub enum_sync_unwiring : List (Variant E) → Reader → Result (E × Reader)
  unfolding sync_tag_unwiring
  enum_sync_unwiring variants r =
      sync_tag_unwiring tag r >>= λ p. sync_read_variant (nth p.0 variants) p.1

  -- One round of `bytes_length`.
  unfoldable pub enum_length : List (Variant E) → Reader → Result (ℕ × Reader)
  unfolding sync_tag_unwiring
  enum_length variants r = sync_tag_unwiring tag r >>= λ p. variant_length (nth p.0 variants) p.1

  -- The implementation that is derived; `size` is the size of the enumeration.
  unfoldable pub enum_derived_unwiring : List (Variant E) → ℕ → Unwiring E
  unfolding enum_sync_unwiring enum_length add_lengths
  enum_derived_unwiring variants size = record {
    fixed_size = 0;
    mixed = true;
    size_of = size;
    sync_unwiring = enum_sync_unwiring variants;
    bytes_length =
        λ count. add_lengths (enum_length variants) count (tag_size tag * count % 2 ^ 64);
  }

-- A structure with no fields: `wiring` writes `()`, a zero byte, but `concat_array` writes a one.
abbrev pub unit_struct_concat : List ℕ → Result (List ℕ)
unit_struct_concat [] = panic
unit_struct_concat (b ∷ buf) = ok (1 ∷ buf)

pub unit_struct_wiring : Wiring (Unit {0})
unfolding provided unit_wiring
unit_struct_wiring =
    provided 1 false unit_wiring.async_wiring unit_wiring.wiring_ref unit_wiring.sync_wiring
      (λ u buf. unit_struct_concat buf)

pub unit_struct_unwiring : AsyncUnwiring (Unit {0})
unfolding unit_async_unwiring
unit_struct_unwiring = unit_async_unwiring
