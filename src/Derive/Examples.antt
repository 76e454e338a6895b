-- ===== src/Derive/Examples.antt =====
-- Concrete structures and enumerations for the derives of wiring-derive/src/lib.rs.
use wiring.Derive.Lost.{zero_range_lost}
use wiring.Base.{
  flatten, flat_map, ℕ, ◌+◌, ◌*◌, ◌^◌, ◌<◌, ◌≡◌, refl, false, List, [], ◌∷◌, ◌++◌, arith, le→leb,
  ok, length, ◌≤◌, some, subst, suc, zero, All,
}
use wiring.Bytes.{to_be_bytes}
use wiring.Wire.{Writes, copy_to_front}
use wiring.Encode.{Wiring}
use wiring.Decode.Async.{u8_async_unwiring, u64_async_unwiring}
use wiring.Decode.Numbers.{u8_unwiring, u64_unwiring}
use wiring.Decode.Takes.{Takes, u8-Takes, u64-Takes}
use wiring.Derive.{
  Call, expand, Field, async_call, fixed_list, sync_calls, group, sum_fixed, sync_call,
}
use wiring.Derive.Enum.{
  get_tag, tag_size, Variant, u8, u16, enum_unwiring, enum_writes, enum_derived_unwiring, nth,
}
use wiring.Derive.Enum.Measure.{IsCovered, enum-Safe}
use wiring.Derive.Enum.Tags.{tag_fits, tag_u8_collides, enum_read_back}
use wiring.Derive.Keeps.{called, wirings, expand-keeps, NoEmptyRange}
use wiring.Derive.Plain.{Appends}
use wiring.Derive.Reading.{
  fields_fixed_size, FieldReads, struct_unwiring, struct-Takes, derived_unwiring, and_field,
  no_fields, takes_field, takes_none,
}
use wiring.Derive.Reading.Measure.{derived-Safe}
use wiring.Derive.Struct.{FillsFront, bytes_of, derived-sync_wiring, group-async}
use wiring.Encode.Chains.{Puts}
use wiring.Encode.NumberBytes.{u8-Encodes}
use wiring.Encode.Numbers.{u8_wiring}
use wiring.Safety.{Safe, single_step}
use wiring.Safety.Numbers.{u8-Safe, u64-Safe}

abbrev byte_field : Wiring ℕ
byte_field = u8_wiring

-- A number that is written twice, in a range `#[fixed(2)]`.
abbrev two_fields : List (Field ℕ)
two_fields =
    record { attrs = fixed_list 2 ∷ []; wiring = byte_field }
    ∷ (record { attrs = []; wiring = byte_field } ∷ [])

abbrev two_calls : List (Call ℕ)
two_calls = group (byte_field ∷ (byte_field ∷ [])) ∷ []

two_fields-expand : expand two_fields ≡ ok two_calls
unfolding expand
two_fields-expand = refl

two_fields-NoEmptyRange : All NoEmptyRange two_fields
two_fields-NoEmptyRange = ((ground arith, tt), (tt, tt))

expand-keeps_example : called two_calls ≡ wirings two_fields
expand-keeps_example = expand-keeps two_fields two_calls two_fields-NoEmptyRange two_fields-expand

byte-FillsFront : (n : ℕ) → FillsFront n byte_field
unfolding u8_wiring flatten copy_to_front
byte-FillsFront n = (refl, λ buf h. rw (copy_to_front, le→leb 1 (length buf) h) refl)

derived-sync_wiring_example :
    Puts (λ t v. sync_calls two_calls t 7 v) (flat_map (bytes_of 7) (wirings two_fields))
derived-sync_wiring_example =
    derived-sync_wiring 7 two_fields two_calls two_fields-NoEmptyRange two_fields-expand
      ((byte-FillsFront 7, (byte-FillsFront 7, tt)), tt)

group-async_example :
    (out : Writes) × (async_call Wiring.async_wiring (group (byte_field ∷ (byte_field ∷ []))) 7
      ≡ ok out)
    × (flatten out
        ≡ to_be_bytes 8 (sum_fixed (byte_field ∷ (byte_field ∷ [])))
          ++ flat_map (bytes_of 7) (byte_field ∷ (byte_field ∷ [])))
    × Puts
        (λ t v. sync_call t (group (byte_field ∷ (byte_field ∷ []))) 7 v)
        (flat_map (bytes_of 7) (byte_field ∷ (byte_field ∷ [])))
group-async_example =
    group-async 7 (byte_field ∷ (byte_field ∷ [])) Wiring.async_wiring
      (byte-FillsFront 7, (byte-FillsFront 7, tt))

abbrev byte_variant : Variant ℕ
byte_variant = record {
  is_unit = false;
  fields = byte_field ∷ [];
  read_fields = u8_async_unwiring;
  sync_read_fields = u8_unwiring.sync_unwiring;
  fields_length = u8_unwiring.bytes_length 1;
}

byte-IsCovered : IsCovered byte_variant
byte-IsCovered = record { step = single_step u8_unwiring u8-Safe; measures = u8-Safe.defined 1 }

bytes-IsCovered : (n : ℕ) (v : Variant ℕ) → nth n (byte_variant ∷ []) ≡ some v → IsCovered v
bytes-IsCovered zero v e = let same : byte_variant ≡ v = cc in subst IsCovered same byte-IsCovered
bytes-IsCovered (suc n) v e = cc

enum-Safe_example : Safe (enum_derived_unwiring u16 (byte_variant ∷ []) 4)
enum-Safe_example = enum-Safe u16 (byte_variant ∷ []) bytes-IsCovered 4 (omega arith)

byte_Takes : Takes u8_async_unwiring 7 (flat_map (bytes_of 7) (byte_field ∷ []))
unfolding u8_wiring flatten flat_map
byte_Takes = u8-Takes 7

attrs_read : get_tag (u8 ∷ (u16 ∷ [])) 300 ≡ ok u16
unfolding get_tag
attrs_read = refl

enum_read_back_example :
    Takes
      (enum_unwiring u16 (byte_variant ∷ (byte_variant ∷ [])))
      7
      (flatten (enum_writes u16 Wiring.async_wiring 1 (byte_field ∷ []) 7))
enum_read_back_example =
    enum_read_back u16 (byte_variant ∷ (byte_variant ∷ [])) 1 byte_variant 7 refl (ground arith)
      byte_Takes

tag_fits_example : 300 < 2 ^ (8 * tag_size u16)
tag_fits_example = tag_fits (u8 ∷ (u16 ∷ [])) 300 u16 attrs_read (λ e. cc) (λ e. cc)

tag_u8_collides_example :
    (get_tag (u8 ∷ []) 300 ≡ ok u8)
    × (enum_unwiring u8
          (byte_variant ∷ [])
          (flatten (enum_writes {E = ℕ} u8 Wiring.async_wiring (256 + 0) [] 7) ++ (9 ∷ []))
        ≡ byte_variant.read_fields (9 ∷ []))
tag_u8_collides_example =
    tag_u8_collides (byte_variant ∷ []) 0 300 byte_variant Wiring.async_wiring 7 (9 ∷ [])
      (ground arith) (ground arith) refl

abbrev plain_fields : List (Field ℕ)
plain_fields =
    record { attrs = []; wiring = byte_field } ∷ (record { attrs = []; wiring = byte_field } ∷ [])

byte-Appends : (n : ℕ) → Appends n byte_field
unfolding u8_wiring flatten
byte-Appends n t v room = u8-Encodes.sync t n v tt room

-- A structure of a byte and a u64.
abbrev byte_and_long : FieldReads (ℕ × ℕ)
byte_and_long =
    and_field (and_field (no_fields (λ a b. (a, b))) u8_unwiring u8_async_unwiring) u64_unwiring
      u64_async_unwiring

sizes_fit : fields_fixed_size byte_and_long ≤ 16
unfolding u8_unwiring u64_unwiring
sizes_fit = ground arith

derived-Safe_example : Safe (derived_unwiring byte_and_long 16)
derived-Safe_example =
    derived-Safe byte_and_long 16 (ground arith) sizes_fit ((tt, u8-Safe), u64-Safe)

struct-Takes_example : Takes (struct_unwiring byte_and_long) (3, 9) (3 ∷ to_be_bytes 8 9)
struct-Takes_example =
    struct-Takes byte_and_long (3, 9) (3 ∷ to_be_bytes 8 9)
      (takes_field _ u64_unwiring u64_async_unwiring (λ b. (3, b)) 9 (3 ∷ []) (to_be_bytes 8 9)
        (takes_field _ u8_unwiring u8_async_unwiring (λ a b. (a, b)) 3 [] (3 ∷ [])
          (takes_none (λ a b. (a, b))) (u8-Takes 3))
        (u64-Takes 9 (ground arith)))

zero_range_lost_example :
    expand (
      record { attrs = fixed_list 0 ∷ []; wiring = byte_field }
      ∷ (record { attrs = []; wiring = byte_field } ∷ []))
    ≡ ok []
zero_range_lost_example =
    zero_range_lost byte_field (record { attrs = []; wiring = byte_field }) [] (refl, tt)
      (ground arith)
