-- ===== src/Derive/Enum/Tags.antt =====
-- wiring-derive/src/lib.rs: the tags of an enumeration, what is read back behind them, and where they do not suffice.
use wiring.Base.{
  flatten-append, flatten-flat_map, flat_map, ge→ltb, ℕ, zero, suc, ◌+◌, ◌-◌, ◌*◌, ◌%◌, ◌^◌, ◌≤◌,
  ◌<◌, ◌≡◌, refl, sym, ap, subst, ◌∙◌, ◌≢◌, false, Option, some, List, [], ◌∷◌, ◌++◌, append_assoc,
  arith, flatten, invalid_data, err, ok, length,
}
use wiring.Wire.{Writes}
use wiring.Encode.{Wiring}
use wiring.Decode.Async.{unit_async_unwiring, u16_async_unwiring, u32_async_unwiring}
use wiring.Decode.Takes.{Takes, u8-Takes, u16-Takes, u32-Takes, unit-Takes}
use wiring.Derive.Enum.{
  tag_unwiring, tag_wiring, nth, get_tag, Tag, u8, Variant, enum_unwiring, enum_writes, tag_size,
  unit_struct_wiring, too_many, as_tag, unit_struct_unwiring, u16, u32, read_variant,
}
use wiring.Derive.Keeps.{unless_panic}
use wiring.Derive.Struct.{bytes_of}
use wiring.Encode.NumberBytes.{u16-Encodes, u32-Encodes}
use wiring.Encode.Numbers.{unit_wiring, u8_wiring}

tag-Takes :
    (tag : Tag) (n : ℕ)
    → n < 2 ^ (8 * tag_size tag)
    → Takes (tag_unwiring tag) n (flatten ((tag_wiring tag).async_wiring n))
unfolding tag_unwiring tag_wiring flatten
tag-Takes u8 n h = u8-Takes n
tag-Takes u16 n h =
    subst (Takes u16_async_unwiring n) (sym (u16-Encodes.async n)) (u16-Takes n (omega (arith, h)))
tag-Takes u32 n h =
    subst (Takes u32_async_unwiring n) (sym (u32-Encodes.async n)) (u32-Takes n (omega (arith, h)))

nth-length {ℓ} : {A : Type ℓ} (n : ℕ) (xs : List A) (a : A) → nth n xs ≡ some a → n < length xs
nth-length n [] a e = cc
nth-length zero (x ∷ xs) a e = omega arith
nth-length (suc n) (x ∷ xs) a e = omega (arith, nth-length n xs a e)

not_too_many :
    (a : Tag) (len : ℕ) (tag : Tag)
    → a ≡ tag
    → tag ≢ u8
    → too_many a len ≡ false
    → len < 2 ^ (8 * tag_size tag)
not_too_many u8 len tag same h e = absurd (h (sym same))
not_too_many u16 len tag same h e =
    subst (λ (t : Tag). len < 2 ^ (8 * tag_size t)) same (ground arith)
not_too_many u32 len tag same h e =
    subst (λ (t : Tag). len < 2 ^ (8 * tag_size t)) same (ground arith)

-- If get_tag accepts the tag attributes of an enumeration, of which there is at least one, and the
-- tag is not u8, the number of variants is below the number of values of the tag.
pub tag_fits :
    (attrs : List Tag) (len : ℕ) (tag : Tag)
    → get_tag attrs len ≡ ok tag
    → attrs ≢ []
    → tag ≢ u8
    → len < 2 ^ (8 * tag_size tag)
unfolding get_tag
tag_fits [] len tag e h h' = absurd (h refl)
tag_fits (a ∷ []) len tag e h h' =
    let small = unless_panic (too_many a len) (ok a) tag e in
    let same : a ≡ tag = cc in not_too_many a len tag same h' small.0
tag_fits (a ∷ (b ∷ rest)) len tag e h h' =
    let checked = unless_panic (too_many a len) _ tag e in
    tag_fits (b ∷ rest) len tag checked.1 (λ p. cc) h'

as_tag-exact : (tag : Tag) (idx : ℕ) → idx < 2 ^ (8 * tag_size tag) → as_tag tag idx ≡ idx
as_tag-exact u8 idx h = omega (arith, h)
as_tag-exact u16 idx h = omega (arith, h)
as_tag-exact u32 idx h = omega (arith, h)

module _ {E : Type 0} (tag : Tag) (variants : List (Variant E)) where
  read_tag :
      (idx : ℕ) (v : Variant E) (b : List ℕ)
      → idx < 2 ^ (8 * tag_size tag)
      → nth idx variants ≡ some v
      → enum_unwiring tag variants (flatten ((tag_wiring tag).async_wiring idx) ++ b)
        ≡ v.read_fields b
  unfolding enum_unwiring
  read_tag idx v b h e =
      rw (enum_unwiring, tag-Takes tag idx h b)
        (ap (λ (o : Option (Variant E)). read_variant o b) e)

  -- If an enumeration has no more variants than its tag has values, the generated unwiring takes
  -- from a stream exactly what the generated wiring writes of a value and gives the value back, if
  -- the fields of its variant are read back from their bytes.
  pub enum_read_back :
      (idx : ℕ) (v : Variant E) (e : E)
      → nth idx variants ≡ some v
      → length variants ≤ 2 ^ (8 * tag_size tag)
      → Takes v.read_fields e (flat_map (bytes_of e) v.fields)
      → Takes
          (enum_unwiring tag variants)
          e
          (flatten (enum_writes tag Wiring.async_wiring idx v.fields e))
  unfolding enum_writes
  enum_read_back idx v e n small reads rest =
      let below : idx < 2 ^ (8 * tag_size tag) =
        omega (arith, nth-length idx variants v n, small) in
      let exact : as_tag tag idx ≡ idx = as_tag-exact tag idx below in
      let wrote : flatten (enum_writes tag Wiring.async_wiring idx v.fields e)
          ≡ flatten ((tag_wiring tag).async_wiring idx) ++ flat_map (bytes_of e) v.fields =
        flatten-append ((tag_wiring tag).async_wiring (as_tag tag idx))
          (flat_map (λ (w : Wiring E). w.async_wiring e) v.fields)
        ∙ rw
            (
              exact,
              flatten-flat_map (λ (w : Wiring E). w.async_wiring e) (bytes_of e) (λ w. refl)
                  v.fields,
            )
            refl in
      rw
        (
          wrote,
          append_assoc (flatten ((tag_wiring tag).async_wiring idx))
              (flat_map (bytes_of e) v.fields) rest,
        )
        (read_tag idx v _ below n ∙ reads rest)

-- For fewer than 2^16 variants get_tag accepts u8, and what is written of a variant with the index
-- 256 + n and no fields is read as the variant n.
pub tag_u8_collides :
    {E : Type 0} (variants : List (Variant E)) (n len : ℕ) (v : Variant E)
    (f : Wiring E → E → Writes) (e : E) (rest : List ℕ)
    → n < 256
    → len < 2 ^ 16
    → nth n variants ≡ some v
    → (get_tag (u8 ∷ []) len ≡ ok u8)
      × (enum_unwiring u8 variants (flatten (enum_writes u8 f (256 + n) [] e) ++ rest)
          ≡ v.read_fields rest)
unfolding get_tag enum_writes tag_wiring u8_wiring flatten flat_map
tag_u8_collides variants n len v f e rest h small found =
    let wraps : (256 + n) % 2 ^ 8 ≡ n = omega (arith, h) in
    (
      rw (ge→ltb (2 ^ 16 - 1) len (omega (arith, small))) refl,
      rw wraps (read_tag u8 variants n v rest (omega (arith, h)) found),
    )

pub unit_struct_lem :
    Takes unit_struct_unwiring tt (flatten (unit_struct_wiring.async_wiring tt))
    × ((b : ℕ) (buf : List ℕ)
        → (unit_struct_wiring.concat_array tt (b ∷ buf) ≡ ok (1 ∷ buf))
          × (unit_struct_unwiring (1 ∷ buf) ≡ err invalid_data))
unfolding unit_struct_wiring unit_struct_unwiring unit_wiring unit_async_unwiring flatten
unit_struct_lem = (
  unit-Takes tt,
  λ b buf. (refl, rw (unit_struct_unwiring, unit_async_unwiring, u8-Takes 1 buf) refl),
)
