-- ===== src/Derive/Enum/Measure.antt =====
-- wiring-derive/src/lib.rs: measuring and then reading enumerations without checks.
use wiring.Base.{
  refl, ℕ, List, drop, ◌≡◌, some, ◌≢◌, ok, ◌≤◌, Option, ap, undefined, arith, length, none, sym,
  subst, take, ◌*◌, ◌%◌, ◌^◌,
}
use wiring.Bytes.{from_be_bytes, isize_max}
use wiring.Decode.{sync_unwire_u32, sync_unwire_u16, Reader, safe, raw}
use wiring.Decode.Numbers.{u8_unwiring, u16_unwiring, u32_unwiring}
use wiring.Derive.Enum.{
  enum_length, enum_derived_unwiring, enum_sync_unwiring, sync_tag_unwiring, Tag, u8, u16, u32,
  Variant, nth, variant_length, sync_read_variant, tag_size,
}
use wiring.Safety.{SafeStep, read_raw-At, defined_bind, Safe}
use wiring.Safety.Containers.{
  Agrees, Agrees-bind, u8-Agrees, u8-defined, add_lengths-defined, add_lengths-measured,
}

-- Measuring the fields of a variant covers reading them.
pub record IsCovered {E : Type 0} (v : Variant E) : Type 0 where
  pub step : SafeStep v.fields_length v.sync_read_fields
  pub measures : (b : List ℕ) → v.fields_length (safe b) ≢ undefined

u16_inv :
    (b : List ℕ) (n : ℕ) (r0 : Reader)
    → sync_unwire_u16 (safe b) ≡ ok (n, r0)
    → (2 ≤ length b) × (n ≡ from_be_bytes (take 2 b)) × (r0 ≡ safe (drop 2 b))
unfolding sync_unwire_u16
u16_inv b n r0 e = ground arith

u32_inv :
    (b : List ℕ) (n : ℕ) (r0 : Reader)
    → sync_unwire_u32 (safe b) ≡ ok (n, r0)
    → (4 ≤ length b) × (n ≡ from_be_bytes (take 4 b)) × (r0 ≡ safe (drop 4 b))
unfolding sync_unwire_u32
u32_inv b n r0 e = ground arith

u16-Agrees : Agrees sync_unwire_u16
unfolding sync_unwire_u16
u16-Agrees b n r0 e =
    let (le, en, er) = u16_inv b n r0 e in
    (
      drop 2 b,
      er,
      λ r h.
          let (r', e', h') = read_raw-At 2 r b h le in
          (r', rw e' (ap (λ (k : ℕ). ok (k, raw r')) (sym en)), h'),
    )

u32-Agrees : Agrees sync_unwire_u32
unfolding sync_unwire_u32
u32-Agrees b n r0 e =
    let (le, en, er) = u32_inv b n r0 e in
    (
      drop 4 b,
      er,
      λ r h.
          let (r', e', h') = read_raw-At 4 r b h le in
          (r', rw e' (ap (λ (k : ℕ). ok (k, raw r')) (sym en)), h'),
    )

u16-defined : (b : List ℕ) → sync_unwire_u16 (safe b) ≢ undefined
unfolding sync_unwire_u16
u16-defined b e = ground arith

u32-defined : (b : List ℕ) → sync_unwire_u32 (safe b) ≢ undefined
unfolding sync_unwire_u32
u32-defined b e = ground arith

tag-Agrees : (tag : Tag) → Agrees (sync_tag_unwiring tag)
unfolding sync_tag_unwiring u8_unwiring u16_unwiring u32_unwiring
tag-Agrees u8 = u8-Agrees
tag-Agrees u16 = u16-Agrees
tag-Agrees u32 = u32-Agrees

tag-defined : (tag : Tag) (b : List ℕ) → sync_tag_unwiring tag (safe b) ≢ undefined
unfolding sync_tag_unwiring u8_unwiring u16_unwiring u32_unwiring
tag-defined u8 b = u8-defined b
tag-defined u16 b = u16-defined b
tag-defined u32 b = u32-defined b

module _ {E : Type 0} (tag : Tag) (variants : List (Variant E))
    (covered : (n : ℕ) (v : Variant E) → nth n variants ≡ some v → IsCovered v) where
  variant_step :
      (o : Option (Variant E))
      → ((v : Variant E) → o ≡ some v → IsCovered v)
      → SafeStep (variant_length o) (sync_read_variant o)
  variant_step none h = λ b len r0 e. cc
  variant_step (some v) h = (h v refl).step

  variant-defined :
      (o : Option (Variant E))
      → ((v : Variant E) → o ≡ some v → IsCovered v)
      → (b : List ℕ) → variant_length o (safe b) ≢ undefined
  variant-defined none h b = λ e. cc
  variant-defined (some v) h b = (h v refl).measures b

  enum_step : SafeStep (enum_length tag variants) (enum_sync_unwiring tag variants)
  unfolding enum_length enum_sync_unwiring
  enum_step =
      Agrees-bind (sync_tag_unwiring tag) (λ p. variant_length (nth p.0 variants) p.1)
        (λ p. sync_read_variant (nth p.0 variants) p.1) (tag-Agrees tag)
        (λ n. variant_step (nth n variants) (covered n))

  enum_length-defined : (b : List ℕ) → enum_length tag variants (safe b) ≢ undefined
  unfolding enum_length
  enum_length-defined b = defined_bind (sync_tag_unwiring tag (safe b)) _ (tag-defined tag b) λ p e.
      let (c, ec, _) = tag-Agrees tag b p.0 p.1 e in
      subst (λ (r : Reader). variant_length (nth p.0 variants) r ≢ undefined) (sym ec)
        (variant-defined (nth p.0 variants) (covered p.0) c)

  -- Measuring an enumeration with a derived Unwiring and then reading it unchecked stays inside the
  -- bytes, where this holds for the fields of each variant and the size of the enumeration is at
  -- most isize::MAX.
  pub enum-Safe : (size : ℕ) → size ≤ isize_max → Safe (enum_derived_unwiring tag variants size)
  unfolding enum_derived_unwiring
  enum-Safe size small = record {
    small = small;
    fixed_fits = omega arith;
    defined = λ n.
        add_lengths-defined (enum_derived_unwiring tag variants size) (enum_length tag variants)
          enum_step enum_length-defined n (tag_size tag * n % 2 ^ 64);
    measured = λ n.
        add_lengths-measured (enum_derived_unwiring tag variants size) (enum_length tag variants)
          enum_step n (tag_size tag * n % 2 ^ 64);
    fixed = λ m. cc;
  }
