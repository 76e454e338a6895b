-- ===== src/Derive/Enum/Sync.antt =====
-- wiring-derive/src/lib.rs: the synchronous methods of an enumeration, beside the asynchronous ones.
use wiring.Base.{
  ℕ, ◌≡◌, refl, sym, ap, subst, ◌∙◌, inl, inr, some, List, [], ◌∷◌, ◌++◌, flat_map, flatten,
  Option-cases, invalid_data, ok, length, All, flatten-append, flatten-flat_map,
}
use wiring.Wire.Laws.{extended, Room}
use wiring.Encode.{Wiring}
use wiring.Decode.AsyncReads.{Follows, u8-Follows, u16-Follows, u32-Follows, Agree-bind, Agree-err}
use wiring.Derive.Enum.{
  tag_unwiring, tag_wiring, sync_fields, sync_tag_unwiring, enum_sync_wiring, Tag, Variant,
  enum_writes, as_tag, enum_sync_unwiring, enum_unwiring, nth, u8, u16, u32,
}
use wiring.Derive.Plain.{Appends}
use wiring.Derive.Struct.{bytes_of}
use wiring.Encode.Chains.{Puts, Puts-nil, Puts-bind}
use wiring.Encode.NumberBytes.{u8-Encodes, u16-Encodes, u32-Encodes}
use wiring.Encode.Numbers.{u8_wiring, u16_wiring, u32_wiring}

pub tag-Puts :
    (tag : Tag) (n : ℕ)
    → Puts (λ t v. (tag_wiring tag).sync_wiring t n v) (flatten ((tag_wiring tag).async_wiring n))
unfolding tag_wiring
tag-Puts u8 n t v room =
    subst (λ (bs : List ℕ). Room t v (length bs) → u8_wiring.sync_wiring t n v ≡ ok (extended bs v))
      (sym (u8-Encodes.async n)) (u8-Encodes.sync t n v tt) room
tag-Puts u16 n t v room =
    subst
      (λ (bs : List ℕ). Room t v (length bs) → u16_wiring.sync_wiring t n v ≡ ok (extended bs v))
      (sym (u16-Encodes.async n)) (u16-Encodes.sync t n v tt) room
tag-Puts u32 n t v room =
    subst
      (λ (bs : List ℕ). Room t v (length bs) → u32_wiring.sync_wiring t n v ≡ ok (extended bs v))
      (sym (u32-Encodes.async n)) (u32-Encodes.sync t n v tt) room

module _ {E : Type 0} (e : E) where
  fields-Puts :
      (ws : List (Wiring E))
      → All (Appends e) ws
      → Puts (λ t v. sync_fields ws t e v) (flat_map (bytes_of e) ws)
  unfolding sync_fields flat_map
  fields-Puts [] h = Puts-nil
  fields-Puts (w ∷ ws) h = Puts-bind _ _ (bytes_of e w) _ h.0 (fields-Puts ws h.1)

  pub enum_sync-agrees :
      (tag : Tag) (idx : ℕ) (ws : List (Wiring E))
      → All (Appends e) ws
      → Puts
          (λ t v. enum_sync_wiring tag idx ws t e v)
          (flatten (enum_writes tag Wiring.async_wiring idx ws e))
  unfolding enum_sync_wiring enum_writes
  enum_sync-agrees tag idx ws h =
      let w = (tag_wiring tag).async_wiring (as_tag tag idx) in
      let f = λ (k : Wiring E). k.async_wiring e in
      let wrote : flatten (w ++ flat_map f ws) ≡ flatten w ++ flat_map (bytes_of e) ws =
        flatten-append w (flat_map f ws)
        ∙ ap (◌++◌ (flatten w)) (flatten-flat_map f (bytes_of e) (λ k. refl) ws) in
      subst (Puts (λ t v. enum_sync_wiring tag idx ws t e v)) (sym wrote)
        (Puts-bind _ _ (flatten w) _ (tag-Puts tag (as_tag tag idx)) (fields-Puts ws h))

tag-Follows : (tag : Tag) → Follows (sync_tag_unwiring tag) (tag_unwiring tag)
unfolding sync_tag_unwiring tag_unwiring
tag-Follows u8 = u8-Follows
tag-Follows u16 = u16-Follows
tag-Follows u32 = u32-Follows

-- A tag that `enum_sync_unwiring` reads from memory, and what it does behind it.
module _ {E : Type 0} (tag : Tag) (variants : List (Variant E)) where
  pub enum_unwiring-Follows :
      ((n : ℕ) (v : Variant E) → nth n variants ≡ some v → Follows v.sync_read_fields v.read_fields)
      → Follows (enum_sync_unwiring tag variants) (enum_unwiring tag variants)
  unfolding enum_sync_unwiring enum_unwiring
  enum_unwiring-Follows h b = Agree-bind _ _ _ _ (tag-Follows tag b) λ n c.
      elim (Option-cases (nth n variants)) [
        | inl none_such ↦ rw none_such (Agree-err invalid_data)
        | inr found ↦ rw found.1 (h n found.0 found.1 c)
      ]
