-- ===== src/Encode/ContainerBytes.antt =====
-- wiring/src/core/wire.rs: the bytes that the implementations of `Wiring` for texts, vectors, boxes, sets
-- and options write.
use wiring.Base.{
  All, ap, ◌∙◌, refl, none, List, ℕ, flatten, Option, true, length, ◌≡◌, ◌<◌, ◌^◌, ◌++◌,
  flatten-flat_map, flat_map, flat_map_singleton, ok, some, ◌∷◌, [],
}
use wiring.Bytes.{to_be_bytes}
use wiring.Wire.{write_uint}
use wiring.Wire.Laws.{
  sync_wire_u64_lem, sync_wire_all_lem, Room-second, extend-extend, Room-first, Allocates-first,
}
use wiring.Format.{enc_string, enc_vec, enc_option}
use wiring.Encode.{Wiring, wiring_vec, wiring_array_ref}
use wiring.Encode.Laws.{Encodes, SyncWrites, FitsSlice, provided-Encodes, sync_each_lem}
use wiring.Encode.Containers.{
  string_wiring, vec_wiring, option_wiring, arc_wiring, hash_set_wiring, slice_wiring, box_wiring,
  boxed_slice_wiring, option_writes, array_ref_wiring, str_wiring, url_wiring,
}
use wiring.Encode.NumberBytes.{u8-Encodes}
use wiring.Encode.Numbers.{u8_wiring}

-- A text shorter than 2 ^ 64 bytes.
abbrev pub FitsString : List ℕ → Type 0
FitsString s = length s < 2 ^ 64

string_written : (s : List ℕ) → flatten (u8_wiring.wiring_slice s) ≡ enc_string s
string_written s = u8-Encodes.async_slice s ∙ rw (flat_map_singleton s)

-- Every writing method of String, the asynchronous ones by the slice and the synchronous one by
-- itself, writes the length as a u64 and then the bytes.
pub string-Encodes : Encodes string_wiring FitsString enc_string
unfolding string_wiring
string-Encodes =
    provided-Encodes FitsString enc_string 0 true _ _ _ _ string_written string_written
      (λ t s v h room.
        rw
          (sync_wire_u64_lem t (length s) v (Allocates-first t v (to_be_bytes 8 (length s)) s room))
          (sync_wire_all_lem t s _ (Room-second t v (to_be_bytes 8 (length s)) s room)
            ∙ ap ok (extend-extend (to_be_bytes 8 (length s)) s v)))
      (λ s h e. cc)

abbrev pub FitsOption : {A : Type 0} → (A → Type 0) → Option A → Type 0
FitsOption F none = Unit {0}
FitsOption F (some x) = F x

module _ {A : Type 0} (w : Wiring A) (Fits : A → Type 0) (enc : A → List ℕ)
    (e : Encodes w Fits enc) where
  vec_written : (xs : List A) → flatten (wiring_vec w xs) ≡ enc_vec enc xs
  unfolding wiring_vec flatten
  vec_written xs =
      ap (◌++◌ (to_be_bytes 8 (length xs))) (flatten-flat_map w.async_wiring enc e.async xs)

  ref_vec_written :
      (xs : List A)
      → flatten (write_uint 8 (length xs) ++ flat_map w.wiring_ref xs) ≡ enc_vec enc xs
  unfolding flatten
  ref_vec_written xs =
      ap (◌++◌ (to_be_bytes 8 (length xs))) (flatten-flat_map w.wiring_ref enc e.by_ref xs)

  -- Every writing method of Vec<T> writes the length as a u64 and then the elements' bytes, if T
  -- meets its format.
  pub vec-Encodes : Encodes (vec_wiring w) (FitsSlice Fits enc) (enc_vec enc)
  unfolding vec_wiring
  vec-Encodes =
      provided-Encodes (FitsSlice Fits enc) (enc_vec enc) 0 true _ _ _ _ vec_written e.async_slice
        e.slice (λ s h p. cc)

  pub slice-Encodes : Encodes (slice_wiring w) (FitsSlice Fits enc) (enc_vec enc)
  unfolding slice_wiring
  slice-Encodes =
      provided-Encodes (FitsSlice Fits enc) (enc_vec enc) 0 true _ _ _ _ e.async_slice e.async_slice
        e.slice (λ s h p. cc)

  pub boxed_slice-Encodes : Encodes (boxed_slice_wiring w) (FitsSlice Fits enc) (enc_vec enc)
  unfolding boxed_slice_wiring
  boxed_slice-Encodes =
      provided-Encodes (FitsSlice Fits enc) (enc_vec enc) 0 true _ _ _ _ vec_written e.async_slice
        e.slice (λ s h p. cc)

  pub box-Encodes : Encodes (box_wiring w) Fits enc
  unfolding box_wiring
  box-Encodes = provided-Encodes Fits enc 0 true _ _ _ _ e.async e.by_ref e.sync (λ s h p. cc)

  pub arc-Encodes : Encodes (arc_wiring w) Fits enc
  unfolding arc_wiring
  arc-Encodes = provided-Encodes Fits enc 0 true _ _ _ _ e.by_ref e.by_ref e.sync (λ s h p. cc)

  hash_set_written : SyncWrites (FitsSlice Fits enc) (enc_vec enc) (hash_set_wiring w).sync_wiring
  unfolding hash_set_wiring
  hash_set_written t s v h room =
      let len = to_be_bytes 8 (length s) in
      rw (sync_wire_u64_lem t (length s) v (Allocates-first t v len (flat_map enc s) room)) (
        sync_each_lem Fits enc w.sync_wiring e.sync t s _ h.0
          (Room-second t v len (flat_map enc s) room)
        ∙ ap ok (extend-extend len (flat_map enc s) v))

  -- Every writing method of HashSet<T> writes the format of the vector of its elements in the order
  -- of iteration, if T meets its format.
  pub hash_set-Encodes : Encodes (hash_set_wiring w) (FitsSlice Fits enc) (enc_vec enc)
  unfolding hash_set_wiring wiring_vec
  hash_set-Encodes =
      provided-Encodes (FitsSlice Fits enc) (enc_vec enc) 0 true _ _ _ _ vec_written ref_vec_written
        hash_set_written (λ s h p. cc)

  option_written : SyncWrites (FitsOption Fits) (enc_option enc) (option_wiring w).sync_wiring
  unfolding option_wiring
  option_written t none v h room = u8-Encodes.sync t 0 v tt room
  option_written t (some x) v h room =
      rw (u8-Encodes.sync t 1 v tt (Room-first t v (1 ∷ []) (enc x) room)) (
        e.sync t x _ h (Room-second t v (1 ∷ []) (enc x) room)
        ∙ ap ok (extend-extend (1 ∷ []) (enc x) v))

  option_async :
      (f : A → List (List ℕ))
      → ((x : A) → flatten (f x) ≡ enc x)
      → (o : Option A) → flatten (option_writes f o) ≡ enc_option enc o
  unfolding option_writes flatten
  option_async f h none = refl
  option_async f h (some x) = ap (◌∷◌ 1) (h x)

  -- Every writing method of Option<T> writes the tag 0, or the tag 1 and the value's bytes, if T
  -- meets its format.
  pub option-Encodes : Encodes (option_wiring w) (FitsOption Fits) (enc_option enc)
  unfolding option_wiring
  option-Encodes =
      provided-Encodes (FitsOption Fits) (enc_option enc) 0 true _ _ _ _
        (option_async w.async_wiring e.async) (option_async w.wiring_ref e.by_ref) option_written
        (λ o h p. cc)

module _ {A : Type 0} (w : Wiring A) (Fits : A → Type 0) (enc : A → List ℕ)
    (e : Encodes w Fits enc) where
  pub array_ref-Encodes : Encodes (array_ref_wiring w) (All Fits) (flat_map enc)
  unfolding array_ref_wiring wiring_array_ref
  array_ref-Encodes =
      provided-Encodes (All Fits) (flat_map enc) 0 true _ _ _ _
        (flatten-flat_map w.wiring_ref enc e.by_ref) (flatten-flat_map w.wiring_ref enc e.by_ref)
        e.array (λ s h p. cc)

str_sync : SyncWrites FitsString enc_string u8_wiring.sync_wiring_slice
unfolding u8_wiring
str_sync t s v h room =
    rw (sync_wire_u64_lem t (length s) v (Allocates-first t v (to_be_bytes 8 (length s)) s room)) (
      sync_wire_all_lem t s _ (Room-second t v (to_be_bytes 8 (length s)) s room)
      ∙ ap ok (extend-extend (to_be_bytes 8 (length s)) s v))

pub str-Encodes : Encodes str_wiring FitsString enc_string
unfolding str_wiring
str-Encodes =
    provided-Encodes FitsString enc_string 0 true _ _ _ _ string_written string_written str_sync
      (λ s h p. cc)

-- A `Url` is written as its text.
pub url-Encodes :
    {Url : Type 0} (as_str : Url → List ℕ)
    → Encodes (url_wiring as_str) (λ u. FitsString (as_str u)) (λ u. enc_string (as_str u))
unfolding url_wiring str_wiring
url-Encodes as_str =
    provided-Encodes (λ u. FitsString (as_str u)) (λ u. enc_string (as_str u)) 0 true _ _ _ _
      (λ u. string_written (as_str u)) (λ u. string_written (as_str u))
      (λ t u v h room. str_sync t (as_str u) v h room) (λ s h p. cc)
