-- ===== src/Encode/Containers.antt =====
-- wiring/src/core/wire.rs: `Wiring` for texts, references, boxes, arrays, vectors, sets, options and
-- tuples. A text is the list of its bytes; a `HashSet` is the list of its elements in the order of its
-- iteration.
use wiring.Base.{
  ℕ, ◌+◌, ◌*◌, true, ◌||◌, List, [], ◌∷◌, ◌++◌, Option, none, some, length, flat_map, Result, ok,
  ◌>>=◌, take, drop, ltb, if◌then◌else◌, panic,
}
use wiring.Wire.{Writes, write_uint, sync_wire_all, sync_wire_u64}
use wiring.Encode.{
  SyncWiring, Wiring, provided, no_concat, sync_each, wiring_vec, wiring_array_ref, wiring_arc,
}
use wiring.Encode.Numbers.{u8_wiring, write_u8}

-- `String`: its bytes as a slice; the synchronous method writes length and bytes itself.
unfoldable pub string_wiring : Wiring (List ℕ)
unfolding provided u8_wiring
string_wiring =
    provided 0 true u8_wiring.wiring_slice u8_wiring.wiring_slice
      (λ t s v. sync_wire_u64 t (length s) v >>= sync_wire_all t true s) no_concat

unfoldable pub str_wiring : Wiring (List ℕ)
unfolding provided u8_wiring
str_wiring =
    provided 0 true u8_wiring.wiring_slice u8_wiring.wiring_slice u8_wiring.sync_wiring_slice
      no_concat

-- A `Url` goes as its text.
unfoldable pub url_wiring : {Url : Type 0} → (Url → List ℕ) → Wiring Url
unfolding provided str_wiring
url_wiring as_str =
    provided 0 true (λ u. str_wiring.async_wiring (as_str u))
      (λ u. str_wiring.async_wiring (as_str u)) (λ t u v. str_wiring.sync_wiring t (as_str u) v)
      no_concat

unfoldable pub option_writes : {A : Type 0} → (A → Writes) → Option A → Writes
option_writes f none = write_u8 0
option_writes f (some x) = write_u8 1 ++ f x

module _ {A : Type 0} (w : Wiring A) where
  -- `&[T]`.
  unfoldable pub slice_wiring : Wiring (List A)
  unfolding provided
  slice_wiring = provided 0 true w.wiring_slice w.wiring_slice w.sync_wiring_slice no_concat

  -- `&[T; LEN]`.
  unfoldable pub array_ref_wiring : Wiring (List A)
  unfolding provided wiring_array_ref
  array_ref_wiring =
      provided 0 true (wiring_array_ref w) (wiring_array_ref w) w.sync_wiring_array no_concat

  -- Each element fills its own `FIXED_SIZE` bytes of the buffer, `buf[start..end]`.
  unfoldable pub concat_each : List A → List ℕ → Result (List ℕ)
  concat_each [] buf = ok buf
  concat_each (x ∷ xs) buf =
      let rest = concat_each xs (drop w.fixed_size buf) in
      if ltb (length buf) w.fixed_size
      then panic
      else (do left ← w.concat_array x (take w.fixed_size buf); right ← rest; ok (left ++ right))

  -- `[T; LEN]`.
  unfoldable pub array_wiring : ℕ → Wiring (List A)
  unfolding provided wiring_array_ref concat_each
  array_wiring len =
      provided (w.fixed_size * len) w.mixed w.wiring_array (wiring_array_ref w) w.sync_wiring_array
        concat_each

  unfoldable pub vec_wiring : Wiring (List A)
  unfolding provided wiring_vec
  vec_wiring = provided 0 true (wiring_vec w) w.wiring_slice w.sync_wiring_slice no_concat

  -- `Box<[T]>`: `wiring` goes by the vector, the other two by the slice.
  unfoldable pub boxed_slice_wiring : Wiring (List A)
  unfolding provided vec_wiring slice_wiring
  boxed_slice_wiring =
      provided 0 true vec_wiring.async_wiring slice_wiring.async_wiring slice_wiring.sync_wiring
        no_concat

  unfoldable pub box_wiring : Wiring A
  unfolding provided
  box_wiring = provided 0 true w.async_wiring w.wiring_ref w.sync_wiring no_concat

  unfoldable pub arc_wiring : Wiring A
  unfolding provided wiring_arc
  arc_wiring = provided 0 true (wiring_arc w) w.wiring_ref w.sync_wiring no_concat

  hash_set_sync_wiring : SyncWiring (List A)
  unfolding sync_each
  hash_set_sync_wiring t s v = sync_wire_u64 t (length s) v >>= sync_each w.sync_wiring t s

  unfoldable pub hash_set_wiring : Wiring (List A)
  unfolding provided hash_set_sync_wiring
  hash_set_wiring =
      provided 0 true (λ s. write_uint 8 (length s) ++ flat_map w.async_wiring s)
        (λ s. write_uint 8 (length s) ++ flat_map w.wiring_ref s) hash_set_sync_wiring no_concat

  option_sync_wiring : SyncWiring (Option A)
  unfolding u8_wiring
  option_sync_wiring t none v = u8_wiring.sync_wiring t 0 v
  option_sync_wiring t (some x) v = u8_wiring.sync_wiring t 1 v >>= w.sync_wiring t x

  unfoldable pub option_wiring : Wiring (Option A)
  unfolding provided option_writes option_sync_wiring
  option_wiring =
      provided 0 true (option_writes w.async_wiring) (option_writes w.wiring_ref) option_sync_wiring
        no_concat

-- `buf.split_at_mut(n)`, the left part to `f` and the right part to `g`.
unfoldable pub split_concat :
    ℕ → (List ℕ → Result (List ℕ)) → (List ℕ → Result (List ℕ)) → List ℕ → Result (List ℕ)
split_concat n f g buf =
    if ltb (length buf) n
    then panic
    else (do left ← f (take n buf); right ← g (drop n buf); ok (left ++ right))

module _ {A B : Type 0} (w : Wiring A) (w' : Wiring B) where
  pair_concat : A × B → List ℕ → Result (List ℕ)
  unfolding split_concat
  pair_concat p = split_concat w.fixed_size (w.concat_array p.0) (w'.concat_array p.1)

  -- `(T, TT)`. Its `MIXED` reads `T::MIXED || T::MIXED`.
  unfoldable pub pair_wiring : Wiring (A × B)
  unfolding provided pair_concat
  pair_wiring =
      provided (w.fixed_size + w'.fixed_size) (w.mixed || w.mixed)
        (λ p. w.async_wiring p.0 ++ w'.async_wiring p.1)
        (λ p. w.wiring_ref p.0 ++ w'.wiring_ref p.1)
        (λ t p v. w.sync_wiring t p.0 v >>= w'.sync_wiring t p.1) pair_concat

module _ {A B C : Type 0} (w : Wiring A) (w' : Wiring B) (w'' : Wiring C) where
  triple_concat : A × B × C → List ℕ → Result (List ℕ)
  unfolding split_concat
  triple_concat p =
      split_concat w.fixed_size (w.concat_array p.0)
        (split_concat w'.fixed_size (w'.concat_array p.1) (w''.concat_array p.2))

  triple_sync_wiring : SyncWiring (A × B × C)
  triple_sync_wiring t p v = do
    v1 ← w.sync_wiring t p.0 v
    v2 ← w'.sync_wiring t p.1 v1
    w''.sync_wiring t p.2 v2

  unfoldable pub triple_wiring : Wiring (A × B × C)
  unfolding provided triple_concat triple_sync_wiring
  triple_wiring =
      provided (w.fixed_size + w'.fixed_size + w''.fixed_size) true
        (λ p. w.async_wiring p.0 ++ (w'.async_wiring p.1 ++ w''.async_wiring p.2))
        (λ p. w.wiring_ref p.0 ++ (w'.wiring_ref p.1 ++ w''.wiring_ref p.2)) triple_sync_wiring
        triple_concat
