-- ===== src/Decode/AsyncContainers.antt =====
-- wiring/src/core/unwire.rs: the asynchronous and the synchronous reads of containers, compared.
use wiring.Base.{
  ℕ, List, ok, ◌≡◌, ◌==◌, invalid_data, Bool, flatten, ltb, [], ◌++◌, none, suc, ◌∷◌, ap, some, ◌*◌,
  zero, ◌∙◌, sym,
}
use wiring.Bytes.{isize_max}
use wiring.Encode.{Wiring}
use wiring.Encode.Laws.{Encodes}
use wiring.Decode.{safe, Unwiring, sync_unwiring_array, unread}
use wiring.Decode.Async.{
  AsyncUnwiring, array_async_unwiring, set_async_unwiring, unwiring_array, option_async_unwiring,
  pair_async_unwiring, map_async_unwiring, triple_async_unwiring, vec_async_unwiring,
  async_insert_each, async_insert_pairs, arc_async_unwiring, box_async_unwiring,
  boxed_slice_async_unwiring,
}
use wiring.Decode.AsyncReads.{
  Follows, Agree-bind, Agree-ok, u64-Follows, u8-Follows, Agree-if, Agree-panic, Agree-err,
}
use wiring.Decode.Containers.{
  insert_each, insert_pairs, array_unwiring, map_unwiring, option_unwiring, pair_unwiring,
  triple_unwiring, vec_unwiring, set_unwiring, triple_sync_unwiring, pair_sync_unwiring, option_tag,
  boxed_slice_unwiring, box_unwiring, arc_unwiring,
}
use wiring.Decode.Laws.{Reads}
use wiring.Decode.Numbers.{u8_unwiring, u64_unwiring}

module _ {A : Type 0} (u : Unwiring A) (f : AsyncUnwiring A)
    (follows : Follows u.sync_unwiring f) where
  array_steps : (n : ℕ) → Follows (sync_unwiring_array u n) (unwiring_array f n)
  unfolding sync_unwiring_array unwiring_array
  array_steps zero b = Agree-ok [] b
  array_steps (suc n) b =
      Agree-bind _ _ _ _ (follows b)
        λ x c. Agree-bind _ _ _ _ (array_steps n c) λ xs d. Agree-ok (x ∷ xs) d

  pub array-Follows :
      (n : ℕ) → Follows (array_unwiring u n).sync_unwiring (array_async_unwiring f n)
  unfolding array_unwiring array_async_unwiring
  array-Follows n = array_steps n

  -- Whatever Vec<T>::sync_unwiring reads from a slice, Vec<T>::unwiring reads from a stream of the
  -- same bytes, leaving the same, if that holds of T.
  pub vec-Follows : Follows (vec_unwiring u).sync_unwiring (vec_async_unwiring f u.size_of)
  unfolding vec_unwiring vec_async_unwiring u64_unwiring
  vec-Follows b =
      Agree-bind _ _ _ _ (u64-Follows b)
        λ len c. Agree-if (ltb isize_max (len * u.size_of)) _ _ _ _ Agree-panic (array_steps len c)

  -- Whatever Option<T>::sync_unwiring reads from a slice, Option<T>::unwiring reads from a stream of
  -- the same bytes, leaving the same, if that holds of T.
  pub option-Follows :
      (size : ℕ) → Follows (option_unwiring u size).sync_unwiring (option_async_unwiring f)
  unfolding option_unwiring option_async_unwiring u8_unwiring option_tag
  option-Follows size b = Agree-bind _ _ _ _ (u8-Follows b) λ n c.
      Agree-if (n == 0) _ _ _ _ (Agree-ok none c) (
        Agree-if (n == 1) _ _ _ _ (Agree-bind _ _ _ _ (follows c) λ x d. Agree-ok (some x) d)
          (Agree-err invalid_data))

  set_steps :
      {S : Type 0} (insert : A → S → S) (n : ℕ) (set : S)
      → Follows (insert_each u insert n set) (async_insert_each f insert n set)
  unfolding insert_each async_insert_each
  set_steps insert zero set b = Agree-ok set b
  set_steps insert (suc n) set b =
      Agree-bind _ _ _ _ (follows b) λ x c. set_steps insert n (insert x set) c

  pub set-Follows :
      {S : Type 0} (size : ℕ) (allocates : ℕ → Bool) (new : S) (insert : A → S → S)
      → Follows
          (set_unwiring u size allocates new insert).sync_unwiring
          (set_async_unwiring f allocates new insert)
  unfolding set_unwiring set_async_unwiring u64_unwiring
  set-Follows size allocates new insert b =
      Agree-bind _ _ _ _ (u64-Follows b)
        λ len c. Agree-if (allocates len) _ _ _ _ (set_steps insert len new c) Agree-panic

module _ {A B : Type 0} (u : Unwiring A) (u' : Unwiring B) (f : AsyncUnwiring A)
    (g : AsyncUnwiring B) (follows : Follows u.sync_unwiring f)
    (follows' : Follows u'.sync_unwiring g) where
  pub pair-Follows :
      (size : ℕ) → Follows (pair_unwiring u u' size).sync_unwiring (pair_async_unwiring f g)
  unfolding pair_unwiring pair_async_unwiring pair_sync_unwiring
  pair-Follows size b =
      Agree-bind _ _ _ _ (follows b) λ x c. Agree-bind _ _ _ _ (follows' c) λ y d. Agree-ok (x, y) d

  map_steps :
      {M : Type 0} (insert : A → B → M → M) (n : ℕ) (map : M)
      → Follows (insert_pairs u u' insert n map) (async_insert_pairs f g insert n map)
  unfolding insert_pairs async_insert_pairs
  map_steps insert zero map b = Agree-ok map b
  map_steps insert (suc n) map b =
      Agree-bind _ _ _ _ (follows b)
        λ k c. Agree-bind _ _ _ _ (follows' c) λ v d. map_steps insert n (insert k v map) d

  -- Whatever sync_unwiring of a map reads from a slice, unwiring of the map reads from a stream of
  -- the same bytes, with the same insertions in the same order, leaving the same, if that holds of
  -- keys and values.
  pub map-Follows :
      {M : Type 0} (size : ℕ) (allocates : ℕ → Bool) (new : M) (insert : A → B → M → M)
      → Follows
          (map_unwiring u u' size allocates new insert).sync_unwiring
          (map_async_unwiring f g allocates new insert)
  unfolding map_unwiring map_async_unwiring u64_unwiring
  map-Follows size allocates new insert b =
      Agree-bind _ _ _ _ (u64-Follows b)
        λ len c. Agree-if (allocates len) _ _ _ _ (map_steps insert len new c) Agree-panic

module _ {A B C : Type 0} (u : Unwiring A) (u' : Unwiring B) (u'' : Unwiring C)
    (f : AsyncUnwiring A) (g : AsyncUnwiring B) (h : AsyncUnwiring C)
    (follows : Follows u.sync_unwiring f) (follows' : Follows u'.sync_unwiring g)
    (follows'' : Follows u''.sync_unwiring h) where
  pub triple-Follows :
      (size : ℕ)
      → Follows (triple_unwiring u u' u'' size).sync_unwiring (triple_async_unwiring f g h)
  unfolding triple_unwiring triple_async_unwiring triple_sync_unwiring
  triple-Follows size b = Agree-bind _ _ _ _ (follows b) λ x c.
      Agree-bind _ _ _ _ (follows' c)
        λ y d. Agree-bind _ _ _ _ (follows'' d) λ z e. Agree-ok (x, y, z) e

module _ {A : Type 0} (u : Unwiring A) (f : AsyncUnwiring A)
    (follows : Follows u.sync_unwiring f) where
  pub arc-Follows : Follows (arc_unwiring u).sync_unwiring (arc_async_unwiring f)
  unfolding arc_unwiring arc_async_unwiring
  arc-Follows = follows

  pub box-Follows : Follows (box_unwiring u).sync_unwiring (box_async_unwiring f)
  unfolding box_unwiring box_async_unwiring
  box-Follows = follows

  pub boxed_slice-Follows :
      Follows (boxed_slice_unwiring u).sync_unwiring (boxed_slice_async_unwiring f u.size_of)
  unfolding boxed_slice_unwiring boxed_slice_async_unwiring vec_unwiring
  boxed_slice-Follows = vec-Follows u f follows

-- The asynchronous unwiring reads from a stream what the asynchronous wiring wrote to it and leaves
-- what follows, if the writer meets a format that the synchronous reader reads, and the asynchronous
-- reader follows the synchronous one.
pub read_written :
    {A : Type 0} (w : Wiring A) (u : Unwiring A) (f : AsyncUnwiring A) (Fits Fits' : A → Type 0)
    (enc : A → List ℕ)
    → Encodes w Fits enc
    → Reads Fits' enc u.sync_unwiring
    → Follows u.sync_unwiring f
    → (x : A) (rest : List ℕ) → Fits' x
    → f (flatten (w.async_wiring x) ++ rest) ≡ ok (x, rest)
read_written w u f Fits Fits' enc e reads follows x rest fits =
    let (c, same, read) = follows (enc x ++ rest) x (safe rest) (reads x rest fits) in
    ap f (ap (λ (bs : List ℕ). bs ++ rest) (e.async x))
    ∙ read
    ∙ ap (λ (c' : List ℕ). ok (x, c')) (sym (ap unread same))
