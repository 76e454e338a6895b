-- ===== src/Decode/Containers.antt =====
-- wiring/src/core/unwire.rs: `Unwiring` for texts, boxes, arrays, vectors, collections, options and
-- tuples. The size of a type whose layout Rust leaves open is a parameter, and so are the collections
-- of the standard library.
use wiring.Base.{
  none, some, true, Option, ◌+◌, ok, List, ◌%◌, ◌>>=◌, Bool, ◌&&◌, ◌*◌, suc, ◌^◌, zero, err,
  if◌then◌else◌, ◌==◌, invalid_data, ℕ, Result, panic,
}
use wiring.Decode.{
  Unwiring, Reader, sync_unwire_string, sync_unwiring_vec, sync_unwiring_array, sync_unwire_u8,
  sync_unwire_u64, advance_position,
}
use wiring.Decode.Numbers.{provided_unwiring}

abbrev pub wrapping_add : ℕ → ℕ → ℕ
wrapping_add a b = (a + b) % 2 ^ 64

-- `for _ in 0..count { total += …; }`
unfoldable pub add_lengths : (Reader → Result (ℕ × Reader)) → ℕ → ℕ → Reader → Result (ℕ × Reader)
add_lengths f zero total r = ok (total, r)
add_lengths f (suc count) total r = do
  (len, r') ← f r
  add_lengths f count (wrapping_add total len) r'

unfoldable pub string_length : Reader → Result (ℕ × Reader)
unfolding sync_unwire_u64 advance_position
string_length r = do (len, r') ← sync_unwire_u64 r; r'' ← advance_position len r'; ok (len, r'')

unfoldable pub string_unwiring : (List ℕ → Bool) → Unwiring (List ℕ)
unfolding sync_unwire_string add_lengths string_length
string_unwiring valid_utf8 = record {
  fixed_size = 0;
  mixed = true;
  size_of = 24;
  sync_unwiring = sync_unwire_string valid_utf8;
  bytes_length = λ count. add_lengths string_length count (8 * count % 2 ^ 64);
}

-- A `Url` is parsed from its text, by the crate `url`.
unfoldable pub url_unwiring :
    {Url : Type 0} → ℕ → (List ℕ → Bool) → (List ℕ → Option Url) → Unwiring Url
unfolding provided_unwiring string_unwiring
url_unwiring size valid_utf8 from_str = provided_unwiring 0 true size λ r. do
  (s, r') ← (string_unwiring valid_utf8).sync_unwiring r
  elim (from_str s) [ none ↦ err invalid_data | some u ↦ ok (u, r') ]

module _ {A : Type 0} (u : Unwiring A) where
  -- `[T; LEN]`.
  unfoldable pub array_unwiring : ℕ → Unwiring (List A)
  unfolding sync_unwiring_array
  array_unwiring len = record {
    fixed_size = u.fixed_size * len;
    mixed = u.mixed;
    size_of = u.size_of * len;
    sync_unwiring = sync_unwiring_array u len;
    bytes_length = λ count. u.bytes_length (len * count % 2 ^ 64);
  }

  -- `Arc<T>` and `Box<T>` keep the trait's `bytes_length`, with the size of a pointer.
  unfoldable pub arc_unwiring : Unwiring A
  unfolding provided_unwiring
  arc_unwiring = provided_unwiring 0 true 8 u.sync_unwiring

  unfoldable pub box_unwiring : Unwiring A
  unfolding provided_unwiring
  box_unwiring = provided_unwiring 0 true 8 u.sync_unwiring

  -- The bytes of one vector behind its length, `this_count`.
  unfoldable pub vec_body_length : ℕ × Reader → Result (ℕ × Reader)
  unfolding advance_position
  vec_body_length (this_count, r) =
      let len = u.fixed_size * this_count % 2 ^ 64 in
      if u.mixed
      then u.bytes_length this_count r
      else (advance_position len r >>= λ r'. ok (len, r'))

  unfoldable pub vec_length : Reader → Result (ℕ × Reader)
  unfolding sync_unwire_u64 vec_body_length
  vec_length r = sync_unwire_u64 r >>= vec_body_length

  unfoldable pub vec_unwiring : Unwiring (List A)
  unfolding sync_unwiring_vec add_lengths vec_length
  vec_unwiring = record {
    fixed_size = 0;
    mixed = true;
    size_of = 24;
    sync_unwiring = sync_unwiring_vec u;
    bytes_length = λ count. add_lengths vec_length count (8 * count % 2 ^ 64);
  }

  -- `Box<[T]>` is read as a vector, and measured as `count` elements.
  unfoldable pub boxed_slice_unwiring : Unwiring (List A)
  unfolding sync_unwiring_vec
  boxed_slice_unwiring = record {
    fixed_size = 0;
    mixed = true;
    size_of = 16;
    sync_unwiring = sync_unwiring_vec u;
    bytes_length = u.bytes_length;
  }

  -- `while len > 0 { … insert(t); }`, for `HashSet` and `BTreeSet`. `allocates` says whether
  -- `with_capacity` gets the memory; for `BTreeSet`, which reserves nothing, it is constantly true.
  unfoldable pub insert_each : {S : Type 0} → (A → S → S) → ℕ → S → Reader → Result (S × Reader)
  insert_each insert zero set r = ok (set, r)
  insert_each insert (suc len) set r = do
    (x, r') ← u.sync_unwiring r
    insert_each insert len (insert x set) r'

  unfoldable pub set_unwiring : {S : Type 0} → ℕ → (ℕ → Bool) → S → (A → S → S) → Unwiring S
  unfolding provided_unwiring sync_unwire_u64 insert_each
  set_unwiring size allocates new insert = provided_unwiring 0 true size λ r. do
    (len, r') ← sync_unwire_u64 r
    let filled = insert_each insert len new r' in if allocates len then filled else panic

  unfoldable pub option_tag : ℕ × Reader → Result (Option A × Reader)
  option_tag (n, r) =
      if n == 0
      then ok (none, r)
      else if n == 1
      then (u.sync_unwiring r >>= λ p. ok (some p.0, p.1))
      else err invalid_data

  -- The bytes behind the variant.
  unfoldable pub option_body_length : ℕ × Reader → Result (ℕ × Reader)
  option_body_length (variant, r) = if variant == 1 then u.bytes_length 1 r else ok (0, r)

  unfoldable pub option_length : Reader → Result (ℕ × Reader)
  unfolding sync_unwire_u8 option_body_length
  option_length r = sync_unwire_u8 r >>= option_body_length

  unfoldable pub option_unwiring : ℕ → Unwiring (Option A)
  unfolding sync_unwire_u8 option_tag add_lengths option_length
  option_unwiring size = record {
    fixed_size = 0;
    mixed = true;
    size_of = size;
    sync_unwiring = λ r. sync_unwire_u8 r >>= option_tag;
    bytes_length = λ count. add_lengths option_length count count;
  }

module _ {A B : Type 0} (u : Unwiring A) (u' : Unwiring B) where
  unfoldable pub pair_sync_unwiring : Reader → Result ((A × B) × Reader)
  pair_sync_unwiring r = do
    (x, r1) ← u.sync_unwiring r
    (y, r2) ← u'.sync_unwiring r1
    ok ((x, y), r2)

  unfoldable pub pair_length : Reader → Result (ℕ × Reader)
  pair_length r = do
    (n, r1) ← u.bytes_length 1 r
    (n', r2) ← u'.bytes_length 1 r1
    ok (wrapping_add n n', r2)

  -- `(T, TT)`. Its `MIXED` reads `T::MIXED && TT::MIXED`.
  unfoldable pub pair_unwiring : ℕ → Unwiring (A × B)
  unfolding pair_sync_unwiring add_lengths pair_length
  pair_unwiring size = record {
    fixed_size = u.fixed_size + u'.fixed_size;
    mixed = u.mixed && u'.mixed;
    size_of = size;
    sync_unwiring = pair_sync_unwiring;
    bytes_length = λ count. add_lengths pair_length count 0;
  }

  -- `while len > 0 { … insert(k, v); }`, for `HashMap` and `BTreeMap`.
  unfoldable pub insert_pairs :
      {M : Type 0} → (A → B → M → M) → ℕ → M → Reader → Result (M × Reader)
  insert_pairs insert zero map r = ok (map, r)
  insert_pairs insert (suc len) map r = do
    (k, r1) ← u.sync_unwiring r
    (v, r2) ← u'.sync_unwiring r1
    insert_pairs insert len (insert k v map) r2

  unfoldable pub map_unwiring : {M : Type 0} → ℕ → (ℕ → Bool) → M → (A → B → M → M) → Unwiring M
  unfolding provided_unwiring sync_unwire_u64 insert_pairs
  map_unwiring size allocates new insert = provided_unwiring 0 true size λ r. do
    (len, r') ← sync_unwire_u64 r
    let filled = insert_pairs insert len new r' in if allocates len then filled else panic

module _ {A B C : Type 0} (u : Unwiring A) (u' : Unwiring B) (u'' : Unwiring C) where
  unfoldable pub triple_sync_unwiring : Reader → Result ((A × B × C) × Reader)
  triple_sync_unwiring r = do
    (x, r1) ← u.sync_unwiring r
    (y, r2) ← u'.sync_unwiring r1
    (z, r3) ← u''.sync_unwiring r2
    ok ((x, y, z), r3)

  pub triple_length : Reader → Result (ℕ × Reader)
  triple_length r = do
    (n, r1) ← u.bytes_length 1 r
    (n', r2) ← u'.bytes_length 1 r1
    (n'', r3) ← u''.bytes_length 1 r2
    ok (wrapping_add (wrapping_add n n') n'', r3)

  unfoldable pub triple_unwiring : ℕ → Unwiring (A × B × C)
  unfolding triple_sync_unwiring add_lengths triple_length
  triple_unwiring size = record {
    fixed_size = u.fixed_size + u'.fixed_size + u''.fixed_size;
    mixed = u.mixed && u'.mixed && u''.mixed;
    size_of = size;
    sync_unwiring = triple_sync_unwiring;
    bytes_length = λ count. add_lengths triple_length count 0;
  }
