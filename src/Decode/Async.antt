-- ===== src/Decode/Async.antt =====
-- wiring/src/core/unwire.rs: the asynchronous `unwiring` of each type. The stream is the list of the
-- bytes that arrive until its end; reads that wait make no difference to the outcome.
use wiring.Base.{
  ℕ, List, Bool, Option, ◌>>=◌, zero, suc, ◌*◌, ◌==◌, none, some, if◌then◌else◌, ok, err, length,
  take, drop, [], ◌∷◌, ltb, not, unexpected_eof, Result, invalid_data, panic,
}
use wiring.Bytes.{from_be_bytes}
use wiring.Decode.{check_capacity}

abbrev pub AsyncUnwiring : Type 0 → Type 0
AsyncUnwiring A = List ℕ → Result (A × List ℕ)

-- `AsyncReadExt::read_u8`, `read_u16`, …, by the big-endian bit pattern.
pub read_uint : ℕ → AsyncUnwiring ℕ
read_uint w b =
    if ltb (length b) w then err unexpected_eof else ok (from_be_bytes (take w b), drop w b)

unfoldable pub u8_async_unwiring : AsyncUnwiring ℕ
unfolding read_uint
u8_async_unwiring = read_uint 1

unfoldable pub i8_async_unwiring : AsyncUnwiring ℕ
unfolding read_uint
i8_async_unwiring = read_uint 1

unfoldable pub u16_async_unwiring : AsyncUnwiring ℕ
unfolding read_uint
u16_async_unwiring = read_uint 2

unfoldable pub i16_async_unwiring : AsyncUnwiring ℕ
unfolding read_uint
i16_async_unwiring = read_uint 2

unfoldable pub u32_async_unwiring : AsyncUnwiring ℕ
unfolding read_uint
u32_async_unwiring = read_uint 4

unfoldable pub i32_async_unwiring : AsyncUnwiring ℕ
unfolding read_uint
i32_async_unwiring = read_uint 4

unfoldable pub f32_async_unwiring : AsyncUnwiring ℕ
unfolding read_uint
f32_async_unwiring = read_uint 4

unfoldable pub u64_async_unwiring : AsyncUnwiring ℕ
unfolding read_uint
u64_async_unwiring = read_uint 8

unfoldable pub i64_async_unwiring : AsyncUnwiring ℕ
unfolding read_uint
i64_async_unwiring = read_uint 8

unfoldable pub f64_async_unwiring : AsyncUnwiring ℕ
unfolding read_uint
f64_async_unwiring = read_uint 8

unfoldable pub u128_async_unwiring : AsyncUnwiring ℕ
unfolding read_uint
u128_async_unwiring = read_uint 16

unfoldable pub i128_async_unwiring : AsyncUnwiring ℕ
unfolding read_uint
i128_async_unwiring = read_uint 16

unfoldable pub bool_async_unwiring : AsyncUnwiring Bool
unfolding u8_async_unwiring
bool_async_unwiring b = do (n, b') ← u8_async_unwiring b; ok (not (n == 0), b')

unfoldable pub unit_async_unwiring : AsyncUnwiring (Unit {0})
unfolding u8_async_unwiring
unit_async_unwiring b = do
  (n, b') ← u8_async_unwiring b
  if n == 0 then ok (tt, b') else err invalid_data

-- `take(len).read_to_string`: up to `len` bytes, fewer where the stream ends.
unfoldable pub string_async_unwiring : (List ℕ → Bool) → AsyncUnwiring (List ℕ)
unfolding u64_async_unwiring
string_async_unwiring valid_utf8 b = do
  (len, b') ← u64_async_unwiring b
  if valid_utf8 (take len b') then ok (take len b', drop len b') else err invalid_data

unfoldable pub url_async_unwiring :
    {Url : Type 0} → (List ℕ → Bool) → (List ℕ → Option Url) → AsyncUnwiring Url
unfolding string_async_unwiring
url_async_unwiring valid_utf8 from_str b = do
  (s, b') ← string_async_unwiring valid_utf8 b
  elim (from_str s) [ none ↦ err invalid_data | some u ↦ ok (u, b') ]

module _ {A : Type 0} (f : AsyncUnwiring A) where
  -- The loop of `unwiring_array` and of `unwiring_vec`.
  unfoldable pub unwiring_array : ℕ → AsyncUnwiring (List A)
  unwiring_array zero b = ok ([], b)
  unwiring_array (suc n) b = do (x, b') ← f b; (xs, b'') ← unwiring_array n b'; ok (x ∷ xs, b'')

  -- `size_of` is the size of an element, which `Vec::with_capacity` reserves `len` of.
  pub unwiring_vec : ℕ → AsyncUnwiring (List A)
  unfolding u64_async_unwiring unwiring_array
  unwiring_vec size_of b = do
    (len, b') ← u64_async_unwiring b
    check_capacity (len * size_of) (unwiring_array len b')

  unfoldable pub array_async_unwiring : ℕ → AsyncUnwiring (List A)
  unfolding unwiring_array
  array_async_unwiring len = unwiring_array len

  unfoldable pub arc_async_unwiring : AsyncUnwiring A
  arc_async_unwiring = f

  unfoldable pub box_async_unwiring : AsyncUnwiring A
  box_async_unwiring = f

  unfoldable pub vec_async_unwiring : ℕ → AsyncUnwiring (List A)
  unfolding unwiring_vec
  vec_async_unwiring size_of = unwiring_vec size_of

  unfoldable pub boxed_slice_async_unwiring : ℕ → AsyncUnwiring (List A)
  unfolding vec_async_unwiring
  boxed_slice_async_unwiring size_of = vec_async_unwiring size_of

  unfoldable pub async_insert_each : {S : Type 0} → (A → S → S) → ℕ → S → AsyncUnwiring S
  async_insert_each insert zero set b = ok (set, b)
  async_insert_each insert (suc len) set b = do
    (x, b') ← f b
    async_insert_each insert len (insert x set) b'

  unfoldable pub set_async_unwiring : {S : Type 0} → (ℕ → Bool) → S → (A → S → S) → AsyncUnwiring S
  unfolding u64_async_unwiring async_insert_each
  set_async_unwiring allocates new insert b = do
    (len, b') ← u64_async_unwiring b
    let filled = async_insert_each insert len new b' in if allocates len then filled else panic

  unfoldable pub option_async_unwiring : AsyncUnwiring (Option A)
  unfolding u8_async_unwiring
  option_async_unwiring b = do
    (n, b') ← u8_async_unwiring b
    if n == 0
        then ok (none, b')
        else if n == 1
        then (f b' >>= λ p. ok (some p.0, p.1))
        else err invalid_data

module _ {A B : Type 0} (f : AsyncUnwiring A) (g : AsyncUnwiring B) where
  unfoldable pub pair_async_unwiring : AsyncUnwiring (A × B)
  pair_async_unwiring b = do (x, b1) ← f b; (y, b2) ← g b1; ok ((x, y), b2)

  unfoldable pub async_insert_pairs : {M : Type 0} → (A → B → M → M) → ℕ → M → AsyncUnwiring M
  async_insert_pairs insert zero map b = ok (map, b)
  async_insert_pairs insert (suc len) map b = do
    (k, b1) ← f b
    (v, b2) ← g b1
    async_insert_pairs insert len (insert k v map) b2

  unfoldable pub map_async_unwiring :
      {M : Type 0} → (ℕ → Bool) → M → (A → B → M → M) → AsyncUnwiring M
  unfolding u64_async_unwiring async_insert_pairs
  map_async_unwiring allocates new insert b = do
    (len, b') ← u64_async_unwiring b
    let filled = async_insert_pairs insert len new b' in if allocates len then filled else panic

module _ {A B C : Type 0} (f : AsyncUnwiring A) (g : AsyncUnwiring B) (h : AsyncUnwiring C) where
  unfoldable pub triple_async_unwiring : AsyncUnwiring (A × B × C)
  triple_async_unwiring b = do (x, b1) ← f b; (y, b2) ← g b1; (z, b3) ← h b2; ok ((x, y, z), b3)
