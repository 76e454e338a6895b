-- ===== src/Decode.antt =====
-- wiring/src/core/unwire.rs: the readers that `sync_unwiring` reads from, `&[u8]` and `UnsafeReader`,
-- and the trait `Unwiring`, as a record of its constants and synchronous methods.
pub mod Laws
pub mod Numbers
pub mod Containers
pub mod ReadBack
pub mod Async
pub mod AsyncReads
pub mod AsyncContainers
pub mod Truncated
pub mod Takes
use wiring.Base.{
  ℕ, ◌^◌, Result, List, Bool, if◌then◌else◌, ok, ◌>>=◌, ◌*◌, length, ◌-◌, ◌%◌, [], leb, err, ltb,
  panic, unexpected_eof, ◌+◌, invalid_data, suc, out_of_memory, ◌∷◌, take, drop, undefined, zero,
}
use wiring.Bytes.{from_be_bytes, isize_max}

-- The slice, its length as the constructor recorded it, and the read position.
pub record UnsafeReader : Type 0 where
  pub slice : List ℕ
  pub source_buffer_len : ℕ
  pub position : ℕ

-- What the type parameter `W: Unwire + Read` stands for. Reading a `&[u8]` leaves the rest of it.
pub data Reader : Type 0 where
  safe : List ℕ → Reader
  raw : UnsafeReader → Reader

-- The bytes that a safe reader still holds.
abbrev pub unread : Reader → List ℕ
unread (safe b) = b
unread (raw r) = []

unfoldable pub new_unsafe_reader : List ℕ → UnsafeReader
new_unsafe_reader source_buffer = record {
  slice = source_buffer;
  source_buffer_len = length source_buffer;
  position = 0;
}

-- A read of `n` bytes through a raw pointer at `position`: undefined outside of the slice.
unfoldable pub read_raw : ℕ → UnsafeReader → Result (List ℕ × UnsafeReader)
read_raw n r =
    if leb (r.position + n) (length r.slice)
    then ok (take n (drop r.position r.slice), record r { position = r.position + n })
    else undefined

raw_uint : ℕ → UnsafeReader → Result (ℕ × UnsafeReader)
raw_uint w r = do (bs, r') ← read_raw w r; ok (from_be_bytes bs, r')

pub unwire_u64 : UnsafeReader → Result (ℕ × UnsafeReader)
unfolding raw_uint
unwire_u64 = raw_uint 8

pub unwire_f32 : UnsafeReader → Result (ℕ × UnsafeReader)
unfolding raw_uint
unwire_f32 = raw_uint 4

pub unwire_u32 : UnsafeReader → Result (ℕ × UnsafeReader)
unfolding raw_uint
unwire_u32 = raw_uint 4

pub unwire_u8 : UnsafeReader → Result (ℕ × UnsafeReader)
unfolding raw_uint
unwire_u8 = raw_uint 1

pub unwire_u16 : UnsafeReader → Result (ℕ × UnsafeReader)
unfolding raw_uint
unwire_u16 = raw_uint 2

pub unwire_slice : ℕ → UnsafeReader → Result (List ℕ × UnsafeReader)
unwire_slice len r = read_raw len r

abbrev pub via_raw {ℓ} : {A : Type ℓ} → Result (A × UnsafeReader) → Result (A × Reader)
via_raw m = m >>= λ p. ok (p.0, raw p.1)

-- `&[u8]`: a split, or `UnexpectedEof`.
pub split_slice : ℕ → List ℕ → Result (List ℕ × Reader)
split_slice n b = if ltb (length b) n then err unexpected_eof else ok (take n b, safe (drop n b))

-- `Read::read_exact`.
pub read_exact : ℕ → Reader → Result (List ℕ × Reader)
unfolding split_slice read_raw
read_exact n (safe b) = split_slice n b
read_exact n (raw r) = via_raw (read_raw n r)

uint_exact : ℕ → Reader → Result (ℕ × Reader)
unfolding read_exact
uint_exact w r = do (bs, r') ← read_exact w r; ok (from_be_bytes bs, r')

unfoldable pub sync_unwire_u8 : Reader → Result (ℕ × Reader)
unfolding uint_exact unwire_u8
sync_unwire_u8 (safe b) = uint_exact 1 (safe b)
sync_unwire_u8 (raw r) = via_raw (unwire_u8 r)

unfoldable pub sync_unwire_u16 : Reader → Result (ℕ × Reader)
unfolding uint_exact unwire_u16
sync_unwire_u16 (safe b) = uint_exact 2 (safe b)
sync_unwire_u16 (raw r) = via_raw (unwire_u16 r)

unfoldable pub sync_unwire_u32 : Reader → Result (ℕ × Reader)
unfolding uint_exact unwire_u32
sync_unwire_u32 (safe b) = uint_exact 4 (safe b)
sync_unwire_u32 (raw r) = via_raw (unwire_u32 r)

split_uint : ℕ → List ℕ → Result (ℕ × Reader)
unfolding split_slice
split_uint w b = do (bs, r') ← split_slice w b; ok (from_be_bytes bs, r')

pub sync_unwire_f32 : Reader → Result (ℕ × Reader)
unfolding split_uint unwire_f32
sync_unwire_f32 (safe b) = split_uint 4 b
sync_unwire_f32 (raw r) = via_raw (unwire_f32 r)

unfoldable pub sync_unwire_u64 : Reader → Result (ℕ × Reader)
unfolding split_uint unwire_u64
sync_unwire_u64 (safe b) = split_uint 8 b
sync_unwire_u64 (raw r) = via_raw (unwire_u64 r)

-- No allocation is larger than `isize::MAX` bytes: the standard library panics.
abbrev pub check_capacity {ℓ} : {A : Type ℓ} → ℕ → Result A → Result A
check_capacity n m = if ltb isize_max n then panic else m

-- `String::from_utf8`, with the standard library's test of the bytes as a parameter.
from_utf8 : (List ℕ → Bool) → List ℕ × Reader → Result (List ℕ × Reader)
from_utf8 valid_utf8 (bs, r) = if valid_utf8 bs then ok (bs, r) else err invalid_data

safe_string : (List ℕ → Bool) → ℕ × Reader → Result (List ℕ × Reader)
unfolding from_utf8 read_exact
safe_string valid_utf8 (len, r) = check_capacity len (read_exact len r >>= from_utf8 valid_utf8)

raw_string : (List ℕ → Bool) → UnsafeReader → Result (List ℕ × Reader)
unfolding unwire_u64 unwire_slice from_utf8
raw_string valid_utf8 r = do
  (len, r') ← unwire_u64 r
  via_raw (unwire_slice len r') >>= from_utf8 valid_utf8

unfoldable pub sync_unwire_string : (List ℕ → Bool) → Reader → Result (List ℕ × Reader)
unfolding sync_unwire_u64 safe_string raw_string
sync_unwire_string valid_utf8 (safe b) = sync_unwire_u64 (safe b) >>= safe_string valid_utf8
sync_unwire_string valid_utf8 (raw r) = raw_string valid_utf8 r

pub advance_position : ℕ → Reader → Result Reader
advance_position amt (safe b) =
    if ltb (length b) amt then err unexpected_eof else ok (safe (drop amt b))
advance_position amt (raw r) = ok (raw (record r { position = (r.position + amt) % 2 ^ 64 }))

-- `size_of` is what `std::mem::size_of::<Self>()` gives.
pub record Unwiring (A : Type 0) : Type 0 where
  pub fixed_size : ℕ
  pub mixed : Bool
  pub size_of : ℕ
  pub sync_unwiring : Reader → Result (A × Reader)
  pub bytes_length : ℕ → Reader → Result (ℕ × Reader)

-- The trait's `bytes_length`: `count` values take `size_of` bytes each.
unfoldable pub default_bytes_length : ℕ → ℕ → Reader → Result (ℕ × Reader)
unfolding advance_position
default_bytes_length size count r =
    let len = size * count % 2 ^ 64 in advance_position len r >>= λ r'. ok (len, r')

module _ {A : Type 0} (u : Unwiring A) where
  -- `sync_unwiring_array`, and the loop of `sync_unwiring_vec`.
  unfoldable pub sync_unwiring_array : ℕ → Reader → Result (List A × Reader)
  sync_unwiring_array zero r = ok ([], r)
  sync_unwiring_array (suc n) r = do
    (x, r') ← u.sync_unwiring r
    (xs, r'') ← sync_unwiring_array n r'
    ok (x ∷ xs, r'')

  -- The length comes first, and room for that many elements is reserved.
  unfoldable pub sync_unwiring_vec : Reader → Result (List A × Reader)
  unfolding sync_unwire_u64 sync_unwiring_array
  sync_unwiring_vec r = do
    (len, r') ← sync_unwire_u64 r
    check_capacity (len * u.size_of) (sync_unwiring_array len r')

  -- `UnsafeReader::sync_unwire`, which `BufUnWire::unwire` calls: the length is measured first, on the
  -- slice, and then the values are read with no check.
  unfoldable pub unsafe_sync_unwire : UnsafeReader → Result (A × Reader)
  unsafe_sync_unwire r = do
    (len, _) ← u.bytes_length 1 (safe r.slice)
    if leb ((r.position + len) % 2 ^ 64) r.source_buffer_len
        then u.sync_unwiring (raw r)
        else err out_of_memory
