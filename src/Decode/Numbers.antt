-- ===== src/Decode/Numbers.antt =====
-- wiring/src/core/unwire.rs: `Unwiring` for the numbers, `bool` and `()`. Signed integers and floats
-- go by their bit patterns, so that `as i8` and the like change nothing.
use wiring.Base.{
  false, true, ◌>>=◌, ok, not, ◌==◌, if◌then◌else◌, err, invalid_data, ℕ, Bool, Result,
}
use wiring.Bytes.{from_be_bytes}
use wiring.Decode.{
  Unwiring, Reader, default_bytes_length, sync_unwire_u32, read_exact, sync_unwire_u64,
  sync_unwire_u8, sync_unwire_u16, advance_position, sync_unwire_f32,
}

-- An implementation that keeps the trait's `bytes_length`.
unfoldable pub provided_unwiring :
    {A : Type 0} → ℕ → Bool → ℕ → (Reader → Result (A × Reader)) → Unwiring A
unfolding default_bytes_length
provided_unwiring fixed is_mixed size f = record {
  fixed_size = fixed;
  mixed = is_mixed;
  size_of = size;
  sync_unwiring = f;
  bytes_length = default_bytes_length size;
}

unfoldable pub u8_unwiring : Unwiring ℕ
unfolding provided_unwiring sync_unwire_u8
u8_unwiring = provided_unwiring 1 false 1 sync_unwire_u8

unfoldable pub i8_unwiring : Unwiring ℕ
unfolding provided_unwiring sync_unwire_u8
i8_unwiring = provided_unwiring 1 false 1 sync_unwire_u8

unfoldable pub u16_unwiring : Unwiring ℕ
unfolding provided_unwiring sync_unwire_u16
u16_unwiring = provided_unwiring 2 false 2 sync_unwire_u16

unfoldable pub i16_unwiring : Unwiring ℕ
unfolding provided_unwiring sync_unwire_u16
i16_unwiring = provided_unwiring 2 false 2 sync_unwire_u16

unfoldable pub u32_unwiring : Unwiring ℕ
unfolding provided_unwiring sync_unwire_u32
u32_unwiring = provided_unwiring 4 false 4 sync_unwire_u32

unfoldable pub i32_unwiring : Unwiring ℕ
unfolding provided_unwiring sync_unwire_u32
i32_unwiring = provided_unwiring 4 false 4 sync_unwire_u32

-- `f32` says that it is not `MIXED` and leaves `FIXED_SIZE` at 0.
unfoldable pub f32_unwiring : Unwiring ℕ
unfolding provided_unwiring sync_unwire_f32
f32_unwiring = provided_unwiring 0 false 4 sync_unwire_f32

unfoldable pub u64_unwiring : Unwiring ℕ
unfolding provided_unwiring sync_unwire_u64
u64_unwiring = provided_unwiring 8 false 8 sync_unwire_u64

unfoldable pub i64_unwiring : Unwiring ℕ
unfolding provided_unwiring sync_unwire_u64
i64_unwiring = provided_unwiring 8 false 8 sync_unwire_u64

-- `read_exact` into a buffer of that size, and `from_be_bytes`.
unfoldable pub read_be : ℕ → Reader → Result (ℕ × Reader)
unfolding read_exact
read_be w r = do (bs, r') ← read_exact w r; ok (from_be_bytes bs, r')

-- As `f32`.
unfoldable pub f64_unwiring : Unwiring ℕ
unfolding provided_unwiring read_be
f64_unwiring = provided_unwiring 0 false 8 (read_be 8)

unfoldable pub u128_unwiring : Unwiring ℕ
unfolding provided_unwiring read_be
u128_unwiring = provided_unwiring 16 false 16 (read_be 16)

unfoldable pub i128_unwiring : Unwiring ℕ
unfolding provided_unwiring read_be
i128_unwiring = provided_unwiring 16 false 16 (read_be 16)

bool_sync_unwiring : Reader → Result (Bool × Reader)
unfolding sync_unwire_u8
bool_sync_unwiring r = do (n, r') ← sync_unwire_u8 r; ok (not (n == 0), r')

unfoldable pub bool_unwiring : Unwiring Bool
unfolding provided_unwiring bool_sync_unwiring
bool_unwiring = provided_unwiring 0 true 1 bool_sync_unwiring

unit_sync_unwiring : Reader → Result (Unit {0} × Reader)
unfolding sync_unwire_u8
unit_sync_unwiring r = do
  (n, r') ← sync_unwire_u8 r
  if n == 0 then ok (tt, r') else err invalid_data

unfoldable pub unit_unwiring : Unwiring (Unit {0})
unfolding provided_unwiring unit_sync_unwiring advance_position
unit_unwiring = record (provided_unwiring 0 true 0 unit_sync_unwiring) {
  bytes_length = λ count r. advance_position count r >>= λ r'. ok (count, r');
}
