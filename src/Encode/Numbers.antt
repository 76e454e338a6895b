-- ===== src/Encode/Numbers.antt =====
-- wiring/src/core/wire.rs: `Wiring` for the numbers, `bool` and `()`. Signed integers and floats go
-- by their bit patterns.
use wiring.Base.{ℕ, Bool, true, false, List, [], ◌∷◌, ◌++◌, length, Result, flat_map, ◌>>=◌}
use wiring.Bytes.{to_be_bytes}
use wiring.Wire.{
  write_uint, sync_wire_all, sync_wire_u64, sync_wire_f32, write_all, copy_to_front,
  copy_nonoverlapping,
}
use wiring.Format.{bool_byte}
use wiring.Encode.{SyncWiring, Wiring, provided, no_concat}

-- The write of one byte, `wire.write_u8(n)`.
abbrev pub write_u8 : ℕ → List (List ℕ)
write_u8 n = (n ∷ []) ∷ []

abbrev u8_sync_wiring : SyncWiring ℕ
u8_sync_wiring t n v = sync_wire_all t true (n ∷ []) v

unfoldable pub u8_wiring : Wiring ℕ
unfolding provided
u8_wiring =
    record (provided 1 false write_u8 write_u8 u8_sync_wiring
      (λ n buf. copy_to_front (n ∷ []) buf)) {
        wiring_slice = λ xs. write_uint 8 (length xs) ++ xs ∷ [];
        wiring_array = λ xs. xs ∷ [];
        sync_wiring_slice = λ t xs v. sync_wire_u64 t (length xs) v >>= sync_wire_all t true xs;
        sync_wiring_array = λ t xs v. sync_wire_all t true xs v;
      }

unfoldable pub i8_wiring : Wiring ℕ
unfolding provided
i8_wiring = provided 1 false write_u8 write_u8 u8_sync_wiring (λ n buf. copy_to_front (n ∷ []) buf)

-- `wire.sync_wire_all::<true>(&self.to_be_bytes())`
abbrev be_sync_wiring : ℕ → SyncWiring ℕ
be_sync_wiring w t n v = sync_wire_all t true (to_be_bytes w n) v

-- `buf[..w].copy_from_slice(&self.to_be_bytes())`
abbrev pub be_concat : ℕ → ℕ → List ℕ → Result (List ℕ)
be_concat w n buf = copy_to_front (to_be_bytes w n) buf

unfoldable pub u16_wiring : Wiring ℕ
unfolding provided
u16_wiring = provided 2 false (write_uint 2) (write_uint 2) (be_sync_wiring 2) (be_concat 2)

unfoldable pub i16_wiring : Wiring ℕ
unfolding provided
i16_wiring = provided 2 false (write_uint 2) (write_uint 2) (be_sync_wiring 2) (be_concat 2)

-- An array of `u32` is flattened and written at once.
unfoldable pub u32_wiring : Wiring ℕ
unfolding provided
u32_wiring =
    record (provided 4 false (write_uint 4) (write_uint 4) (be_sync_wiring 4) (be_concat 4)) {
      sync_wiring_array = λ t xs v. sync_wire_all t true (flat_map (to_be_bytes 4) xs) v;
    }

unfoldable pub i32_wiring : Wiring ℕ
unfolding provided
i32_wiring =
    provided 4 false (write_uint 4) (write_uint 4) (λ t n v. write_all t (to_be_bytes 4 n) v)
      (be_concat 4)

unfoldable pub f32_wiring : Wiring ℕ
unfolding provided
f32_wiring =
    provided 4 false (write_uint 4) (write_uint 4) sync_wire_f32
      (λ n buf. copy_nonoverlapping (to_be_bytes 4 n) buf)

unfoldable pub u64_wiring : Wiring ℕ
unfolding provided
u64_wiring = provided 8 false (write_uint 8) (write_uint 8) sync_wire_u64 (be_concat 8)

unfoldable pub i64_wiring : Wiring ℕ
unfolding provided
i64_wiring = provided 8 false (write_uint 8) (write_uint 8) (be_sync_wiring 8) (be_concat 8)

-- `f64` does not say that it is not `MIXED`.
unfoldable pub f64_wiring : Wiring ℕ
unfolding provided
f64_wiring = provided 8 true (write_uint 8) (write_uint 8) (be_sync_wiring 8) (be_concat 8)

unfoldable pub u128_wiring : Wiring ℕ
unfolding provided
u128_wiring = provided 16 false (write_uint 16) (write_uint 16) (be_sync_wiring 16) (be_concat 16)

unfoldable pub i128_wiring : Wiring ℕ
unfolding provided
i128_wiring = provided 16 false (write_uint 16) (write_uint 16) (be_sync_wiring 16) (be_concat 16)

-- `usize` goes as a `u64`.
unfoldable pub usize_wiring : Wiring ℕ
unfolding provided
usize_wiring = provided 8 true (write_uint 8) (write_uint 8) sync_wire_u64 (be_concat 8)

-- `char` goes as a `u32`.
unfoldable pub char_wiring : Wiring ℕ
unfolding provided
char_wiring = provided 0 true (write_uint 4) (write_uint 4) (be_sync_wiring 4) no_concat

unfoldable pub bool_wiring : Wiring Bool
unfolding provided
bool_wiring =
    provided 1 false (λ b. write_u8 (bool_byte b)) (λ b. write_u8 (bool_byte b))
      (λ t b v. u8_sync_wiring t (bool_byte b) v) (λ b buf. copy_to_front (bool_byte b ∷ []) buf)

unfoldable pub unit_wiring : Wiring (Unit {0})
unfolding provided
unit_wiring =
    provided 0 true (λ u. write_u8 0) (λ u. write_u8 0) (λ t u v. u8_sync_wiring t 0 v) no_concat
