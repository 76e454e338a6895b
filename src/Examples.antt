-- ===== src/Examples.antt =====
-- Concrete runs of the code, and each theorem with hypotheses at a concrete input.
use wiring.Base.{
  refl, err, List, ◌∷◌, flat_map, ℕ, false, [], Bool, ◌++◌, ◌≡◌, ◌≢◌, arith, ok, undefined, true,
  unexpected_eof, if◌then◌else◌, leb, ◌-◌, length, replicate,
}
use wiring.Bytes.{from_be_bytes, to_be_bytes, from_be_bytes-to_be_bytes}
use wiring.Wire.{VecWire, direct}
use wiring.Wire.Laws.{extended}
use wiring.Format.{enc_vec, enc_byte}
use wiring.Encode.{default_sync_wiring_slice}
use wiring.Encode.Laws.{FitsSlice, default_sync_wiring_slice_lem}
use wiring.Decode.{unsafe_sync_unwire, safe, UnsafeReader, new_unsafe_reader, raw}
use wiring.Decode.Async.{string_async_unwiring}
use wiring.Decode.Containers.{vec_unwiring, pair_unwiring, string_unwiring}
use wiring.Decode.Laws.{Reads, FitsVec, AnyByte, u8_read}
use wiring.Decode.Numbers.{u8_unwiring, f32_unwiring, u64_unwiring, u16_unwiring}
use wiring.Decode.ReadBack.{vec_unwiring_read}
use wiring.Decode.Truncated.{truncated_string}
use wiring.Encode.ContainerBytes.{vec-Encodes}
use wiring.Encode.Containers.{vec_wiring, pair_wiring, string_wiring}
use wiring.Encode.NumberBytes.{AnyValue, u8-Encodes}
use wiring.Encode.Numbers.{u8_wiring}
use wiring.Encode.Overruns.{pair_slice_overrun}
use wiring.RoundTrip.{buf_wire, read-buf_wire}
use wiring.Safety.{Safe, sync_unwire-defined}
use wiring.Safety.Containers.{vec-Safe}
use wiring.Safety.Numbers.{u16-Safe}
use wiring.Safety.Overruns.{vec_f32_overrun, vec_pair_overrun, second_unwire_overrun}

abbrev two_bytes : List ℕ
two_bytes = 3 ∷ (250 ∷ [])

abbrev old_buffer : VecWire
old_buffer = record { bytes = 9 ∷ []; capacity = 4; spare = λ m. 0 }

abbrev any_text : List ℕ → Bool
any_text bs = true

two_bytes-Fits : FitsSlice AnyValue enc_byte two_bytes
unfolding flat_map
two_bytes-Fits = ((tt, (tt, tt)), omega arith, omega arith)

two_bytes_size : length (enc_vec enc_byte two_bytes) ≡ 10
unfolding flat_map to_be_bytes
two_bytes_size = refl

byte_read : Reads AnyByte enc_byte u8_unwiring.sync_unwiring
unfolding u8_unwiring
byte_read = u8_read

two_bytes-FitsVec : FitsVec u8_unwiring AnyByte enc_byte byte_read two_bytes
unfolding u8_unwiring
two_bytes-FitsVec = ((tt, (tt, tt)), omega arith, omega arith)

read-buf_wire_example :
    (v' : VecWire) × (buf_wire (vec_wiring u8_wiring) two_bytes old_buffer ≡ ok v')
    × ((vec_unwiring u8_unwiring).sync_unwiring (safe v'.bytes) ≡ ok (two_bytes, safe []))
read-buf_wire_example =
    read-buf_wire (vec_wiring u8_wiring) (vec_unwiring u8_unwiring) (FitsSlice AnyValue enc_byte)
      (FitsVec u8_unwiring AnyByte enc_byte byte_read) (enc_vec enc_byte)
      (vec-Encodes u8_wiring AnyValue enc_byte u8-Encodes)
      (vec_unwiring_read u8_unwiring AnyByte enc_byte byte_read) two_bytes old_buffer two_bytes-Fits
      two_bytes-FitsVec (λ m low high. omega (arith, high, two_bytes_size))

sync_unwire-defined_example :
    unsafe_sync_unwire (vec_unwiring u16_unwiring) (new_unsafe_reader (to_be_bytes 8 2 ++ (0 ∷ [])))
    ≢ undefined
sync_unwire-defined_example =
    sync_unwire-defined (vec_unwiring u16_unwiring) (to_be_bytes 8 2 ++ (0 ∷ []))
      (vec-Safe u16_unwiring u16-Safe)

vec-Safe_example : Safe (vec_unwiring u16_unwiring)
vec-Safe_example = vec-Safe u16_unwiring u16-Safe

default_sync_wiring_slice_lem_example :
    default_sync_wiring_slice 1 false u8_wiring.sync_wiring direct two_bytes old_buffer
    ≡ ok (extended (enc_vec enc_byte two_bytes) old_buffer)
default_sync_wiring_slice_lem_example =
    default_sync_wiring_slice_lem AnyValue enc_byte u8_wiring.sync_wiring u8-Encodes.sync 1 false
      (λ n h e. refl) direct two_bytes old_buffer two_bytes-Fits
      (omega arith, λ m low high. omega (arith, high, two_bytes_size))

from_be_bytes-to_be_bytes_example : from_be_bytes (to_be_bytes 2 513) ≡ 513
from_be_bytes-to_be_bytes_example = from_be_bytes-to_be_bytes 2 513 (omega arith)

vec_f32_overrun_example :
    unsafe_sync_unwire
      (vec_unwiring f32_unwiring)
      (new_unsafe_reader (to_be_bytes 8 2 ++ two_bytes))
    ≡ undefined
vec_f32_overrun_example = vec_f32_overrun 1 two_bytes (omega arith) (omega arith)

vec_pair_overrun_example :
    unsafe_sync_unwire
      (vec_unwiring (pair_unwiring u8_unwiring (string_unwiring any_text) 32))
      (new_unsafe_reader (to_be_bytes 8 1 ++ two_bytes))
    ≡ undefined
vec_pair_overrun_example =
    vec_pair_overrun any_text 32 0 two_bytes (omega arith) (omega arith) (omega arith)

-- A vector that doubles, from 8 bytes on.
abbrev doubling : ℕ → ℕ
doubling m = if leb m 8 then 8 - m else if leb m 16 then 16 - m else if leb m 32 then 32 - m else m

abbrev new_vec : VecWire
new_vec = record { bytes = []; capacity = 0; spare = doubling }

abbrev long_text : List ℕ
long_text = replicate 16 97

pair_slice_overrun_example :
    (pair_wiring u8_wiring string_wiring).sync_wiring_slice direct ((5, long_text) ∷ []) new_vec
    ≡ undefined
pair_slice_overrun_example =
    pair_slice_overrun 5 long_text new_vec (omega arith) (λ m low high. ground arith) (ground arith)

second_unwire_overrun_example :
    (r : UnsafeReader) × (unsafe_sync_unwire u64_unwiring
        (new_unsafe_reader (to_be_bytes 8 0 ++ (to_be_bytes 8 3 ++ two_bytes)))
      ≡ ok (0, raw r))
    × (unsafe_sync_unwire (string_unwiring any_text) r ≡ undefined)
second_unwire_overrun_example =
    second_unwire_overrun any_text 3 two_bytes (omega arith) (omega arith) (omega arith)

truncated_string_example :
    ((string_unwiring any_text).sync_unwiring (safe (to_be_bytes 8 5 ++ two_bytes))
      ≡ err unexpected_eof)
    × (string_async_unwiring any_text (to_be_bytes 8 5 ++ two_bytes) ≡ ok (two_bytes, []))
truncated_string_example = truncated_string any_text 5 two_bytes (omega arith) (omega arith) refl
