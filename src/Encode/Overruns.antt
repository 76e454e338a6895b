-- ===== src/Encode/Overruns.antt =====
-- wiring/src/core/wire.rs: `sync_wiring_slice` of a pair whose second part is `MIXED`.
use wiring.Base.{
  ℕ, List, ◌<◌, ◌≤◌, length, ◌+◌, ◌∷◌, [], ◌≡◌, undefined, max, length-append, arith, true, refl,
}
use wiring.Bytes.{to_be_bytes, length-to_be_bytes}
use wiring.Wire.{VecWire, direct, wrapped, allocated}
use wiring.Wire.Laws.{
  extended, reserved, Allocates, Allocates-less, Allocates-extended, sync_wire_u64_lem,
  reserve_capacity_lem, Room-reserved, sync_wire_all_lem, sync_wire_all_overrun,
}
use wiring.Encode.{default_sync_wiring_slice, sync_each}
use wiring.Encode.Containers.{pair_wiring, string_wiring}
use wiring.Encode.Numbers.{u8_wiring}

-- The most that is asked of a vector for one (u8, String): the length of the slice, a byte, and the length of the text.
abbrev pub asked : VecWire → ℕ
asked v = max v.capacity (length v.bytes + 17)

-- sync_wiring_slice of one (u8, String) writes outside what the vector allocates, where what it
-- allocates for 17 bytes more, or for its capacity if that is more, is less than these 17 and the
-- text need. The vector is not longer than its capacity, and what it allocates on the way is at most
-- isize::MAX.
pub pair_slice_overrun :
    (b : ℕ) (s : List ℕ) (v : VecWire)
    → length v.bytes ≤ v.capacity
    → Allocates v (length v.bytes + 17)
    → asked v + v.spare (asked v) < length v.bytes + 17 + length s
    → (pair_wiring u8_wiring string_wiring).sync_wiring_slice direct ((b, s) ∷ []) v ≡ undefined
unfolding pair_wiring u8_wiring string_wiring default_sync_wiring_slice sync_each
pair_slice_overrun b s v inv fits tight =
    let v1 = extended (to_be_bytes 8 1) v in
    let v2 = reserved direct 1 v1 in
    let v3 = extended (b ∷ []) v2 in
    let v4 = extended (to_be_bytes 8 (length s)) v3 in
    let w1 = length-to_be_bytes 8 1 in
    let w2 = length-to_be_bytes 8 (length s) in
    let l1 = length-append v.bytes (to_be_bytes 8 1) in
    let l3 = length-append v2.bytes (b ∷ []) in
    let l4 = length-append v3.bytes (to_be_bytes 8 (length s)) in
    let n = length v.bytes + 17 in
    let fits1 : Allocates v1 n =
      Allocates-extended (to_be_bytes 8 1) v n (omega (arith, w1)) fits in
    let fits3 : Allocates v3 n = λ m low high. fits1 m (omega arith) (omega (arith, l1, l3, w1)) in
    let top : v4.capacity ≡ asked v = omega (arith, l1, l3, l4, w1, w2) in
    let beyond : allocated v4 < length v4.bytes + length s =
      rw top (omega (arith, tight, l1, l3, l4, w1, w2)) in
    rw
      (
        sync_wire_u64_lem direct 1 v (Allocates-less v n _ (omega (arith, w1)) fits),
        reserve_capacity_lem direct 1 v1 (Allocates-less v1 n _ (omega (arith, l1, w1)) fits1),
        sync_wire_all_lem wrapped (b ∷ []) v2 (
            Room-reserved direct v1 1
              (omega arith, Allocates-less v1 n _ (omega (arith, l1, w1)) fits1)),
        sync_wire_u64_lem wrapped (length s) v3
            (Allocates-less v3 n _ (omega (arith, l1, l3, w1, w2)) fits3),
        sync_wire_all_overrun true s v4 beyond,
      )
      refl
