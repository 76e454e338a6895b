-- ===== src/Wire.antt =====
-- wiring/src/core/wire.rs: the in-memory wires that `sync_wiring` writes to, `Vec<u8>` and the
-- wrapper `Unchecked` over it, and the byte writes that an asynchronous wire is asked for.
pub mod Laws
use wiring.Base.{
  ℕ, ◌+◌, Bool, true, false, List, [], ◌∷◌, ◌++◌, max, length, leb, if◌then◌else◌, Result, ok,
  undefined, panic, drop, ◌>>=◌,
}
use wiring.Bytes.{to_be_bytes, isize_max}

-- A `Vec<u8>`. `capacity` is the most that it has been asked for, and `spare` is what it allocates
-- beyond that, for each amount: the standard library promises as much as is asked for, and may give
-- more. The amounts only grow, so that every way to grow is a `spare`.
pub record VecWire : Type 0 where
  pub bytes : List ℕ
  pub capacity : ℕ
  pub spare : ℕ → ℕ

abbrev pub allocated : VecWire → ℕ
allocated v = v.capacity + v.spare v.capacity

-- What the type parameter `W: Wire + Write` of `sync_wiring` stands for: the vector itself, or
-- `Unchecked { wire }`. An `Unchecked` over an `Unchecked` does what one does.
pub data Target : Type 0 where
  direct : Target
  wrapped : Target

-- More than `isize::MAX` bytes panic.
pub reserve : ℕ → VecWire → Result VecWire
reserve add v =
    let v' = record v { capacity = max v.capacity (length v.bytes + add) } in
    if leb (allocated v') isize_max then ok v' else panic

pub extend_from_slice : List ℕ → VecWire → Result VecWire
unfolding reserve
extend_from_slice bs v = reserve (length bs) v >>= λ v'. ok (record v' { bytes = v.bytes ++ bs })

-- `Vec::sync_wire_all::<false>`: a raw copy behind the vector's end, then `set_len`. Outside the
-- capacity that is undefined behaviour.
copy_unchecked : List ℕ → VecWire → Result VecWire
copy_unchecked bs v =
    if leb (length v.bytes + length bs) (allocated v)
    then ok (record v { bytes = v.bytes ++ bs })
    else undefined

vec_sync_wire_all : Bool → List ℕ → VecWire → Result VecWire
unfolding copy_unchecked extend_from_slice
vec_sync_wire_all true bs v = extend_from_slice bs v
vec_sync_wire_all false bs v = copy_unchecked bs v

-- `Unchecked` enforces the unchecked copy.
pub sync_wire_all : Target → Bool → List ℕ → VecWire → Result VecWire
unfolding vec_sync_wire_all
sync_wire_all direct check bs v = vec_sync_wire_all check bs v
sync_wire_all wrapped check bs v = vec_sync_wire_all false bs v

vec_sync_wire_u64 : ℕ → VecWire → Result VecWire
unfolding extend_from_slice
vec_sync_wire_u64 n v = extend_from_slice (to_be_bytes 8 n) v

-- Both wires end at the vector's checked `extend_from_slice`.
pub sync_wire_u64 : Target → ℕ → VecWire → Result VecWire
unfolding vec_sync_wire_u64
sync_wire_u64 direct n v = vec_sync_wire_u64 n v
sync_wire_u64 wrapped n v = vec_sync_wire_u64 n v

vec_sync_wire_f32 : ℕ → VecWire → Result VecWire
unfolding extend_from_slice
vec_sync_wire_f32 n v = extend_from_slice (to_be_bytes 4 n) v

pub sync_wire_f32 : Target → ℕ → VecWire → Result VecWire
unfolding vec_sync_wire_f32
sync_wire_f32 direct n v = vec_sync_wire_f32 n v
sync_wire_f32 wrapped n v = vec_sync_wire_f32 n v

-- `Write::write_all`: `Unchecked::write` hands on to the vector's own `write`, which is checked.
pub write_all : Target → List ℕ → VecWire → Result VecWire
unfolding extend_from_slice
write_all t bs v = extend_from_slice bs v

-- `Unchecked` keeps the trait's default, which does nothing.
pub reserve_capacity : Target → ℕ → VecWire → Result VecWire
unfolding reserve
reserve_capacity direct add v = reserve add v
reserve_capacity wrapped add v = ok v

-- An asynchronous `wiring` is the list of the writes that it asks of the stream, in order. It stops
-- at the first write that fails, and no later write depends on more than that.
abbrev pub Writes : Type 0
Writes = List (List ℕ)

-- `write_u8`, `write_u16`, … and `write_all` of the stream: one write of the big-endian bytes.
abbrev pub write_uint : ℕ → ℕ → Writes
write_uint w n = to_be_bytes w n ∷ []

-- A slice copy into the front of a buffer: `buf[..n].copy_from_slice(bs)` panics if it is short.
unfoldable pub copy_to_front : List ℕ → List ℕ → Result (List ℕ)
copy_to_front bs buf =
    if leb (length bs) (length buf) then ok (bs ++ drop (length bs) buf) else panic

-- The same by `copy_nonoverlapping`, with no check.
abbrev pub copy_nonoverlapping : List ℕ → List ℕ → Result (List ℕ)
copy_nonoverlapping bs buf =
    if leb (length bs) (length buf) then ok (bs ++ drop (length bs) buf) else undefined
