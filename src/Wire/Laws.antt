-- ===== src/Wire/Laws.antt =====
-- What the writes of wiring/src/core/wire.rs do to a vector, for either target.
use wiring.Base.{
  ℕ, ◌+◌, ◌≤◌, ◌≡◌, refl, ap, true, List, ◌++◌, append_assoc, arith, length, length-append, le→leb,
  ok, [], append-nil, Bool, max, ◌<◌, undefined, leb, false,
}
use wiring.Bytes.{to_be_bytes, isize_max}
use wiring.Wire.{
  VecWire, Target, direct, wrapped, extend_from_slice, reserve, copy_unchecked, sync_wire_all,
  sync_wire_u64, sync_wire_f32, write_all, reserve_capacity, allocated,
}

-- The vector with these bytes behind its own.
abbrev pub extended : List ℕ → VecWire → VecWire
extended bs v = record v {
  bytes = v.bytes ++ bs;
  capacity = max v.capacity (length v.bytes + length bs);
}

-- What the vector allocates while it grows to `n` bytes fits the memory.
abbrev pub Allocates : VecWire → ℕ → Type 0
Allocates v n = (m : ℕ) → v.capacity ≤ m → m ≤ max v.capacity n → m + v.spare m ≤ isize_max

-- A vector is never longer than its capacity; the unchecked copy also needs room for `n` more bytes.
abbrev pub Room : Target → VecWire → ℕ → Type 0
Room direct v n = (length v.bytes ≤ v.capacity) × Allocates v (length v.bytes + n)
Room wrapped v n = (length v.bytes + n ≤ v.capacity) × Allocates v (length v.bytes + n)

VecWire_eq :
    {xs ys : List ℕ} {c d : ℕ} {s : ℕ → ℕ}
    → xs ≡ ys
    → c ≡ d
    → ◌≡◌ {A = VecWire}
        (record { bytes = xs; capacity = c; spare = s })
        (record { bytes = ys; capacity = d; spare = s })
VecWire_eq {s = s} p q = λ i. record { bytes = p i; capacity = q i; spare = s }

pub extend-extend :
    (xs ys : List ℕ) (v : VecWire) → extended ys (extended xs v) ≡ extended (xs ++ ys) v
extend-extend xs ys v =
    VecWire_eq (append_assoc v.bytes xs ys)
      (omega (arith, length-append v.bytes xs, length-append xs ys))

-- Whatever room is left of the memory is left for less, and after a part of it.
pub Allocates-less : (v : VecWire) (n k : ℕ) → k ≤ n → Allocates v n → Allocates v k
Allocates-less v n k l h m low high = h m low (omega arith)

pub Allocates-extended :
    (bs : List ℕ) (v : VecWire) (n : ℕ)
    → length v.bytes + length bs ≤ n
    → Allocates v n
    → Allocates (extended bs v) n
Allocates-extended bs v n l h m low high = h m (omega arith) (omega arith)

pub Room-Allocates :
    (t : Target) (v : VecWire) (n : ℕ) → Room t v n → Allocates v (length v.bytes + n)
Room-Allocates direct v n h = h.1
Room-Allocates wrapped v n h = h.1

pub extend_from_slice_lem :
    (bs : List ℕ) (v : VecWire)
    → Allocates v (length v.bytes + length bs)
    → extend_from_slice bs v ≡ ok (extended bs v)
unfolding extend_from_slice reserve
extend_from_slice_lem bs v h =
    let fits = h (max v.capacity (length v.bytes + length bs)) (omega arith) (omega arith) in
    rw (le→leb _ isize_max fits) refl

pub sync_wire_all_lem :
    (t : Target) (bs : List ℕ) (v : VecWire)
    → Room t v (length bs)
    → sync_wire_all t true bs v ≡ ok (extended bs v)
unfolding sync_wire_all copy_unchecked
sync_wire_all_lem direct bs v h = extend_from_slice_lem bs v h.1
sync_wire_all_lem wrapped bs v h =
    let l = h.0 in
    let inside : length v.bytes + length bs ≤ allocated v = omega arith in
    rw (le→leb _ _ inside) (ap ok (VecWire_eq refl (omega arith)))

pub sync_wire_u64_lem :
    (t : Target) (n : ℕ) (v : VecWire)
    → Allocates v (length v.bytes + length (to_be_bytes 8 n))
    → sync_wire_u64 t n v ≡ ok (extended (to_be_bytes 8 n) v)
unfolding sync_wire_u64
sync_wire_u64_lem direct n v h = extend_from_slice_lem (to_be_bytes 8 n) v h
sync_wire_u64_lem wrapped n v h = extend_from_slice_lem (to_be_bytes 8 n) v h

pub sync_wire_f32_lem :
    (t : Target) (n : ℕ) (v : VecWire)
    → Allocates v (length v.bytes + length (to_be_bytes 4 n))
    → sync_wire_f32 t n v ≡ ok (extended (to_be_bytes 4 n) v)
unfolding sync_wire_f32
sync_wire_f32_lem direct n v h = extend_from_slice_lem (to_be_bytes 4 n) v h
sync_wire_f32_lem wrapped n v h = extend_from_slice_lem (to_be_bytes 4 n) v h

pub write_all_lem :
    (t : Target) (bs : List ℕ) (v : VecWire)
    → Allocates v (length v.bytes + length bs)
    → write_all t bs v ≡ ok (extended bs v)
unfolding write_all
write_all_lem t bs v h = extend_from_slice_lem bs v h

-- Room for both parts is room for the first, and then for the second.
pub Room-first :
    (t : Target) (v : VecWire) (xs ys : List ℕ)
    → Room t v (length (xs ++ ys))
    → Room t v (length xs)
Room-first direct v xs ys h = (h.0, Allocates-less v _ _ (omega (arith, length-append xs ys)) h.1)
Room-first wrapped v xs ys h = (
  omega (arith, length-append xs ys, h.0),
  Allocates-less v _ _ (omega (arith, length-append xs ys)) h.1,
)

both_allocate :
    (v : VecWire) (xs ys : List ℕ)
    → Allocates v (length v.bytes + length (xs ++ ys))
    → Allocates (extended xs v) (length (v.bytes ++ xs) + length ys)
both_allocate v xs ys h m low high =
    h m (omega arith) (omega (arith, high, length-append v.bytes xs, length-append xs ys))

pub Room-second :
    (t : Target) (v : VecWire) (xs ys : List ℕ)
    → Room t v (length (xs ++ ys))
    → Room t (extended xs v) (length ys)
Room-second direct v xs ys h = (omega (arith, length-append v.bytes xs), both_allocate v xs ys h.1)
Room-second wrapped v xs ys h =
    (omega (arith, h.0, length-append xs ys, length-append v.bytes xs), both_allocate v xs ys h.1)

-- Room for both parts lets the first be written.
pub Allocates-first :
    (t : Target) (v : VecWire) (xs ys : List ℕ)
    → Room t v (length (xs ++ ys))
    → Allocates v (length v.bytes + length xs)
Allocates-first t v xs ys h = Room-Allocates t v (length xs) (Room-first t v xs ys h)

-- A target with room holds the vector's own invariant.
pub Room-direct : (t : Target) (v : VecWire) (n : ℕ) → Room t v n → length v.bytes ≤ v.capacity
Room-direct direct v n h = h.0
Room-direct wrapped v n h = omega (arith, h.0)

pub extend-nil : (v : VecWire) → length v.bytes ≤ v.capacity → extended [] v ≡ v
extend-nil v h = VecWire_eq (append-nil v.bytes) (omega arith)

-- After `reserve_capacity` there is room for unchecked writes of that many bytes, and what has been
-- reserved does not show once they are there.
abbrev pub reserved : Target → ℕ → VecWire → VecWire
reserved direct n v = record v { capacity = max v.capacity (length v.bytes + n) }
reserved wrapped n v = v

pub reserve_capacity_lem :
    (t : Target) (n : ℕ) (v : VecWire)
    → Allocates v (length v.bytes + n)
    → reserve_capacity t n v ≡ ok (reserved t n v)
unfolding reserve_capacity reserve
reserve_capacity_lem direct n v h =
    let fits = h (max v.capacity (length v.bytes + n)) (omega arith) (omega arith) in
    rw (le→leb _ isize_max fits) refl
reserve_capacity_lem wrapped n v h = refl

pub Room-reserved :
    (t : Target) (v : VecWire) (n : ℕ) → Room t v n → Room wrapped (reserved t n v) n
Room-reserved direct v n h = (omega arith, λ m low high. h.1 m (omega arith) (omega arith))
Room-reserved wrapped v n h = h

pub extend-reserved :
    (t : Target) (bs : List ℕ) (v : VecWire)
    → extended bs (reserved t (length bs) v) ≡ extended bs v
extend-reserved direct bs v = VecWire_eq refl (omega arith)
extend-reserved wrapped bs v = refl

-- Beyond what is allocated, the unchecked copy is undefined behaviour.
pub sync_wire_all_overrun :
    (check : Bool) (bs : List ℕ) (v : VecWire)
    → allocated v < length v.bytes + length bs
    → sync_wire_all wrapped check bs v ≡ undefined
unfolding sync_wire_all copy_unchecked
sync_wire_all_overrun check bs v h =
    let beyond : leb (length v.bytes + length bs) (allocated v) ≡ false = ground arith in
    rw beyond refl
