-- ===== src/RoundTrip.antt =====
-- Writing a value with `BufWire` (wiring/src/core/wire.rs) and reading it back with `&[u8]`
-- (wiring/src/core/unwire.rs).
use wiring.Base.{[], Result, List, ℕ, ◌≡◌, ok, arith, append-nil, length}
use wiring.Wire.{VecWire, direct}
use wiring.Wire.Laws.{extended, Allocates}
use wiring.Encode.{Wiring}
use wiring.Encode.Laws.{Encodes}
use wiring.Decode.{Unwiring, safe}
use wiring.Decode.Laws.{Reads}

-- `BufWire::new` empties the vector and keeps its capacity; `wire` writes to it.
pub new_buf_wire : VecWire → VecWire
new_buf_wire v = record v { bytes = [] }

pub buf_wire : {A : Type 0} → Wiring A → A → VecWire → Result VecWire
unfolding new_buf_wire
buf_wire w x v = w.sync_wiring direct x (new_buf_wire v)

-- For an implementation of Wiring that meets a format and an implementation of Unwiring that reads
-- it, BufWire::wire succeeds on every value that fits both, whatever the vector held before, if the
-- memory holds what it allocates while it grows to the bytes, and sync_unwiring of what it wrote
-- gives the value back and leaves nothing.
pub read-buf_wire :
    {A : Type 0} (w : Wiring A) (u : Unwiring A) (Fits Fits' : A → Type 0) (enc : A → List ℕ)
    → Encodes w Fits enc
    → Reads Fits' enc u.sync_unwiring
    → (x : A) (v : VecWire) → Fits x
    → Fits' x
    → Allocates v (length (enc x))
    → (v' : VecWire) × (buf_wire w x v ≡ ok v')
      × (u.sync_unwiring (safe v'.bytes) ≡ ok (x, safe []))
unfolding buf_wire
read-buf_wire w u Fits Fits' enc e reads x v fits fits' room = (
  extended (enc x) (new_buf_wire v),
  e.sync direct x (new_buf_wire v) fits
      (omega arith, λ m low high. room m low (omega (arith, high))),
  rw (append-nil (enc x)) at (reads x [] fits'),
)
