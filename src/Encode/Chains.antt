-- ===== src/Encode/Chains.antt =====
-- wiring/src/core/wire.rs: calls of `sync_wiring` one behind the other, as every structure makes them.
use wiring.Base.{ℕ, ◌≡◌, sym, ap, ◌∙◌, List, [], ◌++◌, Result, ok, ◌>>=◌, length}
use wiring.Wire.{Target, VecWire}
use wiring.Wire.Laws.{
  extend-nil, Room-direct, Room-first, Room, Room-second, extend-extend, extended,
}

-- A write of fixed bytes: it appends them, through either target.
abbrev pub Puts : (Target → VecWire → Result VecWire) → List ℕ → Type 0
Puts f bs = (t : Target) (v : VecWire) → Room t v (length bs) → f t v ≡ ok (extended bs v)

pub Puts-bind :
    (f g : Target → VecWire → Result VecWire) (bs cs : List ℕ)
    → Puts f bs
    → Puts g cs
    → Puts (λ t v. f t v >>= g t) (bs ++ cs)
Puts-bind f g bs cs first next t v room =
    rw (first t v (Room-first t v bs cs room))
      (next t _ (Room-second t v bs cs room) ∙ ap ok (extend-extend bs cs v))

-- Nothing written, where the vector is what it was.
pub Puts-nil : Puts (λ t v. ok v) []
Puts-nil t v room = ap ok (sym (extend-nil v (Room-direct t v 0 room)))
