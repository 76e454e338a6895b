-- ===== src/Base/Results.antt =====
-- The outcome of a call of the library: a value, an `std::io::Error` by its kind, a panic, or
-- undefined behaviour (an access outside a buffer in an `unsafe` block).
use mathlib.Core.Path.{◌≡◌, refl}

pub data ErrorKind : Type 0 where
  unsupported unexpected_eof invalid_data out_of_memory : ErrorKind
  broken_pipe permission_denied not_found : ErrorKind
  addr_not_available interrupted not_connected connection_aborted other : ErrorKind

pub data Result {ι} (Value : Type ι) : Type ι where
  undefined panic : Result Value
  err : (kind : ErrorKind) → Result Value
  ok : (value : Value) → Result Value

-- `?`: the first outcome that is not a value ends the call.
abbrev pub and_then {ι κ} :
    {Value : Type ι} {Next : Type κ} → (Value → Result Next) → Result Value → Result Next
and_then step undefined = undefined
and_then step panic = panic
and_then step (err kind) = err kind
and_then step (ok value) = step value

infixl 5 ◌>>=◌
abbrev pub ◌>>=◌ {ι κ} :
    {Value : Type ι} {Next : Type κ} → Result Value → (Value → Result Next) → Result Next
outcome >>= step = and_then step outcome

-- A chain that gives a value had one from its first call.
pub ok-inverse {ι κ} :
    {Value : Type ι} {Next : Type κ} (outcome : Result Value) (step : Value → Result Next)
    {next : Next}
    → (outcome >>= step) ≡ ok next
    → (value : Value) × (outcome ≡ ok value) × (step value ≡ ok next)
ok-inverse undefined step e = cc
ok-inverse panic step e = cc
ok-inverse (err kind) step e = cc
ok-inverse (ok value) step e = (value, refl, e)
