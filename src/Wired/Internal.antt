-- ===== src/Wired/Internal.antt =====
-- wiring/src/core/wired.rs: `InternalStream`, the two halves of a stream together, and `WireStream::wired` of
-- wiring/src/core/wire.rs.
use wiring.Base.{ℕ, List, Option, none, some, Result, ok, err, unsupported, ◌>>=◌}
use wiring.Wired.{Node}
use wiring.Wired.Channels.{Channel}
use wiring.Wired.Halves.{ReadHalf, WriteHalf, poll_read, poll_write, poll_flush, drop_handle}
use wiring.Wired.Server.{WiredHandle, new_server, run_server}

pub record InternalStream : Type 0 where
  pub read : ReadHalf
  pub write : WriteHalf

pub internal_poll_read :
    ℕ → InternalStream → (ℕ → Channel) → Option (List ℕ × InternalStream × (ℕ → Channel))
unfolding poll_read
internal_poll_read space s cs = elim (poll_read space s.read cs) [
  | none ↦ none
  | some r ↦ some (r.0, record s { read = r.1 }, r.2)
]

pub internal_poll_write : List ℕ → InternalStream → ℕ × InternalStream
internal_poll_write bytes s =
    let out = poll_write bytes s.write in (out.0, record s { write = out.1 })

pub internal_split : InternalStream → Result (ReadHalf × WriteHalf)
internal_split s = ok (s.read, s.write)

-- `stream` of an InternalStream, both ways, and of its write half: there are no streams inside of one.
pub internal_wire_stream : InternalStream → Result InternalStream
internal_wire_stream s = err unsupported

pub internal_unwire_stream : InternalStream → Result InternalStream
internal_unwire_stream s = err unsupported

pub write_half_stream : WriteHalf → Result InternalStream
write_half_stream h = err unsupported

module _ {T : Type 0} where
  pub internal_poll_flush : InternalStream → Node T → Result (Unit {0}) × InternalStream × Node T
  unfolding poll_flush
  internal_poll_flush s n =
      let out = poll_flush s.write n in (out.0, record s { write = out.1 }, out.2)

  -- `poll_shutdown`: the buffer has nothing to shut down.
  pub internal_poll_shutdown : InternalStream → Node T → Result (Unit {0}) × Node T
  internal_poll_shutdown s n = (ok tt, drop_handle s.write.write_id s.write.write_local n)

  pub wired :
      {Read Write : Type 0} → Result (Read × Write) → Result (Read × Write × Node T × WiredHandle)
  wired split = new_server split >>= λ s. ok (s.0, s.1, s.2, run_server)
