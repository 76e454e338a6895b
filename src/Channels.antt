-- ===== src/Channels.antt =====
-- wiring/src/core/wire.rs and wiring/src/core/unwire.rs: ends of channels that are sent over a wire. Each call takes a
-- stream from the wire and starts a task that copies between the stream and a channel. A stream is the list of its
-- bytes, a write that fails writes nothing, and the channels are tokio's: what is sent on one is received in order.
pub mod Ends
pub mod Crossing
pub mod Refusals
pub mod Pairs
mod Examples
use wiring.Wire.{Writes}
use wiring.Decode.Async.{AsyncUnwiring}
use wiring.Encode.{Wiring}
use wiring.Base.{
  ℕ, zero, suc, Option, none, some, List, [], ◌∷◌, ◌++◌, undefined, panic, err, ok, length,
}

module _ {T : Type 0} (w : Wiring T) where
  -- `while let Some(item) = rx.recv().await { if let Err(_) = w.wire(item).await { break; } }`; `writes` is how many
  -- writes succeed before one fails or `detect_shutdown` aborts the task.
  pub write_items : ℕ → List T → Writes
  write_items zero items = []
  write_items (suc writes) [] = []
  write_items (suc writes) (item ∷ items) = w.async_wiring item ++ write_items writes items

module _ {T : Type 0} (f : AsyncUnwiring T) where
  -- `while let Ok(item) = read.unwire().await { if let Err(_) = tx.send(item) { break; } }`; `accepts` is how many
  -- items the channel takes before its receiver is gone. With no fuel left there is no outcome.
  pub read_items : ℕ → ℕ → List ℕ → Option (List T)
  read_items zero accepts b = none
  read_items (suc fuel) accepts b = elim (f b) [
    | undefined ↦ some []
    | panic ↦ some []
    | err kind ↦ some []
    | ok p ↦ elim accepts [
      | zero ↦ some []
      | suc n ↦ elim (read_items fuel n p.1) [ none ↦ none | some items ↦ some (p.0 ∷ items) ]
    ]
  ]

  -- A round for every byte, and one for the end.
  abbrev pub read_stream : ℕ → List ℕ → Option (List T)
  read_stream accepts b = read_items (suc (length b)) accepts b
