-- ===== src/Wired.antt =====
-- wiring/src/core/wired.rs: the server that runs many streams over one wire. The task of `Wired::run`, the task of
-- `Unwired::run` with its helper, and the two halves of a stream share the state of a `Node`.
pub mod Streams
pub mod Channels
pub mod Halves
pub mod Reading
pub mod Events
pub mod Ids
pub mod Delivery
pub mod Drops
pub mod Closing
pub mod Server
pub mod Internal
pub mod Handlers
pub mod Sent
pub mod Opened
pub mod Shutdown
pub mod Ending
mod Examples
use wiring.Base.{
  ℕ, Bool, true, false, not, ◌&&◌, Option, none, some, List, [], ◌∷◌, ◌++◌, if◌then◌else◌,
}
use wiring.Wired.Channels.{try_recv, Channel, push, drop_receiver, drop_sender, update}
use wiring.Wired.Streams.{lookup, unregister, enter, Key, Table}

-- What goes over the wire.
pub data WiringEvent (T : Type 0) : Type 0 where
  wiring_event : T → WiringEvent T
  wiring_message : ℕ → Bool → List ℕ → WiringEvent T
  wiring_drop : ℕ → Bool → WiringEvent T

-- What the task of `Wired` is told. A receiver is the number of its channel.
pub data WiredEvent (T : Type 0) : Type 0 where
  wired_event : T → WiredEvent T
  register_write_half : ℕ → ℕ → WiredEvent T
  wired_message : ℕ → Bool → WiredEvent T
  wired_drop : ℕ → Bool → Bool → WiredEvent T

-- What the helper of `Unwired` is told. A sender is the number of its channel.
pub data UnwiredEvent : Type 0 where
  register_stream : ℕ → Bool → ℕ → UnwiredEvent
  unwired_drop : ℕ → Bool → Bool → UnwiredEvent
  unwired_message : ℕ → Bool → List ℕ → UnwiredEvent

-- One end. `streams` is the table of `Wired`, `senders` that of the helper; `inbox` and `helper_inbox` are
-- the channels of their events, `written` the events that have been written to the wire, and `handled`
-- those that went to `handle_event`; `announced` are the ids that `connect` wrote.
pub record Node (T : Type 0) : Type 0 where
  pub stream_id : ℕ
  pub streams : Table ℕ
  pub senders : Table ℕ
  pub channels : ℕ → Channel
  pub next_channel : ℕ
  pub inbox : List (Option (WiredEvent T))
  pub inbox_open : Bool
  pub helper_inbox : List (Option UnwiredEvent)
  pub helper_open : Bool
  pub written : List (WiringEvent T)
  pub handled : List T
  pub announced : List ℕ

-- A receiver goes with its entry of the table.
abbrev pub forget_receiver : Option ℕ → (ℕ → Channel) → ℕ → Channel
forget_receiver none cs = cs
forget_receiver (some c) cs = update cs c (drop_receiver (cs c))

abbrev pub forget_sender : Option ℕ → (ℕ → Channel) → ℕ → Channel
forget_sender none cs = cs
forget_sender (some c) cs = update cs c (drop_sender (cs c))

module _ {T : Type 0} where
  abbrev pub tell_wired : Option (WiredEvent T) → Node T → Node T
  tell_wired e n = record n { inbox = if n.inbox_open then n.inbox ++ (e ∷ []) else n.inbox }

  abbrev pub tell_helper : Option UnwiredEvent → Node T → Node T
  tell_helper e n = record n {
    helper_inbox = if n.helper_open then n.helper_inbox ++ (e ∷ []) else n.helper_inbox;
  }

  -- A node with no event that waits, both channels of events open.
  abbrev pub idle : Node T → Node T
  idle n = record n { inbox = []; inbox_open = true; helper_inbox = []; helper_open = true }

  -- `if let Err(_) = self.wire(wiring_event).await { rx.close(); }`
  abbrev pub write : Bool → WiringEvent T → Node T → Node T
  write wires e n = record n {
    written = if wires then n.written ++ (e ∷ []) else n.written;
    inbox_open = wires && n.inbox_open;
  }

  pub register_receiver : Key → ℕ → Node T → Node T
  register_receiver k c n = record n {
    channels = forget_receiver (lookup k n.streams) n.channels;
    streams = enter k c n.streams;
  }

  drop_stream : Bool → ℕ → Bool → Bool → ℕ → Node T → Node T
  drop_stream wires id local broadcast c n =
      let n' = record n {
        channels = forget_receiver (some c) n.channels;
        streams = unregister (id, local) n.streams;
      } in
      let n'' = if broadcast then write wires (wiring_drop id (not local)) n' else n' in
      tell_helper (some (unwired_drop id local false)) n''

  send_message : Bool → ℕ → Bool → ℕ → Node T → Node T
  send_message wires id local c n = elim (try_recv (n.channels c)) [
    | none ↦ n
    | some r ↦
        write wires (wiring_message id (not local) r.0)
          (record n { channels = update n.channels c r.1 })
  ]

  -- One event of `Wired::run`; `wires` says whether the write to the wire succeeds.
  pub wired_step : Bool → WiredEvent T → Node T → Node T
  unfolding register_receiver drop_stream send_message
  wired_step wires (wired_event e) n = write wires (wiring_event e) n
  wired_step wires (register_write_half id rx) n = register_receiver (id, false) rx n
  wired_step wires (wired_drop id local broadcast) n = elim (lookup (id, local) n.streams) [
    | none ↦ n
    | some c ↦ drop_stream wires id local broadcast c n
  ]
  wired_step wires (wired_message id local) n = elim (lookup (id, local) n.streams) [
    | none ↦ n
    | some c ↦ send_message wires id local c n
  ]

  -- `while let Some(e) = rx.recv().await`, one round.
  pub run_wired : Bool → Node T → Node T
  unfolding wired_step
  run_wired wires n = elim n.inbox [
    | [] ↦ n
    | e ∷ es ↦
        let n' = record n { inbox = es } in
        elim e [ none ↦ record n' { inbox_open = false } | some x ↦ wired_step wires x n' ]
  ]

  drop_sender_of : ℕ → Bool → Bool → ℕ → Node T → Node T
  drop_sender_of id local broadcast c n =
      let n' = record n {
        channels = forget_sender (some c) n.channels;
        senders = unregister (id, local) n.senders;
      } in
      if broadcast then tell_wired (some (wired_drop id local false)) n' else n'

  -- One event of `Unwired::helper_task`.
  pub helper_step : UnwiredEvent → Node T → Node T
  unfolding drop_sender_of
  helper_step (unwired_message id local message) n = elim (lookup (id, local) n.senders) [
    | none ↦ n
    | some c ↦ record n { channels = update n.channels c (push message (n.channels c)) }
  ]
  helper_step (register_stream id local tx) n = record n {
    channels = forget_sender (lookup (id, local) n.senders) n.channels;
    senders = enter (id, local) tx n.senders;
  }
  helper_step (unwired_drop id local broadcast) n = elim (lookup (id, local) n.senders) [
    | none ↦ n
    | some c ↦ drop_sender_of id local broadcast c n
  ]

  pub run_helper : Node T → Node T
  unfolding helper_step
  run_helper n = elim n.helper_inbox [
    | [] ↦ n
    | e ∷ es ↦
        let n' = record n { helper_inbox = es } in
        elim e [ none ↦ record n' { helper_open = false } | some x ↦ helper_step x n' ]
  ]

  -- One event of `Unwired::run`.
  pub receive : WiringEvent T → Node T → Node T
  receive (wiring_event e) n = record n { handled = n.handled ++ (e ∷ []) }
  receive (wiring_message id local message) n =
      tell_helper (some (unwired_message id local message)) n
  receive (wiring_drop id local) n = tell_helper (some (unwired_drop id local true)) n
