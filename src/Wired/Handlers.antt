-- ===== src/Wired/Handlers.antt =====
-- wiring/src/core/wired.rs: the implementations of `HandleEvent`. A handler takes the event and its state, and gives the
-- error, if there is one, and the state after it. `EventChannel` is tokio's unbounded channel of events.
use wiring.Base.{Option, none, some, List, [], ◌∷◌, ◌++◌, Bool, if◌then◌else◌}

pub record EventChannel (E : Type 0) : Type 0 where
  pub sent : List E
  pub receiver_held : Bool

abbrev pub HandleEvent : Type 0 → Type 0 → Type 0 → Type 0
HandleEvent E Error S = E → S → Option Error × S

module _ {E Error S : Type 0} where
  -- Of an Option: without a handler the event is dropped.
  unfoldable pub option_handle_event : HandleEvent E Error S → HandleEvent E Error (Option S)
  option_handle_event h e none = (none, none)
  option_handle_event h e (some s) = let r = h e s in (r.0, some r.1)

  -- `self.handle_event.handle_event(event).await.ok()`, one event after the other.
  unfoldable pub handle_events : HandleEvent E Error S → List E → S → S
  handle_events h [] s = s
  handle_events h (e ∷ es) s = handle_events h es (h e s).1

unfoldable pub unit_handle_event : {Error : Type 0} → HandleEvent (Unit {0}) Error (Unit {0})
unit_handle_event e s = (none, s)

-- `UnboundedSender::send`: the event comes back in the error when the receiver is gone.
unfoldable pub sender_handle_event : {E : Type 0} → HandleEvent E E (EventChannel E)
sender_handle_event e c =
    if c.receiver_held then (none, record c { sent = c.sent ++ (e ∷ []) }) else (some e, c)
