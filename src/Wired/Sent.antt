-- ===== src/Wired/Sent.antt =====
-- wiring/src/core/wired.rs: events from `WiredHandle::send` to the handler at the other end.
use wiring.Base.{
  List, Option, ◌≡◌, map, [], ◌∷◌, true, ◌++◌, none, length, some, sym, append-nil, ap, ◌∙◌,
  append_assoc, refl, Option-cases, Bool, if◌then◌else◌, inl, inr,
}
use wiring.Wired.{
  run_wired, wired_step, receive, wired_event, wiring_event, Node, WiredEvent, WiringEvent,
}
use wiring.Wired.Delivery.{rounds, receive_all}
use wiring.Wired.Halves.{handle_send}
use wiring.Wired.Handlers.{EventChannel, handle_events, option_handle_event, sender_handle_event}
use wiring.Wired.Server.{shutdown, WiredHandle}
use wiring.Wired.Shutdown.{told}

module _ {T : Type 0} where
  -- `send` of a handle, once for each event.
  abbrev pub send_events : List T → Node T → Node T
  send_events [] n = n
  send_events (e ∷ es) n = send_events es (handle_send (some e) n).1

  abbrev waiting : List T → List (Option (WiredEvent T))
  waiting [] = []
  waiting (e ∷ es) = some (wired_event e) ∷ waiting es

  sent-waits :
      (es : List T) (n : Node T)
      → n.inbox_open ≡ true
      → send_events es n ≡ record n { inbox = n.inbox ++ waiting es }
  unfolding handle_send
  sent-waits [] n o = rw (append-nil n.inbox) refl
  sent-waits (e ∷ es) n o =
      let n' = record n { inbox = n.inbox ++ (some (wired_event e) ∷ []) } in
      let s : (handle_send (some e) n).1 ≡ n' = rw (handle_send, o) refl in
      ap (send_events es) s
      ∙ sent-waits es n' o
      ∙ ap (λ (i : List (Option (WiredEvent T))). record n { inbox = i })
          (append_assoc n.inbox (some (wired_event e) ∷ []) (waiting es))

  forwards_events :
      (es : List T) (n : Node T)
      → n.inbox ≡ waiting es ++ (none ∷ [])
      → (run_wired true (rounds (run_wired true) (length es) n)).written
        ≡ n.written ++ map wiring_event es
  unfolding run_wired wired_step
  forwards_events [] n i = rw (i, append-nil n.written) refl
  forwards_events (e ∷ es) n i =
      let n' : Node T = record n {
        inbox = waiting es ++ (none ∷ []);
        written = n.written ++ (wiring_event e ∷ []);
      } in
      let s : run_wired true n ≡ n' = rw (run_wired, i, wired_step) refl in
      ap (λ (k : Node T). (run_wired true (rounds (run_wired true) (length es) k)).written) s
      ∙ forwards_events es n' refl
      ∙ append_assoc n.written (wiring_event e ∷ []) (map wiring_event es)

  receive-handles :
      (es : List T) (n : Node T) → (receive_all (map wiring_event es) n).handled ≡ n.handled ++ es
  unfolding receive
  receive-handles [] n = sym (append-nil n.handled)
  receive-handles (e ∷ es) n =
      receive-handles es (record n { handled = n.handled ++ (e ∷ []) })
      ∙ append_assoc n.handled (e ∷ []) es

  handler-sends :
      (es : List T) (c : EventChannel T)
      → c.receiver_held ≡ true
      → handle_events (option_handle_event sender_handle_event) es (some c)
        ≡ some (record c { sent = c.sent ++ es })
  unfolding handle_events option_handle_event sender_handle_event
  handler-sends [] c h = rw (append-nil c.sent) refl
  handler-sends (e ∷ es) c h =
      let c' = record c { sent = c.sent ++ (e ∷ []) } in
      let reply : Bool → Option T × EventChannel T = λ b. if b then (none, c') else (some e, c) in
      ap
        (λ (b : Bool).
          handle_events (option_handle_event sender_handle_event) es (some (reply b).1))
        h
      ∙ handler-sends es c' h
      ∙ ap (λ (l : List T). some (record c { sent = l })) (append_assoc c.sent (e ∷ []) es)

  shutdown-written :
      (h : WiredHandle) (n : Node T) → n.inbox_open ≡ true → (shutdown h n).2.written ≡ n.written
  unfolding shutdown handle_send
  shutdown-written h n o = elim (Option-cases h.drophandles) [
    | inl e ↦ rw (e, o) refl
    | inr e ↦ rw (e.1, o) refl
  ]

  -- Events that are sent by a handle before it is shut down are all written by Wired::run before it
  -- ends, and reach in their order the channel of an UnboundedSender, in an Option, that handles the
  -- events at the other end. The inbox is open and empty at first, the writes succeed, nothing was
  -- written or handled before, and the channel has its receiver.
  pub events-arrive :
      (h : WiredHandle) (es : List T) (a b : Node T) (c : EventChannel T)
      → a.inbox ≡ []
      → a.inbox_open ≡ true
      → a.written ≡ []
      → b.handled ≡ []
      → c.receiver_held ≡ true
      → let stopped = (shutdown h (send_events es a)).2 in
        let wire = (run_wired true (rounds (run_wired true) (length es) stopped)).written in
        handle_events
          (option_handle_event sender_handle_event)
          (receive_all wire b).handled
          (some c)
        ≡ some (record c { sent = c.sent ++ es })
  events-arrive h es a b c i o w d r =
      let n = send_events es a in
      let all : n ≡ record a { inbox = a.inbox ++ waiting es } = sent-waits es a o in
      let is_open : n.inbox_open ≡ true = ap Node.inbox_open all ∙ o in
      let inbox : (shutdown h n).2.inbox ≡ waiting es ++ (none ∷ []) =
        told h n is_open
        ∙ ap (λ (l : List (Option (WiredEvent T))). l ++ (none ∷ []))
            (ap Node.inbox all ∙ ap (λ (l : List (Option (WiredEvent T))). l ++ waiting es) i) in
      let before : (shutdown h n).2.written ≡ [] =
        shutdown-written h n is_open ∙ ap Node.written all ∙ w in
      let wire =
        forwards_events es (shutdown h n).2 inbox
        ∙ ap (λ (l : List (WiringEvent T)). l ++ map wiring_event es) before in
      let handled =
        λ (l : List T). handle_events (option_handle_event sender_handle_event) l (some c) in
      ap (λ (l : List (WiringEvent T)). handled (receive_all l b).handled) wire
      ∙ ap handled (receive-handles es b ∙ ap (λ (l : List T). l ++ es) d)
      ∙ handler-sends es c r
