-- ===== src/Wired/Delivery.antt =====
-- wiring/src/core/wired.rs: a message goes from the write half of a stream to the queue of the read half at the other
-- end, whole and in order.
use wiring.Base.{
  ℕ, zero, suc, ◌≡◌, refl, sym, ap, ◌∙◌, Bool, true, not, Option, some, List, [], ◌∷◌, ◌++◌, map,
  append-nil, append_assoc, length,
}
use wiring.Wired.{
  Node, WiringEvent, run_wired, WiredEvent, wired_step, receive, wired_message, wiring_message,
  send_message, UnwiredEvent, run_helper, unwired_message, helper_step,
}
use wiring.Wired.Channels.{update, Channel, update_same, push}
use wiring.Wired.Streams.{lookup}

-- The events of the helper for the messages that came for the other end of `(id, l)`.
abbrev pub arriving : ℕ → Bool → List (List ℕ) → List (Option UnwiredEvent)
arriving id l [] = []
arriving id l (m ∷ ms) = some (unwired_message id (not l) m) ∷ arriving id l ms

module _ {T : Type 0} where
  -- `count` rounds of a task.
  abbrev pub rounds : (Node T → Node T) → ℕ → Node T → Node T
  rounds step zero n = n
  rounds step (suc k) n = rounds step k (step n)

  abbrev pub receive_all : List (WiringEvent T) → Node T → Node T
  receive_all [] n = n
  receive_all (e ∷ es) n = receive_all es (receive e n)

  module _ (id : ℕ) (l : Bool) where
    abbrev pub messages_of : List (List ℕ) → List (WiringEvent T)
    messages_of ms = map (wiring_message id (not l)) ms

    abbrev pub flushed : List (List ℕ) → List (Option (WiredEvent T))
    flushed [] = []
    flushed (m ∷ ms) = some (wired_message id l) ∷ flushed ms

  module _ (id : ℕ) (l : Bool) (c : ℕ) where
    one_message :
        (m : List ℕ) (ms : List (List ℕ)) (n : Node T)
        → lookup (id, l) n.streams ≡ some c
        → (n.channels c).messages ≡ m ∷ ms
        → n.inbox ≡ flushed id l (m ∷ ms)
        → run_wired true n ≡ record n {
          channels = update n.channels c (record (n.channels c) { messages = ms });
          inbox = flushed id l ms;
          written = n.written ++ (wiring_message id (not l) m ∷ []);
        }
    unfolding run_wired wired_step send_message
    one_message m ms n e e' i = rw (run_wired, i, wired_step, e, send_message, e') refl

    pub forwards_in_order :
        (ms : List (List ℕ)) (n : Node T)
        → lookup (id, l) n.streams ≡ some c
        → (n.channels c).messages ≡ ms
        → n.inbox ≡ flushed id l ms
        → (rounds (run_wired true) (length ms) n).written ≡ n.written ++ messages_of id l ms
    forwards_in_order [] n e e' i = sym (append-nil n.written)
    forwards_in_order (m ∷ ms) n e e' i =
        let n' : Node T = record n {
          channels = update n.channels c (record (n.channels c) { messages = ms });
          inbox = flushed id l ms;
          written = n.written ++ (wiring_message id (not l) m ∷ []);
        } in
        ap (λ (k : Node T). (rounds (run_wired true) (length ms) k).written)
          (one_message m ms n e e' i)
        ∙ forwards_in_order ms n' e (ap Channel.messages (update_same n.channels c _)) refl
        ∙ append_assoc n.written (wiring_message id (not l) m ∷ []) (messages_of id l ms)

  module _ (id : ℕ) (l : Bool) (d : ℕ) where
    receive-queues :
        (ms : List (List ℕ)) (n : Node T)
        → n.helper_open ≡ true
        → receive_all (messages_of id l ms) n
          ≡ record n { helper_inbox = n.helper_inbox ++ arriving id l ms }
    unfolding receive
    receive-queues [] n o = rw (append-nil n.helper_inbox) refl
    receive-queues (m ∷ ms) n o =
        let e : Option UnwiredEvent = some (unwired_message id (not l) m) in
        let n' : Node T = record n { helper_inbox = n.helper_inbox ++ (e ∷ []) } in
        let s : receive (wiring_message id (not l) m) n ≡ n' = rw (receive, o) refl in
        ap (receive_all (messages_of id l ms)) s
        ∙ receive-queues ms n' o
        ∙ ap (λ (es : List (Option UnwiredEvent)). record n { helper_inbox = es })
            (append_assoc n.helper_inbox (e ∷ []) (arriving id l ms))

    one_push :
        (m : List ℕ) (ms : List (List ℕ)) (n : Node T)
        → lookup (id, not l) n.senders ≡ some d
        → (n.channels d).has_receiver ≡ true
        → n.helper_inbox ≡ arriving id l (m ∷ ms)
        → run_helper n ≡ record n {
          channels =
              update n.channels d
                (record (n.channels d) { messages = (n.channels d).messages ++ (m ∷ []) });
          helper_inbox = arriving id l ms;
        }
    unfolding run_helper helper_step
    one_push m ms n e r i = rw (run_helper, i, helper_step, e, push, r) refl

    pub pushes_in_order :
        (ms : List (List ℕ)) (n : Node T)
        → lookup (id, not l) n.senders ≡ some d
        → (n.channels d).has_receiver ≡ true
        → n.helper_inbox ≡ arriving id l ms
        → ((rounds run_helper (length ms) n).channels d).messages ≡ (n.channels d).messages ++ ms
    pushes_in_order [] n e r i = sym (append-nil _)
    pushes_in_order (m ∷ ms) n e r i =
        let ch : Channel = record (n.channels d) {
          messages = (n.channels d).messages ++ (m ∷ []);
        } in
        let n' : Node T = record n {
          channels = update n.channels d ch;
          helper_inbox = arriving id l ms;
        } in
        let u : update n.channels d ch d ≡ ch = update_same n.channels d ch in
        ap (λ (k : Node T). ((rounds run_helper (length ms) k).channels d).messages)
          (one_push m ms n e r i)
        ∙ pushes_in_order ms n' e (ap Channel.has_receiver u ∙ r) refl
        ∙ ap (λ (q : Channel). q.messages ++ ms) u
        ∙ append_assoc (n.channels d).messages (m ∷ []) ms

    -- If the inbox of Wired asks for as many messages of a stream as wait in its channel and nothing
    -- has been written before, and every write to the wire succeeds, then the other end, where the
    -- opposite stream has a sender with a receiver and the helper's inbox is open and empty, puts
    -- exactly these messages in this order behind those of that channel.
    pub messages_arrive :
        (c : ℕ) (ms : List (List ℕ)) (a b : Node T)
        → lookup (id, l) a.streams ≡ some c
        → (a.channels c).messages ≡ ms
        → a.inbox ≡ flushed id l ms
        → a.written ≡ []
        → lookup (id, not l) b.senders ≡ some d
        → (b.channels d).has_receiver ≡ true
        → b.helper_inbox ≡ []
        → b.helper_open ≡ true
        → let sent = (rounds (run_wired true) (length ms) a).written in
          ((rounds run_helper (length ms) (receive_all sent b)).channels d).messages
          ≡ (b.channels d).messages ++ ms
    messages_arrive c ms a b e e' i w f r i' o =
        let sent : (rounds (run_wired true) (length ms) a).written ≡ messages_of id l ms =
          forwards_in_order id l c ms a e e' i
          ∙ ap (λ (es : List (WiringEvent T)). es ++ messages_of id l ms) w in
        let b' : Node T = record b { helper_inbox = arriving id l ms } in
        ap
          (λ (es : List (WiringEvent T)).
            ((rounds run_helper (length ms) (receive_all es b)).channels d).messages)
          sent
        ∙ ap (λ (k : Node T). ((rounds run_helper (length ms) k).channels d).messages)
            (receive-queues ms b o
              ∙ ap
                  (λ (es : List (Option UnwiredEvent)). record b {
                    helper_inbox = es ++ arriving id l ms;
                  })
                  i')
        ∙ pushes_in_order ms b' f r refl
