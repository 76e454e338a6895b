-- ===== src/Wired/Closing.antt =====
-- wiring/src/core/wired.rs: a stream that is flushed and then dropped loses nothing.
use wiring.Wired.Channels.{Channel, update, update_same}
use wiring.Wired.Delivery.{flushed, rounds, messages_of}
use wiring.Wired.Streams.{lookup}
use wiring.Base.{
  ℕ, ◌≡◌, refl, sym, ap, ◌∙◌, Bool, true, not, Option, some, List, [], ◌∷◌, ◌++◌, append-nil,
  append_assoc, length,
}
use wiring.Wired.{
  run_wired, wired_step, send_message, drop_stream, WiredEvent, Node, wired_drop, wiring_drop,
  WiringEvent, wiring_message,
}

module _ {T : Type 0} (id : ℕ) (l : Bool) (c : ℕ) where
  -- The rounds for the messages leave what is behind them in the inbox.
  forwards_before :
      (ms : List (List ℕ)) (later : List (Option (WiredEvent T))) (n : Node T)
      → lookup (id, l) n.streams ≡ some c
      → (n.channels c).messages ≡ ms
      → n.inbox ≡ flushed id l ms ++ later
      → (cs : ℕ → Channel) × (rounds (run_wired true) (length ms) n
          ≡ record n { channels = cs; inbox = later; written = n.written ++ messages_of id l ms })
  unfolding run_wired wired_step send_message
  forwards_before [] later n e e' i = (
    n.channels,
    ap (λ (es : List (Option (WiredEvent T))). record n { inbox = es }) i
        ∙ ap (λ (ws : List (WiringEvent T)). record n { inbox = later; written = ws })
            (sym (append-nil n.written)),
  )
  forwards_before (m ∷ ms) later n e e' i =
      let n' : Node T = record n {
        channels = update n.channels c (record (n.channels c) { messages = ms });
        inbox = flushed id l ms ++ later;
        written = n.written ++ (wiring_message id (not l) m ∷ []);
      } in
      let first : run_wired true n ≡ n' = rw (run_wired, i, wired_step, e, send_message, e') refl in
      let (cs, rest) =
        forwards_before ms later n' e (ap Channel.messages (update_same n.channels c _)) refl in
      (
        cs,
        ap (rounds (run_wired true) (length ms)) first
            ∙ rest
            ∙ ap
                (λ (ws : List (WiringEvent T)). record n {
                  channels = cs;
                  inbox = later;
                  written = ws;
                })
                (append_assoc n.written (wiring_message id (not l) m ∷ []) (messages_of id l ms)),
      )

  last_drop :
      (n : Node T)
      → lookup (id, l) n.streams ≡ some c
      → n.inbox ≡ some (wired_drop id l true) ∷ []
      → (run_wired true n).written ≡ n.written ++ (wiring_drop id (not l) ∷ [])
  unfolding run_wired wired_step drop_stream
  last_drop n e i = rw (run_wired, i, wired_step, e) refl

  -- If the inbox of Wired asks for as many messages of a stream as wait in its channel and behind
  -- them for its drop, and every write to the wire succeeds, all the messages go to the other end in
  -- their order and the drop behind them.
  pub flushed_before_drop :
      (ms : List (List ℕ)) (n : Node T)
      → lookup (id, l) n.streams ≡ some c
      → (n.channels c).messages ≡ ms
      → n.inbox ≡ flushed id l ms ++ (some (wired_drop id l true) ∷ [])
      → (run_wired true (rounds (run_wired true) (length ms) n)).written
        ≡ (n.written ++ messages_of id l ms) ++ (wiring_drop id (not l) ∷ [])
  flushed_before_drop ms n e e' i =
      let (cs, run) = forwards_before ms (some (wired_drop id l true) ∷ []) n e e' i in
      ap (λ (k : Node T). (run_wired true k).written) run ∙ last_drop _ e refl
