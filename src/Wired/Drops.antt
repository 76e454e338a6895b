-- ===== src/Wired/Drops.antt =====
-- wiring/src/core/wired.rs: how a stream of `Wired` ends, by a drop here or by one that comes over the wire.
use wiring.Base.{
  ℕ, ◌≡◌, refl, ap, ◌∙◌, inl, inr, Bool, true, false, none, some, [], ◌∷◌, Option-cases,
}
use wiring.Wired.{
  forget_sender, wired_step, Node, wired_drop, drop_stream, run_helper, run_wired, receive,
  helper_step, wiring_drop, drop_sender_of, forget_receiver, idle, unwired_drop,
}
use wiring.Wired.Streams.{lookup, lookup-unregister_same, unregister}

module _ {T : Type 0} where
  drop_stream-forgets :
      (wires : Bool) (id : ℕ) (l b : Bool) (c : ℕ) (n : Node T)
      → lookup (id, l) (drop_stream wires id l b c n).streams ≡ none
  unfolding drop_stream
  drop_stream-forgets wires id l true c n = lookup-unregister_same (id, l) n.streams
  drop_stream-forgets wires id l false c n = lookup-unregister_same (id, l) n.streams

  -- After a drop the table has no entry.
  drop-forgets :
      (wires : Bool) (id : ℕ) (l b : Bool) (n : Node T)
      → lookup (id, l) (wired_step wires (wired_drop id l b) n).streams ≡ none
  unfolding wired_step
  drop-forgets wires id l b n = elim (Option-cases (lookup (id, l) n.streams)) [
    | inl e ↦ rw (wired_step, e) e
    | inr c ↦ rw (wired_step, c.1) (drop_stream-forgets wires id l b c.0 n)
  ]

  no_entry :
      (wires : Bool) (id : ℕ) (l b : Bool) (n : Node T)
      → lookup (id, l) n.streams ≡ none
      → wired_step wires (wired_drop id l b) n ≡ n
  unfolding wired_step
  no_entry wires id l b n e = rw (wired_step, e) refl

  -- A second drop of the same stream changes nothing and writes nothing, whether or not either of
  -- the two goes to the other end and whether or not the writes succeed.
  pub drop_once :
      (wires wires' : Bool) (id : ℕ) (l b b' : Bool) (n : Node T)
      → wired_step wires' (wired_drop id l b') (wired_step wires (wired_drop id l b) n)
        ≡ wired_step wires (wired_drop id l b) n
  drop_once wires wires' id l b b' n = no_entry wires' id l b' _ (drop-forgets wires id l b n)

  module _ (id : ℕ) (l : Bool) (c d : ℕ) (n : Node T) where
    -- What the drop from the wire does: the helper, the task of `Wired`, and the helper again each take one event.
    abbrev pub after_drop : Bool → Node T
    after_drop wires =
        run_helper (run_wired wires (run_helper (receive (wiring_drop id l) (idle n))))

    abbrev pub dropped : Node T
    dropped = record (idle n) {
      channels = forget_receiver (some c) (forget_sender (some d) n.channels);
      streams = unregister (id, l) n.streams;
      senders = unregister (id, l) n.senders;
    }

    helper_drops :
        lookup (id, l) n.senders ≡ some d
        → run_helper (receive (wiring_drop id l) (idle n)) ≡ record (idle n) {
          channels = forget_sender (some d) n.channels;
          senders = unregister (id, l) n.senders;
          inbox = some (wired_drop id l false) ∷ [];
        }
    unfolding run_helper receive helper_step drop_sender_of
    helper_drops e = rw (run_helper, receive, helper_step, e) refl

    wired_drops :
        (wires : Bool) (m : Node T)
        → lookup (id, l) m.streams ≡ some c
        → m.inbox ≡ some (wired_drop id l false) ∷ []
        → m.helper_inbox ≡ []
        → m.helper_open ≡ true
        → run_wired wires m ≡ record m {
          channels = forget_receiver (some c) m.channels;
          streams = unregister (id, l) m.streams;
          inbox = [];
          helper_inbox = some (unwired_drop id l false) ∷ [];
        }
    unfolding run_wired wired_step drop_stream
    wired_drops wires m e i h o = rw (run_wired, i, wired_step, e, drop_stream, o, h) refl

    helper_again :
        (m : Node T)
        → lookup (id, l) m.senders ≡ none
        → m.helper_inbox ≡ some (unwired_drop id l false) ∷ []
        → run_helper m ≡ record m { helper_inbox = [] }
    unfolding run_helper helper_step
    helper_again m e i = rw (run_helper, i, helper_step, e) refl

    -- A drop that comes over the wire for a stream in both tables, at an end with no event that
    -- waits, leaves the end with both entries gone, both channels' ends released and no event that
    -- waits, and writes nothing: the helper, the task of Wired and the helper again each take one
    -- event.
    pub remote_drop :
        (wires : Bool)
        → lookup (id, l) n.streams ≡ some c
        → lookup (id, l) n.senders ≡ some d
        → after_drop wires ≡ dropped
    remote_drop wires e e' =
        let m : Node T = record (idle n) {
          channels = forget_sender (some d) n.channels;
          senders = unregister (id, l) n.senders;
          inbox = some (wired_drop id l false) ∷ [];
        } in
        let m' : Node T = record dropped { helper_inbox = some (unwired_drop id l false) ∷ [] } in
        ap (λ (k : Node T). run_helper (run_wired wires k)) (helper_drops e')
        ∙ ap run_helper (wired_drops wires m e refl refl refl)
        ∙ helper_again m' (lookup-unregister_same (id, l) n.senders) refl
