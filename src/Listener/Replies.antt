-- ===== src/Listener/Replies.antt =====
-- wiring/src/core/listener.rs: what an event that succeeds leaves in the table, and its reply.
use wiring.Base.{ℕ, ◌≡◌, some, Option, true, none, ◌∷◌, [], ◌∙◌, ap, List, refl}
use wiring.Listener.{
  register, watch, incoming, handle, accept, new_wire, WireInfo, Chances, Listener, free_id, get,
  Effect, incoming_wire, outgoing_wire, reply_wire, forwarded, reply_forwarded,
}
use wiring.Listener.Forward.{self_eq, incoming_handled, outgoing_handled, forward_found}

module _ {Stream Info : Type 0} (stream : Stream) (c : Chances) (n : ℕ) (s : Listener Info)
    (draw : free_id c.wire_ids s.wires ≡ some n) where
  -- The listener goes on with the new wire in its table.
  abbrev pub Entered : Listener Info → Type 0
  Entered s' = get n s'.wires ≡ some (c.access_key, s.next_channel)

  pub incoming_accepted :
      (remote : Option (WireInfo Info))
      → (s' : Listener Info) × (handle (incoming_wire stream remote none true) c s
          ≡ some (s', reply_wire (new_wire stream n c.access_key remote s) ∷ []))
        × Entered s'
  unfolding incoming accept register watch
  incoming_accepted remote = (
    watch n (register n c.access_key s),
    incoming_handled stream remote none true c n s draw,
    rw (self_eq n) refl,
  )

  pub outgoing_accepted :
      (target : Option (ℕ × ℕ))
      → c.info_error ≡ none
      → c.forward_error ≡ none
      → (s' : Listener Info) × (handle (outgoing_wire stream target) c s
          ≡ some (s', reply_wire (new_wire stream n c.access_key none s) ∷ []))
        × Entered s'
  unfolding register watch
  outgoing_accepted target e e' = (
    watch n (register n c.access_key s),
    outgoing_handled stream target c n s draw e e',
    rw (self_eq n) refl,
  )

  pub incoming_forwarded :
      (remote : Option (WireInfo Info)) (target : ℕ × ℕ) (ch : ℕ)
      → get target.0 s.wires ≡ some (target.1, ch)
      → c.receives ch ≡ true
      → (s' : Listener Info) × (handle (incoming_wire stream remote (some target) true) c s
          ≡ some
              (s', forwarded ch (new_wire stream n c.access_key remote s) ∷ (reply_forwarded ∷ [])))
        × (s'.wires ≡ s.wires)
  unfolding incoming watch
  incoming_forwarded remote target ch found alive = (
    watch n s,
    incoming_handled stream remote (some target) true c n s draw
        ∙ ap (λ (es : List (Effect Stream Info)). some (watch n s, es))
            (forward_found target (new_wire stream n c.access_key remote s) c s.wires ch found
              alive),
    refl,
  )
