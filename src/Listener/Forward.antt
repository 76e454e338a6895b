-- ===== src/Listener/Forward.antt =====
-- wiring/src/core/listener.rs: wires that a remote sends to a wire that was handed out before.
use wiring.Base.{
  ℕ, Bool, true, false, List, [], ◌∷◌, none, some, ◌==◌, ◌≡◌, arith, Option, refl, ◌∙◌,
  Option-cases, inl, inr, permission_denied, not_found, ErrorKind, ap, ◌<◌,
}
use wiring.Listener.{
  register, watch, outgoing, incoming, handle, forward, new_wire, signal_wire_drop, WireInfo,
  Chances, Listener, free_id, get, insert, Effect, incoming_wire, WireStream, outgoing_wire,
  reply_error, reply_wire, forwarded, drop_wire, reply_forwarded, remove, take_one, Wires, unwatch,
  watches,
}
use wiring.Listener.Table.{get-remove_same}

pub self_eq : (n : ℕ) → (n == n) ≡ true
self_eq n = ground arith

module _ {Stream Info : Type 0} where
  pub incoming_handled :
      (stream : Stream) (remote : Option (WireInfo Info)) (target : Option (ℕ × ℕ)) (reply : Bool)
      (c : Chances) (n : ℕ) (s : Listener Info)
      → free_id c.wire_ids s.wires ≡ some n
      → handle (incoming_wire stream remote target reply) c s
        ≡ some (incoming stream remote target reply c n s)
  unfolding handle
  incoming_handled stream remote target reply c n s draw =
      ap
        (λ (o : Option ℕ). elim o [
          | none ↦ none
          | some id ↦ some (incoming stream remote target reply c id s)
        ])
        draw

  pub outgoing_handled :
      (stream : Stream) (target : Option (ℕ × ℕ)) (c : Chances) (n : ℕ) (s : Listener Info)
      → free_id c.wire_ids s.wires ≡ some n
      → c.info_error ≡ none
      → c.forward_error ≡ none
      → handle (outgoing_wire stream target) c s
        ≡ some (
          watch n (register n c.access_key s),
          reply_wire (new_wire stream n c.access_key none s) ∷ [],
        )
  unfolding handle outgoing
  outgoing_handled stream target c n s draw e1 e2 =
      ap (λ (o : Option ℕ). elim o [ none ↦ none | some id ↦ some (outgoing stream c id s) ]) draw
      ∙ rw (e1, e2) refl

  pub forward_found :
      (target : ℕ × ℕ) (wire : WireStream Stream Info) (c : Chances) (ws : Wires) (ch : ℕ)
      → get target.0 ws ≡ some (target.1, ch)
      → c.receives ch ≡ true
      → forward target true wire c ws ≡ forwarded ch wire ∷ (reply_forwarded ∷ [])
  unfolding forward
  forward_found target wire c ws ch found alive = rw (found, forward, self_eq target.1, alive) refl

  forward_absent :
      (target : ℕ × ℕ) (wire : WireStream Stream Info) (c : Chances) (ws : Wires)
      → get target.0 ws ≡ none
      → forward target true wire c ws ≡ reply_error not_found ∷ []
  unfolding forward
  forward_absent target wire c ws found = rw (found, forward) refl

  forward_wrong :
      (target : ℕ × ℕ) (wire : WireStream Stream Info) (c : Chances) (ws : Wires) (e : ℕ × ℕ)
      → get target.0 ws ≡ some e
      → (e.0 == target.1) ≡ false
      → forward target true wire c ws ≡ reply_error permission_denied ∷ []
  unfolding forward
  forward_wrong target wire c ws e found wrong = rw (found, forward, wrong) refl

  -- After an OutgoingWire whose two writes succeed, an Incomingwire that carries its wire id and
  -- access key is sent on to the channel of that wire, if its receiver is there, the reply is
  -- Ok(None), and the table stays as it was.
  pub forward_after_outgoing :
      (stream stream' : Stream) (target : Option (ℕ × ℕ)) (remote : Option (WireInfo Info))
      (c c' : Chances) (n n' : ℕ) (s : Listener Info)
      → c.info_error ≡ none
      → c.forward_error ≡ none
      → free_id c.wire_ids s.wires ≡ some n
      → free_id c'.wire_ids (insert n (c.access_key, s.next_channel) s.wires) ≡ some n'
      → c'.receives s.next_channel ≡ true
      → (s1 s2 : Listener Info) × (wire : WireStream Stream Info) × (handle
            (outgoing_wire stream target)
            c
            s
          ≡ some (s1, reply_wire (new_wire stream n c.access_key none s) ∷ []))
        × (handle (incoming_wire stream' remote (some (n, c.access_key)) true) c' s1
            ≡ some (s2, forwarded s.next_channel wire ∷ (reply_forwarded ∷ [])))
        × (s2.wires ≡ s1.wires)
  unfolding handle outgoing incoming forward register watch
  forward_after_outgoing stream stream' target remote c c' n n' s e1 e2 draw draw' alive =
      let s1 = watch n (register n c.access_key s) in
      (
        s1,
        watch n' s1,
        new_wire stream' n' c'.access_key remote s1,
        outgoing_handled stream target c n s draw e1 e2,
        incoming_handled stream' remote (some (n, c.access_key)) true c' n' s1 draw'
            ∙ ap (λ (es : List (Effect Stream Info)). some (watch n' s1, es))
                (forward_found (n, c.access_key) (new_wire stream' n' c'.access_key remote s1) c'
                  s1.wires s.next_channel (rw (self_eq n) refl) alive),
        refl,
      )

  -- An Incomingwire with a reply handle that carries a wire id that is not in the table, or another
  -- access key than the table has for it, is answered with an error and sent to no channel, and the
  -- table stays as it was.
  pub forward_refused :
      (stream : Stream) (remote : Option (WireInfo Info)) (n key n' : ℕ) (c : Chances)
      (s : Listener Info)
      → free_id c.wire_ids s.wires ≡ some n'
      → ((e : ℕ × ℕ) → get n s.wires ≡ some e → (e.0 == key) ≡ false)
      → (s' : Listener Info) × (k : ErrorKind) × (handle
            (incoming_wire stream remote (some (n, key)) true)
            c
            s
          ≡ some (s', reply_error k ∷ []))
        × (s'.wires ≡ s.wires)
  unfolding handle incoming forward watch
  forward_refused stream remote n key n' c s draw wrong = elim (Option-cases (get n s.wires)) [
    | inl e ↦ (
      watch n' s,
      not_found,
      incoming_handled stream remote (some (n, key)) true c n' s draw
          ∙ ap (λ (es : List (Effect Stream Info)). some (watch n' s, es))
              (forward_absent (n, key) (new_wire stream n' c.access_key remote s) c s.wires e),
      refl,
    )
    | inr e ↦ (
      watch n' s,
      permission_denied,
      incoming_handled stream remote (some (n, key)) true c n' s draw
          ∙ ap (λ (es : List (Effect Stream Info)). some (watch n' s, es))
              (forward_wrong (n, key) (new_wire stream n' c.access_key remote s) c s.wires e.0 e.1
                (wrong e.0 e.1)),
      refl,
    )
  ]

  -- A forwarded wire draws an id that is not entered in the table, and yet a task waits for its
  -- channel. If the next outgoing wire draws the same id, with a channel of its own, the DropWire of
  -- that task takes the entry of the outgoing wire away.
  pub forwarded_drop_removes :
      (stream stream' : Stream) (remote : Option (WireInfo Info)) (target target' : Option (ℕ × ℕ))
      (reply : Bool) (t : ℕ × ℕ) (c c' c'' : Chances) (n : ℕ) (s : Listener Info)
      → free_id c.wire_ids s.wires ≡ some n
      → free_id c'.wire_ids s.wires ≡ some n
      → c'.info_error ≡ none
      → c'.forward_error ≡ none
      → (s1 s2 s3 : Listener Info) × (effects : List (Effect Stream Info)) × (wire : WireStream
          Stream Info)
        × (handle (incoming_wire stream remote (some t) reply) c s ≡ some (s1, effects))
        × (get n s1.wires ≡ get n s.wires)
        × (s1.watching ≡ (s.next_channel, n) ∷ s.watching)
        × (s.next_channel < s1.next_channel)
        × (handle (outgoing_wire stream' target') c' s1 ≡ some (s2, reply_wire wire ∷ []))
        × (get n s2.wires ≡ some (c'.access_key, s1.next_channel))
        × (handle {Stream = Stream} (drop_wire n) c'' (signal_wire_drop s.next_channel n s2)
            ≡ some (s3, []))
        × (get n s3.wires ≡ none)
  unfolding handle outgoing incoming forward register watch signal_wire_drop
  forwarded_drop_removes stream stream' remote target target' reply t c c' c'' n s draw draw' e1
        e2 =
      let s1 = watch n s in
      let s2 = watch n (register n c'.access_key s1) in
      let signalled = record s2 {
        watching = unwatch s.next_channel n s2.watching;
        dropping = n ∷ s2.dropping;
      } in
      let watched : watches s.next_channel n s2.watching ≡ true = ground arith in
      let ended : signal_wire_drop s.next_channel n s2 ≡ signalled =
        rw (signal_wire_drop, watched) refl in
      (
        s1,
        s2,
        record signalled { wires = remove n s2.wires; dropping = take_one n signalled.dropping },
        (incoming stream remote (some t) reply c n s).1,
        new_wire stream' n c'.access_key none s1,
        incoming_handled stream remote (some t) reply c n s draw,
        refl,
        refl,
        omega arith,
        outgoing_handled stream' target' c' n s1 draw' e1 e2,
        rw (self_eq n) refl,
        ap (λ (k : Listener Info). handle {Stream = Stream} (drop_wire n) c'' k) ended,
        get-remove_same n s2.wires,
      )
