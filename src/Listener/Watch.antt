-- ===== src/Listener/Watch.antt =====
-- wiring/src/core/listener.rs: the entries of the table and the tasks that drop them.
use wiring.Base.{
  ℕ, Bool, true, false, List, [], ◌∷◌, some, ◌==◌, ◌≡◌, arith, inl, inr, refl, subst, ◌&&◌, ◌||◌,
  ◌<◌, Option, Bool-cases, none, Option-cases, sym, ◌∙◌,
}
use wiring.Listener.{
  register, watch, Listener, get, handle, signal_wire_drop, take_one, outgoing, unwatch, incoming,
  remove, Chances, Effect, Event, accept, WireInfo, incoming_wire, free_id, outgoing_wire,
  drop_wire, shutdown, watches,
}
use wiring.Listener.Table.{get-insert_cases, get-remove_other, get-remove_same}

abbrev pub has : ℕ → List ℕ → Bool
has id [] = false
has id (n ∷ ns) = (n == id) || has id ns

-- Whoever has an entry is watched, or the message to drop it is on its way; and the entry's channel has been
-- handed out.
abbrev pub Kept : {Info : Type 0} → Listener Info → ℕ → ℕ × ℕ → Type 0
Kept s id e = ((watches e.1 id s.watching || has id s.dropping) ≡ true) × (e.1 < s.next_channel)

abbrev pub Watched : {Info : Type 0} → Listener Info → Type 0
Watched s = (id : ℕ) (e : ℕ × ℕ) → get id s.wires ≡ some e → Kept s id e

or_right : (a b c : Bool) → (b || c) ≡ true → ((a || b) || c) ≡ true
or_right true b c h = refl
or_right false b c h = h

or_true : (a : Bool) → (a || true) ≡ true
or_true true = refl
or_true false = refl

or_middle : (a b c : Bool) → (a || c) ≡ true → (a || (b || c)) ≡ true
or_middle true b c h = refl
or_middle false true c h = refl
or_middle false false c h = h

same_pair : (ch id : ℕ) (b c : Bool) → ((((ch == ch) && (id == id)) || b) || c) ≡ true
same_pair ch id b c =
    let h : (ch == ch) ≡ true = ground arith in
    let h' : (id == id) ≡ true = ground arith in rw (h, h') refl

module _ {Info : Type 0} where
  watch-Kept_old : (n id : ℕ) (e : ℕ × ℕ) (s : Listener Info) → Kept s id e → Kept (watch n s) id e
  unfolding watch
  watch-Kept_old n id e s h = (or_right _ (watches e.1 id s.watching) _ h.0, omega (arith, h.1))

  watch-Kept_new : (n key : ℕ) (s : Listener Info) → Kept (watch n s) n (key, s.next_channel)
  unfolding watch
  watch-Kept_new n key s = (same_pair s.next_channel n _ _, omega arith)

  watch-Watched : (n : ℕ) (s : Listener Info) → Watched s → Watched (watch n s)
  unfolding watch
  watch-Watched n s h id e found = watch-Kept_old n id e s (h id e found)

  registered : (n key : ℕ) (s : Listener Info) → Watched s → Watched (watch n (register n key s))
  unfolding watch register
  registered n key s h id e found =
      elim (get-insert_cases n id (key, s.next_channel) e s.wires found) [
        | inl p ↦
            subst (λ (e' : ℕ × ℕ). Kept (watch n s) id e') p.1
              (subst (λ (k : ℕ). Kept (watch n s) k (key, s.next_channel)) p.0
                (watch-Kept_new n key s))
        | inr old ↦ watch-Kept_old n id e s (h id e old)
      ]

has-take_one : (n id : ℕ) (ns : List ℕ) → (n == id) ≡ false → has id (take_one n ns) ≡ has id ns
has-take_one n id [] h = refl
has-take_one n id (m ∷ ns) h = elim (Bool-cases (m == n)) [
  | inl e ↦ let other : (m == id) ≡ false = ground arith in rw (e, other) refl
  | inr e ↦ rw (e, has-take_one n id ns h)
]

watches-unwatch :
    (ch n c id : ℕ) (ts : List (ℕ × ℕ))
    → ((ch == c) && (n == id)) ≡ false
    → watches c id (unwatch ch n ts) ≡ watches c id ts
watches-unwatch ch n c id [] h = refl
watches-unwatch ch n c id (t ∷ ts) h = elim (Bool-cases ((t.0 == ch) && (t.1 == n))) [
  | inl e ↦ let other : ((t.0 == c) && (t.1 == id)) ≡ false = ground arith in rw (e, other) refl
  | inr e ↦ rw (e, watches-unwatch ch n c id ts h)
]

module _ {Info : Type 0} where
  dropped-Watched :
      (n : ℕ) (s : Listener Info)
      → Watched s
      → Watched (record s { wires = remove n s.wires; dropping = take_one n s.dropping })
  dropped-Watched n s h id e found = elim (Bool-cases (n == id)) [
    | inl same ↦
        (let gone : get id (remove n s.wires) ≡ none =
            subst (λ (k : ℕ). get k (remove n s.wires) ≡ none) (let p : n ≡ id = ground arith in p)
              (get-remove_same n s.wires) in
          cc)
    | inr other ↦
        let old : get id s.wires ≡ some e = sym (get-remove_other n id s.wires other) ∙ found in
        (rw (has-take_one n id s.dropping other) (h id e old).0, (h id e old).1)
  ]

  signals-Watched :
      (ch n : ℕ) (s : Listener Info)
      → Watched s
      → Watched (record s { watching = unwatch ch n s.watching; dropping = n ∷ s.dropping })
  signals-Watched ch n s h id e found = elim (Bool-cases ((ch == e.1) && (n == id))) [
    | inl same ↦ (
      let now : (n == id) ≡ true = ground arith in
          rw now (or_true (watches e.1 id (unwatch ch n s.watching))),
      (h id e found).1,
    )
    | inr other ↦ (
      rw (watches-unwatch ch n e.1 id s.watching other)
          (or_middle (watches e.1 id s.watching) (n == id) (has id s.dropping) (h id e found).0),
      (h id e found).1,
    )
  ]

  -- A task that ends and sends its DropWire keeps the listener's invariant.
  pub signal_wire_drop-Watched :
      (ch n : ℕ) (s : Listener Info) → Watched s → Watched (signal_wire_drop ch n s)
  unfolding signal_wire_drop
  signal_wire_drop-Watched ch n s h = elim (Bool-cases (watches ch n s.watching)) [
    | inl e ↦ rw (signal_wire_drop, e) (signals-Watched ch n s h)
    | inr e ↦ rw (signal_wire_drop, e) h
  ]

module _ {Stream Info : Type 0} where
  outgoing-Watched :
      (stream : Stream) (c : Chances) (n : ℕ) (s : Listener Info)
      → Watched s
      → Watched (outgoing stream c n s).0
  unfolding outgoing
  outgoing-Watched stream c n s h = elim (Option-cases c.info_error) [
    | inr e ↦ rw e.1 h
    | inl e ↦ elim (Option-cases c.forward_error) [
      | inr e' ↦ rw (e, e'.1) h
      | inl e' ↦ rw (e, e') (registered n c.access_key s h)
    ]
  ]

  incoming-Watched :
      (stream : Stream) (remote : Option (WireInfo Info)) (target : Option (ℕ × ℕ)) (reply : Bool)
      (c : Chances) (n : ℕ) (s : Listener Info)
      → Watched s
      → Watched (incoming stream remote target reply c n s).0
  unfolding incoming accept
  incoming-Watched stream remote (some t) reply c n s h = watch-Watched n s h
  incoming-Watched stream remote none true c n s h = registered n c.access_key s h
  incoming-Watched stream remote none false c n s h = elim (Bool-cases c.handles) [
    | inl e ↦ rw e (registered n c.access_key s h)
    | inr e ↦ rw e (registered n c.access_key s h)
  ]

  chosen :
      (o : Option ℕ) (k : ℕ → Listener Info × List (Effect Stream Info)) (s' : Listener Info)
      (effects : List (Effect Stream Info))
      → elim o [ none ↦ none | some n ↦ some (k n) ] ≡ some (s', effects)
      → ((n : ℕ) → Watched (k n).0)
      → Watched s'
  chosen none k s' effects e h = cc
  chosen (some n) k s' effects e h =
      let same : k n ≡ (s', effects) = cc in
      subst (λ (r : Listener Info × List (Effect Stream Info)). Watched r.0) same (h n)

  -- Handling an event keeps the listener's invariant: every wire in the table has a task that waits
  -- for its receiver to go or a DropWire for it in the inbox, and its channel is one that was handed
  -- out.
  pub handle-Watched :
      (event : Event Stream Info) (c : Chances) (s s' : Listener Info)
      (effects : List (Effect Stream Info))
      → Watched s
      → handle event c s ≡ some (s', effects)
      → Watched s'
  unfolding handle
  handle-Watched (incoming_wire stream remote target reply) c s s' effects h e =
      chosen (free_id c.wire_ids s.wires) _ s' effects e
        λ n. incoming-Watched stream remote target reply c n s h
  handle-Watched (outgoing_wire stream target) c s s' effects h e =
      chosen (free_id c.wire_ids s.wires) _ s' effects e λ n. outgoing-Watched stream c n s h
  handle-Watched (drop_wire n) c s s' effects h e =
      chosen (some n)
        (λ k. (record s { wires = remove n s.wires; dropping = take_one n s.dropping }, [])) s'
        effects e λ k. dropped-Watched n s h
  handle-Watched shutdown c s s' effects h e =
      chosen (some 0) (λ k. (record s { inbox_open = false }, [])) s' effects e λ k. h
