-- ===== src/Wired/Ids.antt =====
-- wiring/src/core/wired.rs: the ids that `Wired::connect` gives to streams.
use wiring.Base.{
  ℕ, ◌+◌, ◌%◌, ◌^◌, ◌<◌, ◌≡◌, refl, ap, ◌∙◌, inl, inr, Bool, true, false, Option, none, some, List,
  [], ◌∷◌, ◌++◌, arith, ◌==◌, Bool-cases, Option-cases, Result, undefined, panic, err, ok, ◌≤◌,
}
use wiring.Wired.{
  Node, wired_step, register_receiver, WiredEvent, wired_event, run_wired, register_write_half,
  run_helper, wired_message, WiringEvent, wired_drop, receive, send_message, helper_step,
  drop_stream, drop_sender_of, UnwiredEvent, register_stream, unwired_message, unwired_drop,
  wiring_event, wiring_message, wiring_drop,
}
use wiring.Wired.Channels.{try_recv}
use wiring.Wired.Halves.{
  new_node, wired_connect, unwired_connect, handle_send, WriteHalf, poll_flush, drop_write_half,
  ReadHalf, drop_read_half,
}
use wiring.Wired.Streams.{
  Table, Key, unregister, lookup, key_eq, lookup-unregister_other, key_eq_sound,
  lookup-unregister_same, enter,
}

-- The local streams of a table have ids up to the last one given.
abbrev pub Given : ℕ → Table ℕ → Type 0
Given last t = (i : ℕ) → last < i → lookup (i, true) t ≡ none

Given-unregister : (last : ℕ) (k : Key) (t : Table ℕ) → Given last t → Given last (unregister k t)
Given-unregister last k t g i h = elim (Bool-cases (key_eq k (i, true))) [
  | inl e ↦
      ap (λ (q : Key). lookup (i, true) (unregister q t)) (key_eq_sound k (i, true) e)
      ∙ lookup-unregister_same (i, true) t
  | inr e ↦ lookup-unregister_other k (i, true) t e ∙ g i h
]

Given-enter :
    (last : ℕ) (k : Key) (c : ℕ) (t : Table ℕ)
    → ((i : ℕ) → last < i → key_eq (i, true) k ≡ false)
    → Given last t
    → Given last (enter k c t)
Given-enter last k c t misses g i h = rw (misses i h) (Given-unregister last k t g i h)

Given-later : (last next : ℕ) (t : Table ℕ) → last ≤ next → Given last t → Given next t
Given-later last next t l g i h = g i (omega arith)

misses_local : (last i : ℕ) → last < i → key_eq (i, true) (last, true) ≡ false
misses_local last i h = ground arith

misses_remote : (id i : ℕ) → key_eq (i, true) (id, false) ≡ false
misses_remote id i = elim (Bool-cases (i == id)) [ inl e ↦ rw e refl | inr e ↦ rw e refl ]

module _ {T : Type 0} where
  Bounded : Node T → Type 0
  Bounded n = Given n.stream_id n.streams

  -- What can happen to a node, with any interleaving; no more than 2^64 - 1 streams are opened.
  pub data Reachable : Node T → Type 0 where
    started : Reachable new_node
    connects :
        (wires : Bool) (n : Node T)
        → n.stream_id + 1 < 2 ^ 64
        → Reachable n
        → Reachable (wired_connect wires n).1
    accepts : (id : Result ℕ) (n : Node T) → Reachable n → Reachable (unwired_connect id n).1
    wired_round : (wires : Bool) (n : Node T) → Reachable n → Reachable (run_wired wires n)
    helper_round : (n : Node T) → Reachable n → Reachable (run_helper n)
    receives : (e : WiringEvent T) (n : Node T) → Reachable n → Reachable (receive e n)
    sends : (e : Option T) (n : Node T) → Reachable n → Reachable (handle_send e n).1
    flushes : (h : WriteHalf) (n : Node T) → Reachable n → Reachable (poll_flush h n).2
    drops_write_half : (h : WriteHalf) (n : Node T) → Reachable n → Reachable (drop_write_half h n)
    drops_read_half : (h : ReadHalf) (n : Node T) → Reachable n → Reachable (drop_read_half h n)

  send-Bounded :
      (wires : Bool) (id : ℕ) (l : Bool) (c : ℕ) (n : Node T)
      → Bounded n
      → Bounded (send_message wires id l c n)
  unfolding send_message Bounded
  send-Bounded wires id l c n g = elim (Option-cases (try_recv (n.channels c))) [
    | inl e ↦ rw (send_message, e) g
    | inr r ↦ rw (send_message, r.1) g
  ]

  drop-Bounded :
      (wires : Bool) (id : ℕ) (l b : Bool) (c : ℕ) (n : Node T)
      → Bounded n
      → Bounded (drop_stream wires id l b c n)
  unfolding drop_stream Bounded
  drop-Bounded wires id l true c n g = Given-unregister n.stream_id (id, l) n.streams g
  drop-Bounded wires id l false c n g = Given-unregister n.stream_id (id, l) n.streams g

  step-Bounded :
      (wires : Bool) (e : WiredEvent T) (n : Node T) → Bounded n → Bounded (wired_step wires e n)
  unfolding wired_step register_receiver Bounded
  step-Bounded wires (wired_event e) n g = g
  step-Bounded wires (register_write_half id rx) n g =
      Given-enter n.stream_id (id, false) rx n.streams (λ i h. misses_remote id i) g
  step-Bounded wires (wired_message id l) n g = elim (Option-cases (lookup (id, l) n.streams)) [
    | inl e ↦ rw (wired_step, e) g
    | inr c ↦ rw (wired_step, c.1) (send-Bounded wires id l c.0 n g)
  ]
  step-Bounded wires (wired_drop id l b) n g = elim (Option-cases (lookup (id, l) n.streams)) [
    | inl e ↦ rw (wired_step, e) g
    | inr c ↦ rw (wired_step, c.1) (drop-Bounded wires id l b c.0 n g)
  ]

  run-Bounded :
      (q : List (Option (WiredEvent T))) (wires : Bool) (n : Node T)
      → n.inbox ≡ q
      → Bounded n
      → Bounded (run_wired wires n)
  unfolding run_wired Bounded
  run-Bounded [] wires n i g = rw (run_wired, i) g
  run-Bounded (none ∷ es) wires n i g = rw (run_wired, i) g
  run-Bounded (some e ∷ es) wires n i g =
      rw (run_wired, i) (step-Bounded wires e (record n { inbox = es }) g)

  helper-Bounded : (e : UnwiredEvent) (n : Node T) → Bounded n → Bounded (helper_step e n)
  unfolding helper_step drop_sender_of Bounded
  helper-Bounded (register_stream id l tx) n g = g
  helper-Bounded (unwired_message id l m) n g = elim (Option-cases (lookup (id, l) n.senders)) [
    | inl e ↦ rw (helper_step, e) g
    | inr c ↦ rw (helper_step, c.1) g
  ]
  helper-Bounded (unwired_drop id l true) n g = elim (Option-cases (lookup (id, l) n.senders)) [
    | inl e ↦ rw (helper_step, e) g
    | inr c ↦ rw (helper_step, c.1) g
  ]
  helper-Bounded (unwired_drop id l false) n g = elim (Option-cases (lookup (id, l) n.senders)) [
    | inl e ↦ rw (helper_step, e) g
    | inr c ↦ rw (helper_step, c.1) g
  ]

  helper-run-Bounded :
      (q : List (Option UnwiredEvent)) (n : Node T)
      → n.helper_inbox ≡ q
      → Bounded n
      → Bounded (run_helper n)
  unfolding run_helper Bounded
  helper-run-Bounded [] n i g = rw (run_helper, i) g
  helper-run-Bounded (none ∷ es) n i g = rw (run_helper, i) g
  helper-run-Bounded (some e ∷ es) n i g =
      rw (run_helper, i) (helper-Bounded e (record n { helper_inbox = es }) g)

  connect-Given :
      (n : Node T)
      → n.stream_id + 1 < 2 ^ 64
      → Bounded n
      → let id = (n.stream_id + 1) % 2 ^ 64 in Given id (enter (id, true) n.next_channel n.streams)
  unfolding Bounded
  connect-Given n h g =
      let id = (n.stream_id + 1) % 2 ^ 64 in
      Given-enter id (id, true) n.next_channel n.streams (misses_local id)
        (Given-later n.stream_id id n.streams (omega arith) g)

  connect-Bounded :
      (wires : Bool) (n : Node T)
      → n.stream_id + 1 < 2 ^ 64
      → Bounded n
      → Bounded (wired_connect wires n).1
  unfolding wired_connect register_receiver Bounded
  connect-Bounded true n h g = connect-Given n h g
  connect-Bounded false n h g = connect-Given n h g

  accept-Bounded : (id : Result ℕ) (n : Node T) → Bounded n → Bounded (unwired_connect id n).1
  unfolding unwired_connect Bounded
  accept-Bounded (ok id) n g = g
  accept-Bounded (err kind) n g = g
  accept-Bounded panic n g = g
  accept-Bounded undefined n g = g

  receive-Bounded : (e : WiringEvent T) (n : Node T) → Bounded n → Bounded (receive e n)
  unfolding receive Bounded
  receive-Bounded (wiring_event e) n g = g
  receive-Bounded (wiring_message id l m) n g = g
  receive-Bounded (wiring_drop id l) n g = g

  send-event-Bounded : (e : Option T) (n : Node T) → Bounded n → Bounded (handle_send e n).1
  unfolding handle_send Bounded
  send-event-Bounded e n g = elim (Bool-cases n.inbox_open) [
    | inl o ↦ rw (handle_send, o) g
    | inr o ↦ rw (handle_send, o) g
  ]

  flush-Bounded : (h : WriteHalf) (n : Node T) → Bounded n → Bounded (poll_flush h n).2
  unfolding poll_flush Bounded
  flush-Bounded h n g = elim (Bool-cases (n.channels h.tx).has_receiver) [
    | inl r ↦ elim (Bool-cases n.inbox_open) [
      | inl o ↦ rw (poll_flush, r, o) g
      | inr o ↦ rw (poll_flush, r, o) g
    ]
    | inr r ↦ rw (poll_flush, r) g
  ]

  Reachable-Bounded : (n : Node T) → Reachable n → Bounded n
  unfolding Bounded
  Reachable-Bounded n started = λ i h. refl
  Reachable-Bounded n (connects wires m h r) = connect-Bounded wires m h (Reachable-Bounded m r)
  Reachable-Bounded n (accepts id m r) = accept-Bounded id m (Reachable-Bounded m r)
  Reachable-Bounded n (wired_round wires m r) =
      run-Bounded m.inbox wires m refl (Reachable-Bounded m r)
  Reachable-Bounded n (helper_round m r) =
      helper-run-Bounded m.helper_inbox m refl (Reachable-Bounded m r)
  Reachable-Bounded n (receives e m r) = receive-Bounded e m (Reachable-Bounded m r)
  Reachable-Bounded n (sends e m r) = send-event-Bounded e m (Reachable-Bounded m r)
  Reachable-Bounded n (flushes h m r) = flush-Bounded h m (Reachable-Bounded m r)
  Reachable-Bounded n (drops_write_half h m r) = Reachable-Bounded m r
  Reachable-Bounded n (drops_read_half h m r) = Reachable-Bounded m r

  -- However the tasks, the streams and the other end have interleaved, with fewer than 2^64 streams
  -- opened, the id that Wired::connect gives next belongs to no local stream in the table, and is
  -- the one that it writes behind those written before.
  pub fresh_id :
      (n : Node T)
      → Reachable n
      → n.stream_id + 1 < 2 ^ 64
      → (lookup ((wired_connect true n).1.stream_id, true) n.streams ≡ none)
        × ((wired_connect true n).1.announced ≡ n.announced ++ ((n.stream_id + 1) ∷ []))
  unfolding wired_connect Bounded register_receiver
  fresh_id n r h =
      let e : (n.stream_id + 1) % 2 ^ 64 ≡ n.stream_id + 1 = omega arith in
      let fresh : (i : ℕ) → n.stream_id < i → lookup (i, true) n.streams ≡ none =
        Reachable-Bounded n r in
      (fresh ((n.stream_id + 1) % 2 ^ 64) (omega arith), ap (λ (i : ℕ). n.announced ++ (i ∷ [])) e)
