-- ===== src/Wired/Ending.antt =====
-- wiring/src/core/wired.rs: the task of `Wired::run` ends once it has been told to.
use wiring.Base.{
  ℕ, Bool, ◌≡◌, zero, List, suc, Option, false, Option-cases, if◌then◌else◌, inl, ◌++◌, inr, refl,
  true, ap, length, none, ◌∷◌, ◌∙◌, ◌<◌, Bool-cases, ◌≤◌, some, [], arith, append_assoc, append-nil,
  and_false, Result, ◌+◌, ok, ◌%◌, err, ◌^◌, undefined, panic,
}
use wiring.Wired.{
  Node, run_wired, wired_step, drop_stream, send_message, register_receiver, WiredEvent, receive,
  run_helper, helper_step, UnwiredEvent, drop_sender_of, WiringEvent, register_stream,
  unwired_message, unwired_drop,
}
use wiring.Wired.Channels.{try_recv, update, push}
use wiring.Wired.Halves.{
  poll_flush, handle_send, WriteHalf, wired_connect, drop_write_half, ReadHalf, unwired_connect,
  drop_read_half, drop_handle,
}
use wiring.Wired.Streams.{lookup}

module _ {T : Type 0} where
  -- The inbox is as it was, and not opened again.
  abbrev pub KeepsInbox : Node T → Node T → Type 0
  KeepsInbox n m = (m.inbox ≡ n.inbox) × (n.inbox_open ≡ false → m.inbox_open ≡ false)

  drop_stream-KeepsInbox :
      (wires : Bool) (id : ℕ) (local broadcast : Bool) (c : ℕ) (n : Node T)
      → KeepsInbox n (drop_stream wires id local broadcast c n)
  unfolding drop_stream
  drop_stream-KeepsInbox true id local true c n = (refl, λ h. h)
  drop_stream-KeepsInbox false id local true c n = (refl, λ h. refl)
  drop_stream-KeepsInbox wires id local false c n = (refl, λ h. h)

  send_message-KeepsInbox :
      (wires : Bool) (id : ℕ) (local : Bool) (c : ℕ) (n : Node T)
      → KeepsInbox n (send_message wires id local c n)
  unfolding send_message
  send_message-KeepsInbox wires id local c n = elim (Option-cases (try_recv (n.channels c))) [
    | inl e ↦ rw (e, send_message) (refl, λ h. h)
    | inr e ↦ rw (e.1, send_message) (refl, λ h. rw h (and_false wires))
  ]

  wired_step-KeepsInbox :
      (wires : Bool) (e : WiredEvent T) (n : Node T) → KeepsInbox n (wired_step wires e n)
  unfolding wired_step register_receiver
  wired_step-KeepsInbox true (WiredEvent.wired_event e) n = (refl, λ h. h)
  wired_step-KeepsInbox false (WiredEvent.wired_event e) n = (refl, λ h. refl)
  wired_step-KeepsInbox wires (WiredEvent.register_write_half id rx) n = (refl, λ h. h)
  wired_step-KeepsInbox wires (WiredEvent.wired_drop id local broadcast) n =
      elim (Option-cases (lookup (id, local) n.streams)) [
        | inl e ↦ rw (e, wired_step) (refl, λ h. h)
        | inr e ↦ rw (e.1, wired_step) (drop_stream-KeepsInbox wires id local broadcast e.0 n)
      ]
  wired_step-KeepsInbox wires (WiredEvent.wired_message id local) n =
      elim (Option-cases (lookup (id, local) n.streams)) [
        | inl e ↦ rw (e, wired_step) (refl, λ h. h)
        | inr e ↦ rw (e.1, wired_step) (send_message-KeepsInbox wires id local e.0 n)
      ]

  -- What another task does to the inbox: it sends events, which are lost once the inbox is closed.
  abbrev pub Sends : Node T → Node T → Type 0
  Sends n m =
      (es : List (Option (WiredEvent T))) × (m.inbox
        ≡ (if n.inbox_open then n.inbox ++ es else n.inbox))
      × (m.inbox_open ≡ n.inbox_open)

  -- Runs of an end with so many rounds of `Wired::run`, whatever its other tasks and handles do between them.
  pub data Rounds : ℕ → Node T → Node T → Type 0 where
    none_left : (n : Node T) → Rounds zero n n
    others : {k : ℕ} {n m p : Node T} → Sends n m → Rounds k m p → Rounds k n p
    round :
        {k : ℕ} (wires : Bool) {n p : Node T} → Rounds k (run_wired wires n) p → Rounds (suc k) n p

module _ {T : Type 0} where
  abbrev one_round : Bool → Node T → List (Option (WiredEvent T)) → Node T
  one_round wires n inbox = elim inbox [
    | [] ↦ n
    | e ∷ es ↦
        let n' = record n { inbox = es } in
        elim e [ none ↦ record n' { inbox_open = false } | some x ↦ wired_step wires x n' ]
  ]

  round_on :
      (wires : Bool) (n : Node T) (inbox : List (Option (WiredEvent T)))
      → n.inbox ≡ inbox
      → run_wired wires n ≡ one_round wires n inbox
  unfolding run_wired
  round_on wires n inbox e = ap (one_round wires n) e

  round-takes :
      (wires : Bool) (n : Node T) (x : Option (WiredEvent T)) (xs : List (Option (WiredEvent T)))
      → n.inbox ≡ x ∷ xs
      → ((run_wired wires n).inbox ≡ xs)
        × (n.inbox_open ≡ false → (run_wired wires n).inbox_open ≡ false)
  round-takes wires n none xs e = rw (round_on wires n (none ∷ xs) e) (refl, λ h. refl)
  round-takes wires n (some x) xs e =
      rw (round_on wires n (some x ∷ xs) e)
        (wired_step-KeepsInbox wires x (record n { inbox = xs }))

  round-closed :
      (wires : Bool) (n : Node T) (inbox : List (Option (WiredEvent T)))
      → n.inbox ≡ inbox
      → n.inbox_open ≡ false
      → (run_wired wires n).inbox_open ≡ false
  round-closed wires n [] e h = rw (round_on wires n [] e) h
  round-closed wires n (x ∷ xs) e h = (round-takes wires n x xs e).1 h

  closed-stays : {k : ℕ} {n m : Node T} → Rounds k n m → n.inbox_open ≡ false → m.inbox_open ≡ false
  closed-stays (none_left n) h = h
  closed-stays (others s r) h = closed-stays r (s.2 ∙ h)
  closed-stays (round wires {n} r) h = closed-stays r (round-closed wires n n.inbox refl h)

  -- The None that shutdown sends is not overtaken.
  sent_behind :
      (n m : Node T) (before after : List (Option (WiredEvent T)))
      → Sends n m
      → n.inbox ≡ before ++ (none ∷ after)
      → (after' : List (Option (WiredEvent T))) × (m.inbox ≡ before ++ (none ∷ after'))
  sent_behind n m before after (es, e, o) h = elim (Bool-cases n.inbox_open) [
    | inl is_open ↦ (
      after ++ es,
      e
          ∙ ap (λ (b : Bool). if b then n.inbox ++ es else n.inbox) is_open
          ∙ ap (λ (i : List (Option (WiredEvent T))). i ++ es) h
          ∙ append_assoc before (none ∷ after) es,
    )
    | inr shut ↦ (after, e ∙ ap (λ (b : Bool). if b then n.inbox ++ es else n.inbox) shut ∙ h)
  ]

  shutdown-closes :
      {k : ℕ} {n m : Node T} (before after : List (Option (WiredEvent T)))
      → Rounds k n m
      → n.inbox ≡ before ++ (none ∷ after)
      → length before < k
      → m.inbox_open ≡ false
  shutdown-closes before after (none_left n) e h = absurd (omega (arith, h))
  shutdown-closes before after (others {n = n} {m = m} s r) e h =
      let (after', e') = sent_behind n m before after s e in shutdown-closes before after' r e' h
  shutdown-closes [] after (round wires {n} r) e h =
      closed-stays r (rw (round_on wires n (none ∷ after) e) refl)
  shutdown-closes (b ∷ bs) after (round wires {n} r) e h =
      shutdown-closes bs after r (round-takes wires n b (bs ++ (none ∷ after)) e).0
        (omega (arith, h))

  closed-drains :
      {k : ℕ} {n m : Node T} (inbox : List (Option (WiredEvent T)))
      → Rounds k n m
      → n.inbox_open ≡ false
      → n.inbox ≡ inbox
      → length inbox ≤ k
      → m.inbox ≡ []
  closed-drains [] (none_left n) o e h = e
  closed-drains (x ∷ xs) (none_left n) o e h = absurd (omega (arith, h))
  closed-drains inbox (others {n = n} s r) o e h =
      closed-drains inbox r (s.2 ∙ o)
        (s.1 ∙ ap (λ (b : Bool). if b then n.inbox ++ s.0 else n.inbox) o ∙ e) h
  closed-drains [] (round wires {n} r) o e h =
      closed-drains [] r (round-closed wires n [] e o) (rw (round_on wires n [] e) e) (omega arith)
  closed-drains (x ∷ xs) (round wires {n} r) o e h =
      closed-drains xs r (round-closed wires n (x ∷ xs) e o) (round-takes wires n x xs e).0
        (omega (arith, h))

  quiet : (n m : Node T) → m.inbox ≡ n.inbox → m.inbox_open ≡ n.inbox_open → Sends n m
  quiet n m e o = elim (Bool-cases n.inbox_open) [
    | inl is_open ↦ ([], e ∙ rw (is_open, append-nil n.inbox) refl, o)
    | inr shut ↦ ([], e ∙ rw shut refl, o)
  ]

  helper_step-Sends : (e : UnwiredEvent) (n : Node T) → Sends n (helper_step e n)
  unfolding helper_step drop_sender_of
  helper_step-Sends (register_stream id local tx) n =
      quiet n (helper_step (register_stream id local tx) n) refl refl
  helper_step-Sends (unwired_message id local message) n =
      elim (Option-cases (lookup (id, local) n.senders)) [
        | inl e ↦ rw (e, helper_step) (quiet n n refl refl)
        | inr e ↦
            let c = e.0 in
            let sent = record n { channels = update n.channels c (push message (n.channels c)) } in
            rw (e.1, helper_step) (quiet n sent refl refl)
      ]
  helper_step-Sends (unwired_drop id local true) n =
      elim (Option-cases (lookup (id, local) n.senders)) [
        | inl e ↦ rw (e, helper_step) (quiet n n refl refl)
        | inr e ↦
            rw (e.1, helper_step) (some (WiredEvent.wired_drop id local false) ∷ [], refl, refl)
      ]
  helper_step-Sends (unwired_drop id local false) n =
      elim (Option-cases (lookup (id, local) n.senders)) [
        | inl e ↦ rw (e, helper_step) (quiet n n refl refl)
        | inr e ↦ rw (e.1, helper_step) (quiet n (drop_sender_of id local false e.0 n) refl refl)
      ]

  abbrev helper_round : Node T → List (Option UnwiredEvent) → Node T
  helper_round n inbox = elim inbox [
    | [] ↦ n
    | e ∷ es ↦
        let n' = record n { helper_inbox = es } in
        elim e [ none ↦ record n' { helper_open = false } | some x ↦ helper_step x n' ]
  ]

  helper_round-Sends :
      (n : Node T) (inbox : List (Option UnwiredEvent)) → Sends n (helper_round n inbox)
  helper_round-Sends n [] = quiet n n refl refl
  helper_round-Sends n (none ∷ es) = quiet n (helper_round n (none ∷ es)) refl refl
  helper_round-Sends n (some x ∷ es) = helper_step-Sends x (record n { helper_inbox = es })

  run_helper-Sends : (n : Node T) → Sends n (run_helper n)
  unfolding run_helper
  run_helper-Sends n = helper_round-Sends n n.helper_inbox

  receive-Sends : (e : WiringEvent T) (n : Node T) → Sends n (receive e n)
  unfolding receive
  receive-Sends (WiringEvent.wiring_event e) n =
      quiet n (receive (WiringEvent.wiring_event e) n) refl refl
  receive-Sends (WiringEvent.wiring_message id local message) n =
      quiet n (receive (WiringEvent.wiring_message id local message) n) refl refl
  receive-Sends (WiringEvent.wiring_drop id local) n =
      quiet n (receive (WiringEvent.wiring_drop id local) n) refl refl

  flush-Sends : (h : WriteHalf) (n : Node T) → Sends n (poll_flush h n).2
  unfolding poll_flush
  flush-Sends h n = elim (Bool-cases (n.channels h.tx).has_receiver) [
    | inr gone ↦ rw (gone, poll_flush) (quiet n n refl refl)
    | inl there ↦ elim (Bool-cases n.inbox_open) [
      | inr shut ↦ rw (there, shut, poll_flush) ([], refl, refl)
      | inl is_open ↦
          rw (there, is_open, poll_flush)
            (some (WiredEvent.wired_message h.write_id h.write_local) ∷ [], refl, refl)
    ]
  ]

  send-Sends : (message : Option T) (n : Node T) → Sends n (handle_send message n).1
  unfolding handle_send
  send-Sends message n = elim (Bool-cases n.inbox_open) [
    | inr shut ↦ rw (shut, handle_send) ([], refl, refl)
    | inl is_open ↦
        rw (is_open, handle_send)
          (elim message [ none ↦ none | some m ↦ some (WiredEvent.wired_event m) ] ∷ [], refl, refl)
  ]

  Sends-twice : (n m p : Node T) → Sends n m → Sends m p → Sends n p
  Sends-twice n m p (es, e, o) (fs, f, q) = elim (Bool-cases n.inbox_open) [
    | inl is_open ↦ (
      es ++ fs,
      f
          ∙ ap (λ (b : Bool). if b then m.inbox ++ fs else m.inbox) (o ∙ is_open)
          ∙ ap (λ (i : List (Option (WiredEvent T))). i ++ fs)
              (e ∙ ap (λ (b : Bool). if b then n.inbox ++ es else n.inbox) is_open)
          ∙ append_assoc n.inbox es fs
          ∙ rw is_open refl,
      q ∙ o,
    )
    | inr shut ↦ (
      [],
      f ∙ ap (λ (b : Bool). if b then m.inbox ++ fs else m.inbox) (o ∙ shut) ∙ e ∙ rw shut refl,
      q ∙ o,
    )
  ]

  read_half-Sends : (h : ReadHalf) (n : Node T) → Sends n (drop_read_half h n)
  read_half-Sends h n = (some (WiredEvent.wired_drop h.read_id h.read_local true) ∷ [], refl, refl)

  write_half-Sends : (h : WriteHalf) (n : Node T) → Sends n (drop_write_half h n)
  write_half-Sends h n =
      (some (WiredEvent.wired_drop h.write_id h.write_local true) ∷ [], refl, refl)

  connect-Sends : (wires : Bool) (n : Node T) → Sends n (wired_connect wires n).1
  unfolding wired_connect register_receiver
  connect-Sends true n = quiet n (wired_connect true n).1 refl refl
  connect-Sends false n =
      let id = (n.stream_id + 1) % 2 ^ 64 in
      let dropped = some (WiredEvent.wired_drop id true true) ∷ [] in
      Sends-twice n (drop_handle id true n) (wired_connect false n).1 (dropped, refl, refl)
        (dropped, refl, refl)

  accept-Sends : (id : Result ℕ) (n : Node T) → Sends n (unwired_connect id n).1
  unfolding unwired_connect
  accept-Sends (ok id) n =
      (some (WiredEvent.register_write_half id n.next_channel) ∷ [], refl, refl)
  accept-Sends undefined n = quiet n n refl refl
  accept-Sends panic n = quiet n n refl refl
  accept-Sends (err kind) n = quiet n n refl refl

  -- connect at both ends, the helper task, Unwired::run, a handle, poll_flush and the drops of
  -- halves do nothing to the inbox of Wired::run but send events behind what is there, which are
  -- lost once it is closed, and do not open or close it.
  pub others-Send :
      (wires : Bool) (id : Result ℕ) (e : WiringEvent T) (message : Option T) (w : WriteHalf)
      (r : ReadHalf) (n : Node T)
      → Sends n (wired_connect wires n).1
        × Sends n (unwired_connect id n).1
        × Sends n (run_helper n)
        × Sends n (receive e n)
        × Sends n (handle_send message n).1
        × Sends n (poll_flush w n).2
        × Sends n (drop_write_half w n)
        × Sends n (drop_read_half r n)
  others-Send wires id e message w r n = (
    connect-Sends wires n,
    accept-Sends id n,
    run_helper-Sends n,
    receive-Sends e n,
    send-Sends message n,
    flush-Sends w n,
    write_half-Sends w n,
    read_half-Sends r n,
  )

  pub wired-ends :
      {k k' : ℕ} {n m p : Node T} (before after : List (Option (WiredEvent T)))
      → n.inbox ≡ before ++ (none ∷ after)
      → Rounds k n m
      → length before < k
      → Rounds k' m p
      → length m.inbox ≤ k'
      → (p.inbox ≡ []) × (p.inbox_open ≡ false)
  wired-ends {m = m} before after e r h r' h' =
      let shut = shutdown-closes before after r e h in
      (closed-drains m.inbox r' shut refl h', closed-stays r' shut)
