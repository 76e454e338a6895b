-- ===== src/Wired/Opened.antt =====
-- wiring/src/core/wired.rs: a stream from `connect` at one end to the reads at the other.
use wiring.Base.{
  ℕ, true, false, List, [], ◌+◌, ◌≡◌, ◌%◌, ◌==◌, ◌^◌, arith, none, flatten, ◌∷◌, ap, Result, ◌∙◌,
  Option, ◌++◌, some, refl, ◌<◌, length, ok, take, Bool,
}
use wiring.Wired.{
  register_receiver, receive, helper_step, run_helper, unwired_message, wiring_message, run_wired,
  wired_message, Node, WiredEvent, WiringEvent,
}
use wiring.Wired.Channels.{Channel, update, unbounded_channel, update_same}
use wiring.Wired.Delivery.{forwards_in_order, pushes_in_order, receive_all, rounds}
use wiring.Wired.Halves.{
  wired_connect, unwired_connect, poll_flush, WriteHalf, ReadHalf, new_cursor,
}
use wiring.Wired.Ids.{Reachable, fresh_id}
use wiring.Wired.Reading.{
  poll_writes, flush_result, writes-flush, poll_reads, total, one_message_only,
}
use wiring.Wired.Streams.{lookup, lookup-insert_same, enter}

abbrev write_half : ℕ → Bool → ℕ → WriteHalf
write_half id local c = record {
  write_id = id;
  write_local = local;
  write_buf = new_cursor [];
  tx = c;
}

abbrev read_half : ℕ → Bool → ℕ → ReadHalf
read_half id local c = record { read_id = id; read_local = local; read_buf = new_cursor []; rx = c }

fresh_channels :
    (cs : ℕ → Channel) (c : ℕ)
    → update (update cs c unbounded_channel) (c + 1) unbounded_channel c ≡ unbounded_channel
fresh_channels cs c =
    let e : (c + 1 == c) ≡ false = ground arith in rw e (update_same cs c unbounded_channel)

module _ {T : Type 0} where
  -- One flush on a stream that has just been opened is one message on the wire.
  opened-sends :
      (a : Node T) (chunks : List (List ℕ))
      → lookup ((a.stream_id + 1) % 2 ^ 64, true) a.streams ≡ none
      → a.inbox ≡ []
      → a.inbox_open ≡ true
      → a.written ≡ []
      → let id = (a.stream_id + 1) % 2 ^ 64 in
        (run_wired true
          (poll_flush
            (poll_writes chunks (write_half id true a.next_channel))
            (wired_connect true a).1).2).written
        ≡ wiring_message id false (flatten chunks) ∷ []
  unfolding wired_connect register_receiver
  opened-sends a chunks fresh i o w =
      let id = (a.stream_id + 1) % 2 ^ 64 in
      let c = a.next_channel in
      let n = (wired_connect true a).1 in
      let made : n.channels c ≡ unbounded_channel = rw fresh (fresh_channels a.channels c) in
      let h = write_half id true c in
      let r = flush_result h n (flatten chunks) in
      ap (λ (q : Result (Unit {0}) × WriteHalf × Node T). (run_wired true q.2).written)
        (writes-flush chunks h n refl (ap Channel.has_receiver made) o)
      ∙ forwards_in_order id true c (flatten chunks ∷ []) r.2
          (lookup-insert_same (id, true) c a.streams)
          (ap Channel.messages (update_same n.channels c _)
            ∙ ap (λ (ch : Channel). ch.messages ++ (flatten chunks ∷ [])) made)
          (ap (λ (es : List (Option (WiredEvent T))). es ++ (some (wired_message id true) ∷ [])) i)
      ∙ ap (λ (es : List (WiringEvent T)). es ++ (wiring_message id false (flatten chunks) ∷ [])) w

  -- What comes for a stream that has just been accepted is what its read half reads.
  accepted-reads :
      (id : ℕ) (b : Node T) (message : List ℕ) (space : ℕ) (spaces : List ℕ)
      → b.helper_inbox ≡ []
      → b.helper_open ≡ true
      → lookup (id, false) b.senders ≡ none
      → 0 < length message
      → let accepted = (unwired_connect (ok id) b).1 in
        let arrived =
          rounds run_helper 2 (receive_all (wiring_message id false message ∷ []) accepted) in
        poll_reads (space ∷ spaces) (read_half id false (b.next_channel + 1)) arrived.channels
        ≡ some (take (total (space ∷ spaces)) message)
  unfolding unwired_connect receive run_helper helper_step
  accepted-reads id b message space spaces i o fresh l =
      let d = b.next_channel + 1 in
      let accepted = (unwired_connect (ok id) b).1 in
      let made : accepted.channels d ≡ unbounded_channel =
        update_same (update b.channels b.next_channel unbounded_channel) d unbounded_channel in
      let both = receive_all (wiring_message id false message ∷ []) accepted in
      let registered : Node T = record accepted {
        helper_inbox = some (unwired_message id false message) ∷ [];
        senders = enter (id, false) d b.senders;
      } in
      let same : run_helper both ≡ registered =
        rw (i, o, fresh) (ap (λ (q : Bool). record registered { helper_open = q }) o) in
      one_message_only message [] space spaces (read_half id false d) _ refl
        (ap (λ (n : Node T). ((run_helper n).channels d).messages) same
          ∙ pushes_in_order id true d (message ∷ []) registered
              (lookup-insert_same (id, false) d b.senders) (ap Channel.has_receiver made) refl
          ∙ ap (λ (ch : Channel). ch.messages ++ (message ∷ [])) made)
        l

  -- Where one end opens a stream and the other accepts the id that is announced, what is written to
  -- the one half, by any number of writes and one flush, is sent by Wired::run, and once the other
  -- end has received it and its helper task has run, the reads of the other half give these bytes,
  -- up to the space that they ask for. The first end is reachable with its inbox open and empty and
  -- nothing written before; at the other end the id is new, and the inbox of the helper open and
  -- empty. Something is written.
  pub connect-delivers :
      (a b : Node T) (chunks : List (List ℕ)) (space : ℕ) (spaces : List ℕ)
      → Reachable a
      → a.stream_id + 1 < 2 ^ 64
      → a.inbox ≡ []
      → a.inbox_open ≡ true
      → a.written ≡ []
      → lookup ((a.stream_id + 1) % 2 ^ 64, false) b.senders ≡ none
      → b.helper_inbox ≡ []
      → b.helper_open ≡ true
      → 0 < length (flatten chunks)
      → let id = (a.stream_id + 1) % 2 ^ 64 in
        let opened = (wired_connect true a).1 in
        let accepted = (unwired_connect (ok id) b).1 in
        (mine theirs : ReadHalf × WriteHalf) × ((wired_connect true a).0 ≡ ok mine)
        × ((unwired_connect (ok id) b).0 ≡ ok theirs)
        × (let sent = (run_wired true (poll_flush (poll_writes chunks mine.1) opened).2).written in
            let arrived = rounds run_helper 2 (receive_all sent accepted) in
            poll_reads (space ∷ spaces) theirs.0 arrived.channels
            ≡ some (take (total (space ∷ spaces)) (flatten chunks)))
  unfolding wired_connect unwired_connect register_receiver
  connect-delivers a b chunks space spaces reached small i o w fresh i' o' l =
      let id = (a.stream_id + 1) % 2 ^ 64 in
      let accepted = (unwired_connect (ok id) b).1 in
      (
        (read_half id true (a.next_channel + 1), write_half id true a.next_channel),
        (read_half id false (b.next_channel + 1), write_half id false b.next_channel),
        refl,
        refl,
        ap
              (λ (sent : List (WiringEvent T)).
                poll_reads (space ∷ spaces) (read_half id false (b.next_channel + 1))
                  (rounds run_helper 2 (receive_all sent accepted)).channels)
              (opened-sends a chunks (fresh_id a reached small).0 i o w)
            ∙ accepted-reads id b (flatten chunks) space spaces i' o' fresh l,
      )
