-- ===== src/Channels/Crossing.antt =====
-- wiring/src/core/wire.rs and wiring/src/core/unwire.rs: the items of a channel that cross a wire.
use wiring.Base.{
  append-nil, suc, zero, take_beyond, flatten-append, length-append, ℕ, ◌<◌, ◌≡◌, refl, sym, ap,
  subst, ◌∙◌, ◌≢◌, some, List, [], ◌∷◌, arith, flatten, Result, undefined, panic, err, ok, length,
  take, ◌++◌,
}
use wiring.Wire.{Writes}
use wiring.Encode.{Wiring}
use wiring.Channels.{read_items, write_items, read_stream}
use wiring.Channels.Ends.{
  unbounded_receiver_wiring, unbounded_receiver_unwiring, unbounded_sender_wiring,
  watch_receiver_wiring, unbounded_sender_unwiring, watch_receiver_unwiring, watch_sender_wiring,
  watch_sender_unwiring, latest,
}
use wiring.Decode.Async.{AsyncUnwiring}
use wiring.Decode.Takes.{Takes}

module _ {T : Type 0} (f : AsyncUnwiring T) where
  -- Every read that succeeds takes a byte.
  abbrev pub Advances : Type 0
  Advances = (b : List ℕ) (x : T) (b' : List ℕ) → f b ≡ ok (x, b') → length b' < length b

  one_round :
      (fuel accepts : ℕ) (b : List ℕ) (r : Result (T × List ℕ))
      → f b ≡ r
      → ((x : T) (b' : List ℕ) (n : ℕ)
          → r ≡ ok (x, b')
          → (items : List T) × (read_items f fuel n b' ≡ some items))
      → (items : List T) × (read_items f (suc fuel) accepts b ≡ some items)
  unfolding read_items
  one_round fuel accepts b undefined e next = ([], rw (read_items, e) refl)
  one_round fuel accepts b panic e next = ([], rw (read_items, e) refl)
  one_round fuel accepts b (err kind) e next = ([], rw (read_items, e) refl)
  one_round fuel zero b (ok p) e next = ([], rw (read_items, e) refl)
  one_round fuel (suc n) b (ok p) e next =
      let (items, read) = next p.0 p.1 n refl in (p.0 ∷ items, rw (read_items, e, read) refl)

  items-terminate :
      Advances
      → (fuel accepts : ℕ) (b : List ℕ) → length b < fuel
      → (items : List T) × (read_items f fuel accepts b ≡ some items)
  items-terminate adv zero accepts b h = absurd (omega (arith, h))
  items-terminate adv (suc fuel) accepts b h =
      one_round fuel accepts b (f b) refl
        λ x b' n e. items-terminate adv fuel n b' (omega (arith, h, adv b x b' e))

  -- The task that copies the items of a stream to a channel ends on every stream of bytes, with some
  -- list of items, if every read that succeeds takes at least a byte.
  pub stream-terminates :
      Advances
      → (accepts : ℕ) (b : List ℕ) → (items : List T) × (read_stream f accepts b ≡ some items)
  stream-terminates adv accepts b = items-terminate adv (suc (length b)) accepts b (omega arith)

  read_end :
      (fuel accepts : ℕ) (r : Result (T × List ℕ))
      → f [] ≡ r
      → ((x : T) (b : List ℕ) → f [] ≢ ok (x, b))
      → read_items f (suc fuel) accepts [] ≡ some []
  unfolding read_items
  read_end fuel accepts undefined e never = rw (read_items, e) refl
  read_end fuel accepts panic e never = rw (read_items, e) refl
  read_end fuel accepts (err kind) e never = rw (read_items, e) refl
  read_end fuel accepts (ok p) e never = absurd (never p.0 p.1 e)

module _ {T : Type 0} (w : Wiring T) (f : AsyncUnwiring T) where
  -- The reader takes from the stream what `wiring` writes of any item, and the end of the stream is an error.
  abbrev pub Matches : Type 0
  Matches =
      ((x : T) → Takes f x (flatten (w.async_wiring x)) × (0 < length (flatten (w.async_wiring x))))
      × ((x : T) (b : List ℕ) → f [] ≢ ok (x, b))

  nothing_written :
      Matches → (accepts fuel : ℕ) → read_items f (suc fuel) accepts [] ≡ some (take accepts [])
  nothing_written m accepts fuel =
      read_end f fuel accepts (f []) refl m.1 ∙ ap some (sym (take_beyond accepts [] (omega arith)))

  items_cross :
      Matches
      → (writes accepts fuel : ℕ) (items : List T)
      → length (flatten (write_items w writes items)) < fuel
      → read_items f fuel accepts (flatten (write_items w writes items))
        ≡ some (take accepts (take writes items))
  unfolding read_items write_items flatten
  items_cross m writes accepts zero items h = absurd (omega (arith, h))
  items_cross m zero accepts (suc fuel) items h = nothing_written m accepts fuel
  items_cross m (suc k) accepts (suc fuel) [] h = nothing_written m accepts fuel
  items_cross m (suc k) zero (suc fuel) (x ∷ xs) h =
      let rest = write_items w k xs in
      rw (flatten-append (w.async_wiring x) rest, read_items, (m.0 x).0 (flatten rest)) refl
  items_cross m (suc k) (suc n) (suc fuel) (x ∷ xs) h =
      let rest = write_items w k xs in
      let small : length (flatten rest) < fuel = omega (
        arith,
        h,
        ap length (flatten-append (w.async_wiring x) rest),
        length-append (flatten (w.async_wiring x)) (flatten rest),
        (m.0 x).1,
      ) in
      rw
        (
          flatten-append (w.async_wiring x) rest,
          read_items,
          (m.0 x).0 (flatten rest),
          items_cross m k n fuel xs small,
        )
        refl

  -- A reader with fuel for every byte gets what has been written, up to what its channel accepts.
  pub stream_crosses :
      Matches
      → (writes accepts : ℕ) (items : List T)
      → read_stream f accepts (flatten (write_items w writes items))
        ≡ some (take accepts (take writes items))
  stream_crosses m writes accepts items =
      items_cross m writes accepts (suc (length (flatten (write_items w writes items)))) items
        (omega arith)

  -- What is written for an mpsc receiver that is sent over a wire arrives, in order, at the receiver
  -- made at the other end, and what is sent on the sender made at the other end arrives at the
  -- sender that was sent away: the items written, up to those that the channel accepts. The reader
  -- takes from a stream what wiring writes of an item, at least a byte, and refuses the empty
  -- stream.
  pub items-arrive :
      Matches
      → (writes accepts : ℕ) (items : List T) (out back : Writes)
      → unbounded_receiver_wiring w (ok tt) writes items ≡ ok out
      → unbounded_sender_unwiring w (ok tt) writes items ≡ ok back
      → (unbounded_receiver_unwiring f (ok (flatten out)) accepts
          ≡ ok (some (take accepts (take writes items))))
        × (unbounded_sender_wiring f (ok (flatten back)) accepts
            ≡ ok (some (take accepts (take writes items))))
  unfolding unbounded_receiver_wiring unbounded_receiver_unwiring unbounded_sender_wiring
      unbounded_sender_unwiring
  items-arrive m writes accepts items out back e e' =
      let same : write_items w writes items ≡ out = cc in
      let same' : write_items w writes items ≡ back = cc in
      let crosses = stream_crosses m writes accepts items in
      let Got = λ (o : Writes).
        ok (read_stream f accepts (flatten o)) ≡ ok (some (take accepts (take writes items))) in
      (subst Got same (ap ok crosses), subst Got same' (ap ok crosses))

  -- A watch receiver that is sent over a wire has at the other end the first value written as its
  -- initial one, and the values written after it, in order, up to those that the channel accepts.
  -- The reader takes from a stream what wiring writes of a value, at least a byte, and refuses the
  -- empty stream.
  pub watch-arrives :
      Matches
      → (writes accepts : ℕ) (x : T) (xs : List T) (out : Writes)
      → watch_receiver_wiring w (ok tt) (suc writes) (x ∷ xs) ≡ ok out
      → watch_receiver_unwiring f (ok (flatten out)) accepts
        ≡ ok (x, some (take accepts (take writes xs)))
  unfolding watch_receiver_wiring watch_receiver_unwiring write_items
  watch-arrives m writes accepts x xs out e =
      let rest = write_items w writes xs in
      let same : w.async_wiring x ++ rest ≡ out = cc in
      let bytes : flatten out ≡ flatten (w.async_wiring x) ++ flatten rest =
        ap flatten (sym same) ∙ flatten-append (w.async_wiring x) rest in
      rw
        (
          bytes,
          watch_receiver_unwiring,
          (m.0 x).0 (flatten rest),
          stream_crosses m writes accepts xs,
        )
        refl

  -- The value that a watch sender writes first is the initial value of the watch sender at the other
  -- end, and the first value that comes back and is sent on, if one does, is the one that is current
  -- there when the task first polls: the initial value itself if nothing has been sent on the new
  -- sender by then, and otherwise the last one sent. Those that the stream yields later follow in
  -- order. The reader takes from a stream what wiring writes of a value, at least a byte, and
  -- refuses the empty stream.
  pub watch_sender-echoes :
      Matches
      → (writes accepts : ℕ) (current : T) (before later : List T)
      → (back : Writes) × (watch_sender_unwiring w f
            (ok (flatten (w.async_wiring current)))
            writes
            before
            later
          ≡ ok (current, back))
        × (watch_sender_wiring w f (ok (flatten back)) accepts current
            ≡ ok (
              w.async_wiring current,
              some (take accepts (take writes (latest current before ∷ later))),
            ))
  unfolding watch_sender_wiring watch_sender_unwiring
  watch_sender-echoes m writes accepts current before later =
      let bytes = flatten (w.async_wiring current) in
      let read : f bytes ≡ ok (current, []) = ap f (sym (append-nil bytes)) ∙ (m.0 current).0 [] in
      (
        write_items w writes (latest current before ∷ later),
        rw (watch_sender_unwiring, read) refl,
        rw (watch_sender_wiring, stream_crosses m writes accepts (latest current before ∷ later))
            refl,
      )
