-- ===== src/Channels/Ends.antt =====
-- wiring/src/core/wire.rs and wiring/src/core/unwire.rs: `Wiring` and `Unwiring` of each end of a channel. `stream` is
-- the outcome of `wire.stream()`, with the bytes that come over it where the task reads.
use wiring.Base.{
  ℕ, Bool, Option, none, some, List, [], if◌then◌else◌, Result, undefined, panic, err, ok, ◌>>=◌,
  ◌∷◌,
}
use wiring.Wire.{Writes}
use wiring.Encode.{Wiring}
use wiring.Channels.{read_items, write_items, read_stream}
use wiring.Decode.Async.{AsyncUnwiring}

module _ {T : Type 0} (w : Wiring T) where
  -- A receiver is sent away: what its channel has goes over the stream.
  unfoldable pub unbounded_receiver_wiring : Result (Unit {0}) → ℕ → List T → Result Writes
  unfolding write_items
  unbounded_receiver_wiring stream writes items = stream >>= λ u. ok (write_items w writes items)

  pub bounded_receiver_wiring : Result (Unit {0}) → ℕ → List T → Result Writes
  unfolding write_items
  bounded_receiver_wiring stream writes items = stream >>= λ u. ok (write_items w writes items)

  pub broadcast_receiver_wiring : Result (Unit {0}) → ℕ → List T → Result Writes
  unfolding write_items
  broadcast_receiver_wiring stream writes items = stream >>= λ u. ok (write_items w writes items)

  -- `items` are the values that `WatchStream` yields, the current one first.
  unfoldable pub watch_receiver_wiring : Result (Unit {0}) → ℕ → List T → Result Writes
  unfolding write_items
  watch_receiver_wiring stream writes items = stream >>= λ u. ok (write_items w writes items)

  -- `closed` says whether the other end goes before the item comes.
  pub oneshot_receiver_wiring : Result (Unit {0}) → Bool → Option T → Result Writes
  oneshot_receiver_wiring stream closed item = stream >>= λ u.
      ok (if closed then [] else elim item [ none ↦ [] | some x ↦ w.async_wiring x ])

  -- A sender arrives: what is sent on the new channel goes back over the stream.
  unfoldable pub unbounded_sender_unwiring : Result (Unit {0}) → ℕ → List T → Result Writes
  unfolding write_items
  unbounded_sender_unwiring stream writes items = stream >>= λ u. ok (write_items w writes items)

  pub bounded_sender_unwiring : Result (Unit {0}) → ℕ → List T → Result Writes
  unfolding write_items
  bounded_sender_unwiring stream writes items = stream >>= λ u. ok (write_items w writes items)

  pub oneshot_sender_unwiring : Result (Unit {0}) → Bool → Option T → Result Writes
  oneshot_sender_unwiring stream closed item = stream >>= λ u.
      ok (if closed then [] else elim item [ none ↦ [] | some x ↦ w.async_wiring x ])

module _ {T : Type 0} (f : AsyncUnwiring T) where
  -- A sender is sent away: the items that come back are sent on the channel.
  unfoldable pub unbounded_sender_wiring : Result (List ℕ) → ℕ → Result (Option (List T))
  unfolding read_items
  unbounded_sender_wiring stream accepts = stream >>= λ b. ok (read_stream f accepts b)

  pub bounded_sender_wiring : Result (List ℕ) → ℕ → Result (Option (List T))
  unfolding read_items
  bounded_sender_wiring stream accepts = stream >>= λ b. ok (read_stream f accepts b)

  pub broadcast_sender_wiring : Result (List ℕ) → ℕ → Result (Option (List T))
  unfolding read_items
  broadcast_sender_wiring stream accepts = stream >>= λ b. ok (read_stream f accepts b)

  pub oneshot_sender_wiring : Result (List ℕ) → Bool → Result (Option T)
  oneshot_sender_wiring stream closed = stream >>= λ b. ok (
      if closed
      then none
      else elim (f b) [ undefined ↦ none | panic ↦ none | err kind ↦ none | ok p ↦ some p.0 ])

  -- A receiver arrives: the items that come are sent on the new channel.
  unfoldable pub unbounded_receiver_unwiring : Result (List ℕ) → ℕ → Result (Option (List T))
  unfolding read_items
  unbounded_receiver_unwiring stream accepts = stream >>= λ b. ok (read_stream f accepts b)

  pub bounded_receiver_unwiring : Result (List ℕ) → ℕ → Result (Option (List T))
  unfolding read_items
  bounded_receiver_unwiring stream accepts = stream >>= λ b. ok (read_stream f accepts b)

  pub oneshot_receiver_unwiring : Result (List ℕ) → Bool → Result (Option T)
  oneshot_receiver_unwiring stream closed = stream >>= λ b. ok (
      if closed
      then none
      else elim (f b) [ undefined ↦ none | panic ↦ none | err kind ↦ none | ok p ↦ some p.0 ])

  -- The initial value is read before the call ends, and the values after it by the task.
  unfoldable pub watch_receiver_unwiring : Result (List ℕ) → ℕ → Result (T × Option (List T))
  unfolding read_items
  watch_receiver_unwiring stream accepts = do
    b ← stream
    (init, b') ← f b
    ok (init, read_stream f accepts b')

-- The value of a watch channel after these have been sent.
abbrev pub latest : {T : Type 0} → T → List T → T
latest current [] = current
latest current (v ∷ vs) = latest v vs

module _ {T : Type 0} (w : Wiring T) (f : AsyncUnwiring T) where
  -- A watch sender is sent away: its current value goes over the stream, and the values that come back are sent on.
  unfoldable pub watch_sender_wiring : Result (List ℕ) → ℕ → T → Result (Writes × Option (List T))
  unfolding read_items
  watch_sender_wiring stream accepts current =
      stream >>= λ b. ok (w.async_wiring current, read_stream f accepts b)

  -- A watch sender arrives. `WatchStream` yields the value that is current when the task first polls it, `before` having
  -- been sent on the new sender by then, and after it the `later` ones.
  unfoldable pub watch_sender_unwiring : Result (List ℕ) → ℕ → List T → List T → Result (T × Writes)
  unfolding write_items
  watch_sender_unwiring stream writes before later = do
    b ← stream
    (init, b') ← f b
    ok (init, write_items w writes (latest init before ∷ later))
