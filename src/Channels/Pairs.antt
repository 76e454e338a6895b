-- ===== src/Channels/Pairs.antt =====
-- wiring/src/core/wire.rs: `WireChannel`, a sender and a receiver over one wire, and `WireStream::into`, which gives
-- its wire up for it.
use wiring.Base.{
  ℕ, Option, Result, err, List, broken_pipe, some, ◌>>=◌, flatten, ok, none, ◌≡◌, take, ap,
}
use wiring.Wire.{Writes}
use wiring.Encode.{Wiring}
use wiring.Channels.{write_items, read_stream}
use wiring.Channels.Crossing.{Matches, stream_crosses}
use wiring.Decode.Async.{AsyncUnwiring}

-- `ConsumeWire`: `stream` gives the wire once.
pub consume_stream : {T : Type 0} → Option T → Result T × Option T
consume_stream none = (err broken_pipe, none)
consume_stream (some wire) = (ok wire, none)

module _ {S R : Type 0} (w : Wiring S) (f : AsyncUnwiring R) where
  -- Both tasks of a `WireChannel`, by the bytes that come over the stream, the outcome of `split`, the writes that
  -- succeed before one fails or the task is aborted, the items that the receiver takes, and the items sent.
  pub wire_channel_unwiring :
      Result (List ℕ) → Result (Unit {0}) → ℕ → ℕ → List S → Result (Writes × Option (List R))
  wire_channel_unwiring stream split writes accepts items =
      stream >>= λ b. split >>= λ u. ok (write_items w writes items, read_stream f accepts b)

  -- With bounded channels: `accepts` is how many items are taken before the receiver goes, and the read after it ends
  -- the task.
  pub bounded_wire_channel_unwiring :
      Result (List ℕ) → Result (Unit {0}) → ℕ → ℕ → List S → Result (Writes × Option (List R))
  bounded_wire_channel_unwiring stream split writes accepts items =
      stream >>= λ b. split >>= λ u. ok (write_items w writes items, read_stream f accepts b)

  -- `WireStream::into::<WireChannel<_, _>>`.
  pub into_channel : List ℕ → Result (Unit {0}) → ℕ → ℕ → List S → Result (Writes × Option (List R))
  unfolding consume_stream wire_channel_unwiring
  into_channel wire split writes accepts items =
      wire_channel_unwiring (consume_stream (some wire)).0 split writes accepts items

module _ {A B : Type 0} (w : Wiring A) (f : AsyncUnwiring A) (w' : Wiring B)
    (f' : AsyncUnwiring B) where
  -- When both ends of a stream turn it into a WireChannel, by into, each receiver has the items sent
  -- at the other end, in order: those whose writes succeed, up to the number that the receiver
  -- takes. The reader of each type takes from a stream what its wiring writes.
  pub pair-exchanges :
      Matches w f
      → Matches w' f'
      → (writes writes' accepts accepts' : ℕ) (items : List A) (items' : List B)
      → (out out' : Writes) × (into_channel w f' (flatten out') (ok tt) writes accepts' items
          ≡ ok (out, some (take accepts' (take writes' items'))))
        × (into_channel w' f (flatten out) (ok tt) writes' accepts items'
            ≡ ok (out', some (take accepts (take writes items))))
  unfolding into_channel wire_channel_unwiring consume_stream
  pair-exchanges m m' writes writes' accepts accepts' items items' = (
    write_items w writes items,
    write_items w' writes' items',
    ap (λ (got : Option (List B)). ok (write_items w writes items, got))
        (stream_crosses w' f' m' writes' accepts' items'),
    ap (λ (got : Option (List A)). ok (write_items w' writes' items', got))
        (stream_crosses w f m writes accepts items),
  )
