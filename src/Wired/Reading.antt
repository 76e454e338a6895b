-- ===== src/Wired/Reading.antt =====
-- wiring/src/core/wired.rs: what the reads and the writes of a stream of `Wired` amount to.
use wiring.Base.{
  drop_beyond, take_beyond, suc_out, ℕ, zero, suc, ◌+◌, ◌<◌, ◌≡◌, refl, sym, ap, ◌∙◌, true, false,
  Option, none, some, List, [], ◌∷◌, ◌++◌, append-nil, append_assoc, arith, flatten, ◌==◌, length,
  take, drop, length-append, drop-drop, Result, ok,
}
use wiring.Wired.{Node, wired_message}
use wiring.Wired.Channels.{Channel, update, push}
use wiring.Wired.Halves.{
  poll_read, ReadHalf, Cursor, WriteHalf, cursor_read, new_cursor, cursor_write, poll_write,
  poll_flush,
}

-- The reads of a client, one for each space, until one is pending.
abbrev pub poll_reads : List ℕ → ReadHalf → (ℕ → Channel) → Option (List ℕ)
poll_reads [] h cs = some []
poll_reads (space ∷ spaces) h cs = elim (poll_read space h cs) [
  | none ↦ none
  | some r ↦ elim (poll_reads spaces r.1 r.2) [ none ↦ none | some rest ↦ some (r.0 ++ rest) ]
]

abbrev pub total : List ℕ → ℕ
total [] = 0
total (n ∷ ns) = n + total ns

take-nil : (n : ℕ) → take {A = ℕ} n [] ≡ []
take-nil zero = refl
take-nil (suc n) = refl

take-split :
    (n m : ℕ) (xs : List ℕ) → take n xs ++ take m (drop (length (take n xs)) xs) ≡ take (n + m) xs
take-split zero m xs = ap (λ (k : ℕ). take k xs) (omega arith)
take-split (suc n) m [] = rw suc_out (take-nil m)
take-split (suc n) m (x ∷ xs) = rw suc_out (ap (◌∷◌ x) (take-split n m xs))

cursor-read :
    (s k : ℕ) (c : Cursor)
    → (cursor_read s c).0 ++ take k (drop (cursor_read s c).1.position c.contents)
      ≡ take (s + k) (drop c.position c.contents)
cursor-read s k c =
    let d = drop c.position c.contents in
    ap (λ (r : List ℕ). take s d ++ take k r)
      (sym (drop-drop (length (take s d)) c.position c.contents))
    ∙ take-split s k d

module _ (space : ℕ) (h : ReadHalf) (cs : ℕ → Channel) where
  poll_full :
      (length h.read_buf.contents == 0) ≡ false
      → poll_read space h cs
        ≡ some (
          (cursor_read space h.read_buf).0,
          record h { read_buf = (cursor_read space h.read_buf).1 },
          cs,
        )
  unfolding poll_read
  poll_full e = rw e refl

  poll_first :
      (m : List ℕ) (ms : List (List ℕ))
      → h.read_buf.contents ≡ []
      → (cs h.rx).messages ≡ m ∷ ms
      → let out = cursor_read space (new_cursor m) in
        poll_read space h cs
        ≡ some (
          out.0,
          record h { read_buf = out.1 },
          update cs h.rx (record (cs h.rx) { messages = ms }),
        )
  unfolding poll_read
  poll_first m ms e e' =
      (let z : (length h.read_buf.contents == 0) ≡ true = ap (λ (xs : List ℕ). length xs == 0) e in
        rw (z, e') refl)

  pub pending_lem :
      h.read_buf.contents ≡ []
      → (cs h.rx).messages ≡ []
      → (cs h.rx).has_sender ≡ true
      → poll_read space h cs ≡ none
  unfolding poll_read
  pending_lem e e' e'' =
      (let z : (length h.read_buf.contents == 0) ≡ true = ap (λ (xs : List ℕ). length xs == 0) e in
        rw (z, e', e'') refl)

  read_step :
      (r : List ℕ × ReadHalf × (ℕ → Channel)) (spaces rest : List ℕ)
      → poll_read space h cs ≡ some r
      → poll_reads spaces r.1 r.2 ≡ some rest
      → poll_reads (space ∷ spaces) h cs ≡ some (r.0 ++ rest)
  read_step r spaces rest p q = rw (poll_reads, p, q) refl

-- What a read half that holds a message still gives: the rest of that message, up to the space asked for.
pub rest_of_message :
    (spaces : List ℕ) (h : ReadHalf) (cs : ℕ → Channel)
    → (length h.read_buf.contents == 0) ≡ false
    → poll_reads spaces h cs
      ≡ some (take (total spaces) (drop h.read_buf.position h.read_buf.contents))
rest_of_message [] h cs e = refl
rest_of_message (s ∷ ss) h cs e =
    let h' = record h { read_buf = (cursor_read s h.read_buf).1 } in
    read_step s h cs _ ss _ (poll_full s h cs e) (rest_of_message ss h' cs e)
    ∙ ap some (cursor-read s (total ss) h.read_buf)

-- A read half with an empty buffer whose channel holds a first message that is not empty reads that
-- message and nothing else: all its reads together give the front of the first message, up to the
-- space asked for, whatever messages wait behind it.
pub one_message_only :
    (m : List ℕ) (ms : List (List ℕ)) (space : ℕ) (spaces : List ℕ) (h : ReadHalf)
    (cs : ℕ → Channel)
    → h.read_buf.contents ≡ []
    → (cs h.rx).messages ≡ m ∷ ms
    → 0 < length m
    → poll_reads (space ∷ spaces) h cs ≡ some (take (total (space ∷ spaces)) m)
one_message_only m ms s ss h cs e e' l =
    let h' = record h { read_buf = (cursor_read s (new_cursor m)).1 } in
    read_step s h cs _ ss _ (poll_first s h cs m ms e e') (rest_of_message ss h' _ (ground arith))
    ∙ ap some (cursor-read s (total ss) (new_cursor m))

-- Writes.
abbrev pub poll_writes : List (List ℕ) → WriteHalf → WriteHalf
poll_writes [] h = h
poll_writes (b ∷ bs) h = poll_writes bs (poll_write b h).1

cursor-append :
    (b : List ℕ) (c : Cursor)
    → c.position ≡ length c.contents
    → cursor_write b c ≡ record { contents = c.contents ++ b; position = length (c.contents ++ b) }
cursor-append b c e =
    let beyond = drop_beyond (length c.contents + length b) c.contents (omega arith) in
    rw
      (
        e,
        take_beyond (length c.contents) c.contents (omega arith),
        beyond,
        append-nil (c.contents ++ b),
        length-append c.contents b,
      )
      refl

abbrev filled : List ℕ → Cursor
filled bytes = record { contents = bytes; position = length bytes }

poll_writes_lem :
    (bs : List (List ℕ)) (h : WriteHalf) (before : List ℕ)
    → h.write_buf ≡ filled before
    → poll_writes bs h ≡ record h { write_buf = filled (before ++ flatten bs) }
unfolding flatten
poll_writes_lem [] h before e =
    ap (λ (c : Cursor). record h { write_buf = c }) (e ∙ ap filled (sym (append-nil before)))
poll_writes_lem (b ∷ bs) h before e =
    let s : cursor_write b h.write_buf ≡ filled (before ++ b) =
      ap (cursor_write b) e ∙ cursor-append b (filled before) refl in
    poll_writes_lem bs (poll_write b h).1 (before ++ b) s
    ∙ ap (λ (xs : List ℕ). record h { write_buf = filled xs }) (append_assoc before b (flatten bs))

module _ {T : Type 0} (h : WriteHalf) (n : Node T) where
  abbrev pub flush_result : List ℕ → Result (Unit {0}) × WriteHalf × Node T
  flush_result message = (
    ok tt,
    record h { write_buf = new_cursor [] },
    record n {
      channels =
          update n.channels h.tx
            (record (n.channels h.tx) { messages = (n.channels h.tx).messages ++ (message ∷ []) });
      inbox = n.inbox ++ (some (wired_message h.write_id h.write_local) ∷ []);
    },
  )

  flush_lem :
      (n.channels h.tx).has_receiver ≡ true
      → n.inbox_open ≡ true
      → poll_flush h n ≡ flush_result h.write_buf.contents
  unfolding poll_flush
  flush_lem r o = rw (poll_flush, push, r, o) refl

module _ {T : Type 0} where
  -- Any number of poll_write calls on an empty write half and then poll_flush send one message, the
  -- bytes of the writes in order, and tell the task of Wired of it, and leave the buffer empty, if
  -- the channel still has its receiver and the inbox of Wired is open.
  pub writes-flush :
      (bs : List (List ℕ)) (h : WriteHalf) (n : Node T)
      → h.write_buf ≡ new_cursor []
      → (n.channels h.tx).has_receiver ≡ true
      → n.inbox_open ≡ true
      → poll_flush (poll_writes bs h) n ≡ flush_result h n (flatten bs)
  writes-flush bs h n e r o =
      let h' = record h { write_buf = filled (flatten bs) } in
      ap (λ (k : WriteHalf). poll_flush k n) (poll_writes_lem bs h [] e) ∙ flush_lem h' n r o
