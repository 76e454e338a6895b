-- ===== src/Wired/Halves.antt =====
-- wiring/src/core/wired.rs: the streams of a `Wired` wire, `InternalWriteHalf` and `InternalReadHalf`, how `connect`
-- of the two ends makes them, and the handles that send events to the tasks.
use wiring.Base.{
  ℕ, ◌+◌, ◌%◌, ◌^◌, Bool, true, false, Option, none, some, List, [], ◌∷◌, ◌++◌, ◌==◌, if◌then◌else◌,
  broken_pipe, Result, undefined, panic, err, ok, length, take, drop, connection_aborted,
}
use wiring.Wired.{
  Node, tell_helper, register_receiver, tell_wired, register_write_half, wired_drop,
  register_stream, wired_message, wired_event,
}
use wiring.Wired.Channels.{
  Channel, update, try_recv, unbounded_channel, drop_sender, drop_receiver, push,
}

-- `std::io::Cursor<Vec<u8>>`: a write goes over what is at the position and grows the bytes, a read stops at their end.
pub record Cursor : Type 0 where
  pub contents : List ℕ
  pub position : ℕ

abbrev pub new_cursor : List ℕ → Cursor
new_cursor bytes = record { contents = bytes; position = 0 }

abbrev pub cursor_write : List ℕ → Cursor → Cursor
cursor_write bytes c = record {
  contents = take c.position c.contents ++ bytes ++ drop (c.position + length bytes) c.contents;
  position = c.position + length bytes;
}

abbrev pub cursor_read : ℕ → Cursor → List ℕ × Cursor
cursor_read space c =
    let read = take space (drop c.position c.contents) in
    (read, record c { position = c.position + length read })

-- `tx` and `rx` are the numbers of their channels.
pub record WriteHalf : Type 0 where
  pub write_id : ℕ
  pub write_local : Bool
  pub write_buf : Cursor
  pub tx : ℕ

pub record ReadHalf : Type 0 where
  pub read_id : ℕ
  pub read_local : Bool
  pub read_buf : Cursor
  pub rx : ℕ

-- `poll_read` with `space` left in the buffer; `none` is `Pending`. The buffer is filled when it holds no bytes at all.
unfoldable pub poll_read : ℕ → ReadHalf → (ℕ → Channel) → Option (List ℕ × ReadHalf × (ℕ → Channel))
poll_read space h cs =
    if length h.read_buf.contents == 0
    then elim (try_recv (cs h.rx)) [
      | some r ↦
          let out = cursor_read space (new_cursor r.0) in
          some (out.0, record h { read_buf = out.1 }, update cs h.rx r.1)
      | none ↦ if (cs h.rx).has_sender then none else some ([], h, cs)
    ]
    else (let out = cursor_read space h.read_buf in some (out.0, record h { read_buf = out.1 }, cs))

abbrev pub poll_write : List ℕ → WriteHalf → ℕ × WriteHalf
poll_write bytes h = (length bytes, record h { write_buf = cursor_write bytes h.write_buf })

abbrev halves : ℕ → Bool → ℕ → ℕ → ReadHalf × WriteHalf
halves id local rx tx = (
  record { read_id = id; read_local = local; read_buf = new_cursor []; rx = rx },
  record { write_id = id; write_local = local; write_buf = new_cursor []; tx = tx },
)

module _ {T : Type 0} where
  -- What `Wired` and `Unwired` start with.
  abbrev pub new_node : Node T
  new_node = record {
    stream_id = 0;
    streams = [];
    senders = [];
    channels = λ c. unbounded_channel;
    next_channel = 0;
    inbox = [];
    inbox_open = true;
    helper_inbox = [];
    helper_open = true;
    written = [];
    handled = [];
    announced = [];
  }

  unfoldable pub poll_flush : WriteHalf → Node T → Result (Unit {0}) × WriteHalf × Node T
  poll_flush h n =
      let h' = record h { write_buf = new_cursor [] } in
      if (n.channels h.tx).has_receiver
      then (let n' = record n {
        channels = update n.channels h.tx (push h.write_buf.contents (n.channels h.tx));
      } in
          if n'.inbox_open
          then (ok tt, h', tell_wired (some (wired_message h.write_id h.write_local)) n')
          else (err connection_aborted, h', n'))
      else (err connection_aborted, h', n)

  -- The `Drop` of a handle of a stream, and `poll_shutdown` of its write half.
  abbrev pub drop_handle : ℕ → Bool → Node T → Node T
  drop_handle id local n = tell_wired (some (wired_drop id local true)) n

  abbrev pub drop_write_half : WriteHalf → Node T → Node T
  drop_write_half h n =
      let n' = drop_handle h.write_id h.write_local n in
      record n' { channels = update n'.channels h.tx (drop_sender (n'.channels h.tx)) }

  abbrev pub drop_read_half : ReadHalf → Node T → Node T
  drop_read_half h n =
      let n' = drop_handle h.read_id h.read_local n in
      record n' { channels = update n'.channels h.rx (drop_receiver (n'.channels h.rx)) }

  abbrev new_channel : Node T → ℕ × Node T
  new_channel n = (
    n.next_channel,
    record n {
      channels = update n.channels n.next_channel unbounded_channel;
      next_channel = n.next_channel + 1;
    },
  )

  -- `Wired::connect`; `wires` says whether the write of the id succeeds. When it fails the halves are dropped.
  unfoldable pub wired_connect : Bool → Node T → Result (ReadHalf × WriteHalf) × Node T
  wired_connect wires n =
      let id = (n.stream_id + 1) % 2 ^ 64 in
      let made = new_channel (record n { stream_id = id }) in
      let n1 = register_receiver (id, true) made.0 made.1 in
      let made' = new_channel n1 in
      let n2 = tell_helper (some (register_stream id true made'.0)) made'.1 in
      let h = halves id true made'.0 made.0 in
      if wires
      then (ok h, record n2 { announced = n2.announced ++ (id ∷ []) })
      else (err broken_pipe, drop_write_half h.1 (drop_read_half h.0 n2))

  -- `Unwired::connect`, with the id that it reads.
  unfoldable pub unwired_connect : Result ℕ → Node T → Result (ReadHalf × WriteHalf) × Node T
  unwired_connect (ok id) n =
      let made = new_channel n in
      let n1 = tell_wired (some (register_write_half id made.0)) made.1 in
      let made' = new_channel n1 in
      let n2 = tell_helper (some (register_stream id false made'.0)) made'.1 in
      (ok (halves id false made'.0 made.0), n2)
  unwired_connect undefined n = (undefined, n)
  unwired_connect panic n = (panic, n)
  unwired_connect (err kind) n = (err kind, n)

  -- `WiredHandle::send`: the event comes back when the task no longer receives.
  unfoldable pub handle_send : Option T → Node T → Option (Option T) × Node T
  handle_send message n =
      if n.inbox_open
      then (none, tell_wired (elim message [ none ↦ none | some m ↦ some (wired_event m) ]) n)
      else (some message, n)

  -- The end of `Unwired::run`, and what the task of `WiredServer::run` sends when the helper has ended too.
  abbrev pub end_unwired : Node T → Node T
  end_unwired n = tell_helper none n

  abbrev pub end_uwired_task : Node T → Node T
  end_uwired_task n = tell_wired none n
