-- ===== src/Wired/Examples.antt =====
-- Concrete runs of the server of wiring/src/core/wired.rs.
use wiring.Wired.Handlers.{EventChannel, handle_events, option_handle_event, sender_handle_event}
use wiring.Wired.Sent.{send_events, events-arrive}
use wiring.Base.{
  flatten, ℕ, ◌+◌, ◌^◌, ◌<◌, ◌≡◌, refl, true, false, none, some, List, [], ◌∷◌, ◌++◌, arith, ok,
  ◌%◌, take,
}
use wiring.Wired.{
  register_receiver, Node, wired_drop, run_helper, run_wired, wiring_drop, receive, wired_step,
}
use wiring.Wired.Channels.{unbounded_channel}
use wiring.Wired.Closing.{flushed_before_drop}
use wiring.Wired.Delivery.{rounds, receive_all, flushed, messages_arrive, messages_of}
use wiring.Wired.Drops.{after_drop, dropped, remote_drop}
use wiring.Wired.Ending.{Sends, Rounds, others-Send}
use wiring.Wired.Halves.{
  poll_flush, WriteHalf, wired_connect, ReadHalf, new_cursor, new_node, unwired_connect,
  handle_send, drop_write_half, drop_read_half,
}
use wiring.Wired.Ids.{connects, Reachable, fresh_id, started}
use wiring.Wired.Opened.{connect-delivers}
use wiring.Wired.Reading.{poll_reads, one_message_only, poll_writes, total}
use wiring.Wired.Server.{shutdown, run_server, TaskAct, clone_handle}
use wiring.Wired.Shutdown.{shutdown-ends}
use wiring.Wired.Streams.{lookup}

abbrev two_messages : List (List ℕ)
two_messages = (1 ∷ []) ∷ ((2 ∷ (3 ∷ [])) ∷ [])

-- A node whose stream (5, true) has two messages that are flushed, and the node at the other end.
abbrev sender : Node ℕ
sender = record new_node {
  streams = ((5, true), 3) ∷ [];
  channels = λ c. record unbounded_channel { messages = two_messages };
  inbox = flushed 5 true two_messages;
}

abbrev receiver : Node ℕ
receiver = record new_node { streams = ((5, false), 7) ∷ []; senders = ((5, false), 4) ∷ [] }

messages_arrive_example :
    ((rounds run_helper 2
        (receive_all (rounds (run_wired true) 2 sender).written receiver)).channels
      4).messages
    ≡ two_messages
messages_arrive_example =
    messages_arrive 5 true 4 3 two_messages sender receiver refl refl refl refl refl refl refl refl

abbrev connected : Node ℕ
connected = (wired_connect true new_node).1

connected_small : connected.stream_id + 1 < 2 ^ 64
unfolding wired_connect register_receiver
connected_small = ground arith

connected-Reachable : Reachable connected
connected-Reachable = connects true new_node (ground arith) started

fresh_id_example :
    (lookup ((wired_connect true connected).1.stream_id, true) connected.streams ≡ none)
    × ((wired_connect true connected).1.announced
        ≡ connected.announced ++ ((connected.stream_id + 1) ∷ []))
fresh_id_example = fresh_id connected connected-Reachable connected_small

remote_drop_example : after_drop 5 false 7 4 receiver true ≡ dropped 5 false 7 4 receiver
remote_drop_example = remote_drop 5 false 7 4 receiver true refl refl

abbrev reader : ReadHalf
reader = record { read_id = 5; read_local = false; read_buf = new_cursor []; rx = 4 }

one_message_only_example :
    poll_reads (1 ∷ (8 ∷ [])) reader (λ c. record unbounded_channel { messages = two_messages })
    ≡ some (1 ∷ [])
one_message_only_example =
    one_message_only (1 ∷ []) ((2 ∷ (3 ∷ [])) ∷ []) 1 (8 ∷ []) reader
      (λ c. record unbounded_channel { messages = two_messages }) refl refl (ground arith)

abbrev writer : WriteHalf
writer = record { write_id = 5; write_local = true; write_buf = new_cursor []; tx = 3 }

abbrev open_node : Node ℕ
open_node = new_node

abbrev closing : Node ℕ
closing = record sender {
  inbox = flushed 5 true two_messages ++ (some (wired_drop 5 true true) ∷ []);
}

flushed_before_drop_example :
    (run_wired true (rounds (run_wired true) 2 closing)).written
    ≡ (closing.written ++ messages_of 5 true two_messages) ++ (wiring_drop 5 false ∷ [])
flushed_before_drop_example = flushed_before_drop 5 true 3 two_messages closing refl refl refl

-- The server is shut down while a drop is in its inbox, and another comes behind the end.
abbrev stopping : Node ℕ
stopping = record new_node { inbox = some (wired_drop 5 true true) ∷ [] }

abbrev stopped : Node ℕ
stopped = (shutdown run_server stopping).2

abbrev told : Node ℕ
told = run_wired true (run_wired true (drop_read_half reader stopped))

shutdown-ends_example :
    ((run_wired true told).inbox ≡ [])
    × ((run_wired true told).inbox_open ≡ false)
    × ((shutdown run_server stopping).0 ≡ TaskAct.wait_wired ∷ (TaskAct.wait_unwired ∷ []))
    × ((shutdown (clone_handle run_server) stopping).0 ≡ [])
unfolding run_wired wired_step shutdown run_server handle_send
shutdown-ends_example =
    shutdown-ends {m = told} run_server stopping refl
      (Rounds.others {m = drop_read_half reader stopped}
        (some (wired_drop 5 false true) ∷ [], refl, refl)
        (Rounds.round true (Rounds.round true (Rounds.none_left told))))
      (omega arith) (Rounds.round true (Rounds.none_left (run_wired true told))) (omega arith)

others-Send_example :
    Sends open_node (wired_connect true open_node).1
    × Sends open_node (unwired_connect (ok 5) open_node).1
    × Sends open_node (run_helper open_node)
    × Sends open_node (receive (wiring_drop 5 true) open_node)
    × Sends open_node (handle_send (some 3) open_node).1
    × Sends open_node (poll_flush writer open_node).2
    × Sends open_node (drop_write_half writer open_node)
    × Sends open_node (drop_read_half reader open_node)
others-Send_example = others-Send true (ok 5) (wiring_drop 5 true) (some 3) writer reader open_node

connect-delivers_example :
    let id = (open_node.stream_id + 1) % 2 ^ 64 in
    let opened = (wired_connect true open_node).1 in
    let accepted = (unwired_connect (ok id) open_node).1 in
    (mine theirs : ReadHalf × WriteHalf) × ((wired_connect true open_node).0 ≡ ok mine)
    × ((unwired_connect (ok id) open_node).0 ≡ ok theirs)
    × (let sent =
          (run_wired true (poll_flush (poll_writes two_messages mine.1) opened).2).written in
        let arrived = rounds run_helper 2 (receive_all sent accepted) in
        poll_reads (2 ∷ (8 ∷ [])) theirs.0 arrived.channels
        ≡ some (take (total (2 ∷ (8 ∷ []))) (flatten two_messages)))
unfolding flatten
connect-delivers_example =
    connect-delivers open_node open_node two_messages 2 (8 ∷ []) started (ground arith) refl refl
      refl refl refl refl (ground arith)

abbrev listening : EventChannel ℕ
listening = record { sent = 8 ∷ []; receiver_held = true }

events-arrive_example :
    let stopped = (shutdown run_server (send_events (4 ∷ (6 ∷ [])) open_node)).2 in
    let wire = (run_wired true (rounds (run_wired true) 2 stopped)).written in
    handle_events
      (option_handle_event sender_handle_event)
      (receive_all wire open_node).handled
      (some listening)
    ≡ some (record listening { sent = listening.sent ++ (4 ∷ (6 ∷ [])) })
events-arrive_example =
    events-arrive run_server (4 ∷ (6 ∷ [])) open_node open_node listening refl refl refl refl refl
