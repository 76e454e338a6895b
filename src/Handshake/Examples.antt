-- ===== src/Handshake/Examples.antt =====
-- Two ends on concrete streams: a caller, and a listener that draws the id 5 and the key 77.
use wiring.Base.{
  refl, ℕ, List, ok, arith, none, [], ◌∷◌, Bool, Option, ◌≡◌, true, some, flatten, ErrorKind, false,
  ◌++◌, err, other, sym, append-nil, Result, unsupported,
}
use wiring.Wire.{Writes}
use wiring.Config.{BufStream, opens, buf_split}
use wiring.Connect.{ConnectInfo, tcp_stream, url}
use wiring.Encode.Numbers.{u16_wiring, u8_wiring, u64_wiring}
use wiring.Handshake.{
  unwire_stream, wire_stream, client_connect, outgoing_writes, config_wire, listener_connect,
  incoming_writes, forward_writes,
}
use wiring.Handshake.Configs.{buffered_tcp, tcp-connects}
use wiring.Handshake.Established.{listeners-connected, connect-established, stream-established}
use wiring.Handshake.Reads.{Travels}
use wiring.Handshake.Refused.{
  late_wire_mispairs, refused-unseen, announced_bytes, call_streams, wires_of, one_behind,
  Mispaired,
}
use wiring.Handshake.Talk.{Talk, Link, with_peer, new_stream}
use wiring.Listener.{
  Listener, WireInfo, Chances, new_listener, Effect, Peer, WireStream, new_wire, reply_wire, get,
  reply_error, forwarded, reply_forwarded,
}

abbrev url_text : List ℕ → List ℕ
url_text u = u

abbrev any_text : List ℕ → Bool
any_text s = true

abbrev parse : List ℕ → Option (List ℕ)
parse s = some s

abbrev parses : (u : List ℕ) → parse (url_text u) ≡ some u
parses u = refl

abbrev Info : Type 0
Info = ConnectInfo (List ℕ)

abbrev here : Info
here = tcp_stream (104 ∷ [])

abbrev there : Info
there = tcp_stream (105 ∷ [])

abbrev draws : Chances
draws = record {
  wire_ids = 5 ∷ [];
  access_key = 77;
  info_error = none;
  forward_error = none;
  receives = λ ch. true;
  handles = true;
}

abbrev link : Link ℕ Info
link = record {
  connects = λ info. ok 9;
  hello_error = none;
  hello_forward_error = none;
  announce_error = none;
  chances = draws;
}

abbrev talk : List ℕ → Listener Info → Talk ℕ Info
talk bytes s = record { arrives = bytes; written = []; announced = []; listener = s; effects = [] }

abbrev fresh : Listener Info
fresh = new_listener here

abbrev info : WireInfo Info
info = record { wire_id = 5; access_key = 77; connect_info = here }

info-Travels : Travels url_text any_text parse parses info
info-Travels = (ground arith, ground arith, (refl, ground arith))

-- What the listener writes back, and what a client with no listener writes.
abbrev back : List ℕ
back = flatten (incoming_writes url_text info none)

abbrev caller : Talk ℕ Info
caller = talk back fresh

abbrev called : Talk ℕ Info
called = talk (flatten (u16_wiring.async_wiring 0)) fresh

abbrev server_side : Option (WireInfo Info) → WireStream ℕ Info
server_side remote = new_wire 8 5 77 remote fresh

connect-established_example :
    (s' : Listener Info) × (client_connect url_text any_text parse link there caller
      ≡ some (
        ok (with_peer info false (new_stream 9)),
        record caller { arrives = []; written = u16_wiring.async_wiring 0 },
      ))
    × (config_wire url_text any_text parse link true (ok 8) called
        ≡ some (
          ok (some (server_side none)),
          record called {
            arrives = [];
            written = incoming_writes url_text info none;
            listener = s';
            effects = reply_wire (server_side none) ∷ [];
          },
        ))
    × (get 5 s'.wires ≡ some (77, 0))
connect-established_example =
    connect-established url_text any_text parse parses link 8 called 5 refl refl refl link there 9
      [] [] caller refl refl info-Travels (sym (append-nil back)) (sym (append-nil _))

abbrev peer_of_wire : Peer Info
peer_of_wire = record {
  wire_info = record { wire_id = 4; access_key = 60; connect_info = here };
  has_handle = false;
}

-- A listener that has handed out the wire 4 with the key 60.
abbrev with_wire : Listener Info
with_wire = record fresh { wires = (4, (60, 3)) ∷ [] }

abbrev stream_hello : Writes
stream_hello = u8_wiring.async_wiring 0 ++ forward_writes (some (4, 60))

abbrev asked : Talk ℕ Info
asked = talk (flatten stream_hello) with_wire

stream-established_example :
    (s' : Listener Info) × (wire_stream url_text any_text parse link (some peer_of_wire) caller
      ≡ some (
        ok (with_peer info false (new_stream 9)),
        record caller {
          arrives = [];
          written = stream_hello;
          announced = u64_wiring.async_wiring 5;
        },
      ))
    × (config_wire url_text any_text parse link true (ok 8) asked
        ≡ some (
          ok none,
          record asked {
            arrives = [];
            written = incoming_writes url_text info none;
            listener = s';
            effects = forwarded 3 (new_wire 8 5 77 none with_wire) ∷ (reply_forwarded ∷ []);
          },
        ))
    × (unwire_stream {Stream = ℕ} {Info = Info}
          (flatten (u64_wiring.async_wiring 5) ++ (1 ∷ []))
          (some (new_wire 8 5 77 none with_wire ∷ []))
        ≡ (ok (new_wire 8 5 77 none with_wire), 1 ∷ [], some []))
stream-established_example =
    stream-established url_text any_text parse parses link 8 asked 5 refl refl refl link
      peer_of_wire 9 3 [] [] (1 ∷ []) [] caller refl refl refl refl refl info-Travels
      (ground arith, ground arith) refl refl (sym (append-nil back)) (sym (append-nil _))

abbrev listener_hello : Writes
listener_hello = outgoing_writes url_text info none none none

abbrev called_by_listener : Talk ℕ Info
called_by_listener = talk (flatten listener_hello) fresh

listeners-connected_example :
    (sc' s' : Listener Info) × (es : List (Effect ℕ Info)) × (listener_connect url_text any_text
        parse link there caller
      ≡ some (
        ok (with_peer info true (new_wire 9 5 77 none fresh)),
        record caller { arrives = []; written = listener_hello; listener = sc'; effects = es },
      ))
    × (config_wire url_text any_text parse link true (ok 8) called_by_listener
        ≡ some (
          ok (some (server_side (some info))),
          record called_by_listener {
            arrives = [];
            written = incoming_writes url_text info none;
            listener = s';
            effects = reply_wire (server_side (some info)) ∷ [];
          },
        ))
    × (get 5 sc'.wires ≡ some (77, 0))
    × (get 5 s'.wires ≡ some (77, 0))
listeners-connected_example =
    listeners-connected url_text any_text parse parses link 8 called_by_listener 5 refl refl refl
      link there 9 5 [] [] caller listener_hello refl refl refl refl refl info-Travels info-Travels
      refl (sym (append-nil back)) (sym (append-nil _))

-- The wires of the ids 5 and 6, of which the first comes late.
abbrev second_wire : WireStream ℕ Info
second_wire = record {
  stream = 7;
  local = some (record { wire_id = 6; access_key = 78; connect_info = here }, 1);
  peer = none;
}

abbrev late_wire : ℕ × WireStream ℕ Info
late_wire = (5, server_side none)

abbrev next_wires : List (ℕ × WireStream ℕ Info)
next_wires = (6, second_wire) ∷ []

late_wire_mispairs_example :
    (unwire_stream {Stream = ℕ} {Info = Info}
        (announced_bytes (late_wire ∷ next_wires) [])
        (some [])
      ≡ (err other, announced_bytes next_wires [], some []))
    × (call_streams 1 (announced_bytes next_wires []) (some (wires_of (late_wire ∷ next_wires)))
        ≡ one_behind late_wire.1 next_wires)
    × Mispaired late_wire.1 next_wires
unfolding new_wire
late_wire_mispairs_example =
    late_wire_mispairs late_wire next_wires [] ((ground arith, refl), ((ground arith, refl), tt))
      (λ e. omega (arith, e), tt)

abbrev asked_again : Talk ℕ Info
asked_again = talk (flatten stream_hello) fresh

refused-unseen_example :
    (u' : Talk ℕ Info) × (k : ErrorKind) × (wire : WireStream ℕ Info) × (t' : Talk ℕ Info)
    × (config_wire url_text any_text parse link true (ok 8) asked_again ≡ some (err k, u'))
    × (u'.effects ≡ reply_error k ∷ [])
    × (wire_stream url_text any_text parse link (some peer_of_wire) caller ≡ some (ok wire, t'))
    × (t'.announced ≡ u64_wiring.async_wiring 5)
refused-unseen_example =
    refused-unseen url_text any_text parse parses link link 8 9 asked_again caller 5 refl refl refl
      peer_of_wire [] [] (λ e h. cc) refl refl refl refl refl info-Travels
      (ground arith, ground arith) (sym (append-nil back)) (sym (append-nil _))

abbrev closed : Talk ℕ Info
closed = talk (flatten (u16_wiring.async_wiring 0)) (record fresh { inbox_open = false })

abbrev found : List ℕ → Result ℕ
found addr = ok 9

abbrev both_halves : ℕ → ℕ × ℕ
both_halves s = (s, s)

abbrev buffered_link : Link (BufStream ℕ ℕ) Info
buffered_link = record {
  connects = opens (buffered_tcp found both_halves 8192);
  hello_error = none;
  hello_forward_error = none;
  announce_error = none;
  chances = draws;
}

abbrev on_the_web : Peer Info
on_the_web = record {
  wire_info = record { wire_id = 5; access_key = 77; connect_info = url (104 ∷ []) };
  has_handle = true;
}

abbrev buffered_talk : Talk (BufStream ℕ ℕ) Info
buffered_talk = record {
  arrives = back;
  written = [];
  announced = [];
  listener = fresh;
  effects = [];
}

tcp-connects_example :
    ((stream : BufStream ℕ ℕ) × (buffered_link.connects (tcp_stream (104 ∷ [])) ≡ ok stream)
      × (buf_split stream
          ≡ ok (record { inner = 9; capacity = 8192 }, record { inner = 9; capacity = 8192 })))
    × (client_connect url_text any_text parse buffered_link (url (104 ∷ [])) buffered_talk
        ≡ some (err unsupported, buffered_talk))
    × (listener_connect url_text any_text parse buffered_link (url (104 ∷ [])) buffered_talk
        ≡ some (err unsupported, buffered_talk))
    × (wire_stream url_text any_text parse buffered_link (some on_the_web) buffered_talk
        ≡ some (err unsupported, buffered_talk))
tcp-connects_example =
    tcp-connects url_text any_text parse found both_halves 8192 (104 ∷ []) 9 (104 ∷ [])
      buffered_link on_the_web buffered_talk refl refl refl
