-- ===== src/Handshake/Established.antt =====
-- wiring/src/core/wire.rs, wiring/src/core/unwire.rs and wiring/src/core/listener.rs: a call that sets up a wire and
-- the other end that answers it, each reading what the other writes.
use wiring.Decode.Takes.{u64-Takes}
use wiring.Base.{
  refl, ℕ, List, Bool, ◌∷◌, flatten, [], ◌≡◌, Option, some, true, none, ◌++◌, ok, ◌∙◌, subst, ap,
  ErrorKind, false, ◌<◌, ◌^◌, arith, sym, broken_pipe,
}
use wiring.Bytes.{to_be_bytes}
use wiring.Wire.{Writes}
use wiring.Connect.{ConnectInfo}
use wiring.Decode.Async.{u64_async_unwiring}
use wiring.Encode.NumberBytes.{u64-Encodes}
use wiring.Encode.Numbers.{u16_wiring, u8_wiring, u64_wiring}
use wiring.Handshake.{
  config_wire, incoming_writes, client_connect, unwire_stream, forward_writes, wire_stream,
  open_stream, outgoing_writes, listener_connect, ask_outgoing,
}
use wiring.Handshake.Hello.{FitsForward, incoming_written, forward_written, outgoing_written}
use wiring.Handshake.Reads.{
  Travels, hello_bytes, config_wire_reads, incoming_asked, client_connect_reads, wire_stream_reads,
  one_way_opens, outgoing_asked, listener_connect_reads,
}
use wiring.Handshake.Talk.{Talk, Link, local_info, with_peer, new_stream}
use wiring.Listener.{
  free_id, WireInfo, Listener, WireStream, Effect, get, new_wire, reply_wire, forwarded,
  reply_forwarded, Peer,
}
use wiring.Listener.Replies.{incoming_accepted, incoming_forwarded, outgoing_accepted}

abbrev pub no_hello : List ℕ
no_hello = 0 ∷ (0 ∷ [])

u16_zero : flatten (u16_wiring.async_wiring 0) ≡ no_hello
unfolding u16_wiring flatten to_be_bytes
u16_zero = refl

-- The end that is called has a listener, which draws `id` for the new wire and whose write of its `WireInfo` succeeds.
module _ {Stream Url : Type 0} (as_str : Url → List ℕ) (valid_utf8 : List ℕ → Bool)
    (from_str : List ℕ → Option Url) (parses : (u : Url) → from_str (as_str u) ≡ some u)
    (l : Link Stream (ConnectInfo Url)) (s : Stream) (u : Talk Stream (ConnectInfo Url)) (id : ℕ)
    (is_open : u.listener.inbox_open ≡ true)
    (draw : free_id l.chances.wire_ids u.listener.wires ≡ some id)
    (writes : l.chances.info_error ≡ none) where
  abbrev pub server_info : WireInfo (ConnectInfo Url)
  server_info = local_info id l.chances u.listener

  -- What it writes back.
  abbrev pub answer : Writes
  answer = incoming_writes as_str server_info none

  -- The wire that it makes, with the remote's `WireInfo` if there is one.
  abbrev pub server_wire : Option (WireInfo (ConnectInfo Url)) → WireStream Stream (ConnectInfo Url)
  server_wire remote = new_wire s id l.chances.access_key remote u.listener

  abbrev pub answered :
      List ℕ
      → Listener (ConnectInfo Url)
      → List (Effect Stream (ConnectInfo Url))
      → Talk Stream (ConnectInfo Url)
  answered rest s' es = record u {
    arrives = rest;
    written = u.written ++ answer;
    listener = s';
    effects = u.effects ++ es;
  }

  pub server-accepts :
      (remote : Option (WireInfo (ConnectInfo Url))) (rest : List ℕ)
      → ((i : WireInfo (ConnectInfo Url))
          → remote ≡ some i
          → Travels as_str valid_utf8 from_str parses i)
      → u.arrives ≡ hello_bytes as_str valid_utf8 from_str parses remote none ++ rest
      → (s' : Listener (ConnectInfo Url)) × (config_wire as_str valid_utf8 from_str l true (ok s) u
          ≡ some (
            ok (some (server_wire remote)),
            answered rest s' (reply_wire (server_wire remote) ∷ []),
          ))
        × (get id s'.wires ≡ some (l.chances.access_key, u.listener.next_channel))
  server-accepts remote rest travels e =
      let u1 = record u { arrives = rest } in
      let (s', done, entered) = incoming_accepted s l.chances id u.listener draw remote in
      (
        s',
        config_wire_reads as_str valid_utf8 from_str parses l true s remote none rest u travels
              (λ f h. cc) e
            ∙ incoming_asked as_str true s remote none l.chances u1 id s' _ is_open draw done
            ∙ ap
                (λ (o : Option ErrorKind). some (
                  ok (some (server_wire remote)),
                  record (answered rest s' (reply_wire (server_wire remote) ∷ [])) {
                    written = u.written ++ incoming_writes as_str server_info o;
                  },
                ))
                writes,
        entered,
      )

  pub server-forwards :
      (remote : Option (WireInfo (ConnectInfo Url))) (target : ℕ × ℕ) (ch : ℕ) (rest : List ℕ)
      → ((i : WireInfo (ConnectInfo Url))
          → remote ≡ some i
          → Travels as_str valid_utf8 from_str parses i)
      → FitsForward target
      → get target.0 u.listener.wires ≡ some (target.1, ch)
      → l.chances.receives ch ≡ true
      → u.arrives ≡ hello_bytes as_str valid_utf8 from_str parses remote (some target) ++ rest
      → (s' : Listener (ConnectInfo Url)) × (config_wire as_str valid_utf8 from_str l true (ok s) u
          ≡ some (
            ok none,
            answered rest s' (forwarded ch (server_wire remote) ∷ (reply_forwarded ∷ [])),
          ))
        × (s'.wires ≡ u.listener.wires)
  server-forwards remote target ch rest travels fits found alive e =
      let u1 = record u { arrives = rest } in
      let (s', done, kept) =
        incoming_forwarded s l.chances id u.listener draw remote target ch found alive in
      (
        s',
        config_wire_reads as_str valid_utf8 from_str parses l true s remote (some target) rest u
              travels (λ f h. subst FitsForward (let same : target ≡ f = cc in same) fits) e
            ∙ incoming_asked as_str true s remote (some target) l.chances u1 id s' _ is_open draw
                done
            ∙ ap
                (λ (o : Option ErrorKind). some (
                  ok none,
                  record (answered rest s'
                      (forwarded ch (server_wire remote) ∷ (reply_forwarded ∷ []))) {
                        written = u.written ++ incoming_writes as_str server_info o;
                      },
                ))
                writes,
        kept,
      )

  -- When a client connects to an end with a listener whose inbox is open and which draws an id, and
  -- the writes succeed, WireConfig::connect gives a wire whose peer is the id, the key and the
  -- address that the listener drew, WireConfig::wire at the listener's end gives a wire with no
  -- peer, and the listener has the id with that key in its table. The bytes that arrive at each end
  -- are what the other writes there, ids and keys fit 64 and 128 bits, and a Url is parsed back from
  -- its text.
  pub connect-established :
      (lc : Link Stream (ConnectInfo Url)) (to : ConnectInfo Url) (sc : Stream)
      (rest rest' : List ℕ) (t : Talk Stream (ConnectInfo Url))
      → lc.connects to ≡ ok sc
      → lc.hello_error ≡ none
      → Travels as_str valid_utf8 from_str parses server_info
      → t.arrives ≡ flatten answer ++ rest
      → u.arrives ≡ flatten (u16_wiring.async_wiring 0) ++ rest'
      → (s' : Listener (ConnectInfo Url)) × (client_connect as_str valid_utf8 from_str lc to t
          ≡ some (
            ok (with_peer server_info false (new_stream sc)),
            record t { arrives = rest; written = t.written ++ u16_wiring.async_wiring 0 },
          ))
        × (config_wire as_str valid_utf8 from_str l true (ok s) u
            ≡ some (
              ok (some (server_wire none)),
              answered rest' s' (reply_wire (server_wire none) ∷ []),
            ))
        × (get id s'.wires ≡ some (server_info.access_key, u.listener.next_channel))
  connect-established lc to sc rest rest' t opens sends travels e e' =
      let (s', served, entered) =
        server-accepts none rest' (λ i h. cc) (e' ∙ ap (λ (b : List ℕ). b ++ rest') u16_zero) in
      (
        s',
        client_connect_reads as_str valid_utf8 from_str parses lc to sc server_info rest t opens
            sends travels
            (e ∙ ap (λ (b : List ℕ). b ++ rest) (incoming_written as_str server_info)),
        served,
        entered,
      )

  abbrev pub target_of : Peer (ConnectInfo Url) → ℕ × ℕ
  target_of p = (p.wire_info.wire_id, p.wire_info.access_key)

  -- What a client with no listener writes first for a stream of a wire.
  abbrev pub one_way_hello : Peer (ConnectInfo Url) → Writes
  one_way_hello p = u8_wiring.async_wiring 0 ++ forward_writes (some (target_of p))

  pub one_way_bytes :
      (p : Peer (ConnectInfo Url)) (rest : List ℕ)
      → flatten (one_way_hello p) ++ rest
        ≡ hello_bytes as_str valid_utf8 from_str parses none (some (target_of p)) ++ rest
  unfolding u8_wiring flatten
  one_way_bytes p rest = ap (λ (b : List ℕ). 0 ∷ (b ++ rest)) (forward_written (some (target_of p)))

  announced_id :
      (more : List ℕ) (ws : List (WireStream Stream (ConnectInfo Url)))
      (wire : WireStream Stream (ConnectInfo Url))
      → id < 2 ^ 64
      → unwire_stream (flatten (u64_wiring.async_wiring id) ++ more) (some (wire ∷ ws))
        ≡ (ok wire, more, some ws)
  unfolding unwire_stream
  announced_id more ws wire small =
      let read : u64_async_unwiring (flatten (u64_wiring.async_wiring id) ++ more) ≡ ok (id, more) =
        ap (λ (b : List ℕ). u64_async_unwiring (b ++ more)) (u64-Encodes.async id)
        ∙ u64-Takes id (omega (arith, small)) more in
      rw (read, unwire_stream) refl

  -- Wire::stream of a wire whose peer has a listener, called by an end with none, gives a wire whose
  -- peer is the id, the key and the address that the listener drew, and announces that id on the
  -- wire; WireConfig::wire at the peer reads the id and key of the wire, the listener sends the new
  -- wire to the wire's channel, and stream there, which then finds the id and the wire first in its
  -- channel, gives that wire. The listener has the wire with that key and its receiver, its write
  -- and those of the caller succeed. The bytes that arrive at each end are what the other writes
  -- there, ids and keys fit 64 and 128 bits, and a Url is parsed back from its text.
  pub stream-established :
      (lc : Link Stream (ConnectInfo Url)) (p : Peer (ConnectInfo Url)) (sc : Stream) (ch : ℕ)
      (rest rest' more : List ℕ) (ws : List (WireStream Stream (ConnectInfo Url)))
      (t : Talk Stream (ConnectInfo Url))
      → p.has_handle ≡ false
      → lc.connects p.wire_info.connect_info ≡ ok sc
      → lc.hello_error ≡ none
      → lc.hello_forward_error ≡ none
      → lc.announce_error ≡ none
      → Travels as_str valid_utf8 from_str parses server_info
      → FitsForward (target_of p)
      → get p.wire_info.wire_id u.listener.wires ≡ some (p.wire_info.access_key, ch)
      → l.chances.receives ch ≡ true
      → t.arrives ≡ flatten answer ++ rest
      → u.arrives ≡ flatten (one_way_hello p) ++ rest'
      → (s' : Listener (ConnectInfo Url)) × (wire_stream as_str valid_utf8 from_str lc (some p) t
          ≡ some (
            ok (with_peer server_info p.has_handle (new_stream sc)),
            record t {
              arrives = rest;
              written = t.written ++ one_way_hello p;
              announced = t.announced ++ u64_wiring.async_wiring id;
            },
          ))
        × (config_wire as_str valid_utf8 from_str l true (ok s) u
            ≡ some (
              ok none,
              answered rest' s' (forwarded ch (server_wire none) ∷ (reply_forwarded ∷ [])),
            ))
        × (unwire_stream
              (flatten (u64_wiring.async_wiring id) ++ more)
              (some (server_wire none ∷ ws))
            ≡ (ok (server_wire none), more, some ws))
  stream-established lc p sc ch rest rest' more ws t one opens e1 e2 e3 travels fits found alive e
        e' =
      let t1 = record t { written = t.written ++ one_way_hello p } in
      let (s', served, kept) =
        server-forwards none (target_of p) ch rest' (λ i h. cc) fits found alive
          (e' ∙ one_way_bytes p rest') in
      (
        s',
        wire_stream_reads as_str valid_utf8 from_str parses lc p sc (new_stream sc) server_info rest
            t t1 opens e3 travels
            (ap
                (λ (b : Bool).
                  open_stream as_str valid_utf8 from_str lc b sc (some (target_of p)) t)
                one
              ∙ one_way_opens as_str valid_utf8 from_str parses lc sc (some (target_of p)) t e1 e2)
            (e ∙ ap (λ (b : List ℕ). b ++ rest) (incoming_written as_str server_info)),
        served,
        announced_id more ws (server_wire none) travels.0,
      )

  -- When an end with a listener connects to another, both with an open inbox and both drawing an id,
  -- and the writes succeed, each end has a wire whose peer is the id, the key and the address that
  -- the other end's listener drew, and each listener has its own id with its key in its table. The
  -- bytes that arrive at each end are what the other writes there, ids and keys fit 64 and 128 bits,
  -- and a Url is parsed back from its text.
  pub listeners-connected :
      (lc : Link Stream (ConnectInfo Url)) (to : ConnectInfo Url) (sc : Stream) (idc : ℕ)
      (rest rest' : List ℕ) (t : Talk Stream (ConnectInfo Url)) (hello : Writes)
      → lc.connects to ≡ ok sc
      → t.listener.inbox_open ≡ true
      → free_id lc.chances.wire_ids t.listener.wires ≡ some idc
      → lc.chances.info_error ≡ none
      → lc.chances.forward_error ≡ none
      → Travels as_str valid_utf8 from_str parses server_info
      → Travels as_str valid_utf8 from_str parses (local_info idc lc.chances t.listener)
      → outgoing_writes as_str (local_info idc lc.chances t.listener) none none none ≡ hello
      → t.arrives ≡ flatten answer ++ rest
      → u.arrives ≡ flatten hello ++ rest'
      → (sc' s' : Listener (ConnectInfo Url)) × (es : List (Effect Stream (ConnectInfo Url)))
        × (listener_connect as_str valid_utf8 from_str lc to t
            ≡ some (
              ok (
                  with_peer server_info true
                    (new_wire sc idc lc.chances.access_key none t.listener)),
              record t {
                arrives = rest;
                written = t.written ++ hello;
                listener = sc';
                effects = es;
              },
            ))
        × (config_wire as_str valid_utf8 from_str l true (ok s) u
            ≡ some (
              ok (some (server_wire (some (local_info idc lc.chances t.listener)))),
              answered rest' s'
                  (reply_wire (server_wire (some (local_info idc lc.chances t.listener))) ∷ []),
            ))
        × (get idc sc'.wires ≡ some (lc.chances.access_key, t.listener.next_channel))
        × (get id s'.wires ≡ some (l.chances.access_key, u.listener.next_channel))
  listeners-connected lc to sc idc rest rest' t hello opens c_open c_draw e1 e2 travels travels'
        wrote e e' =
      let mine = local_info idc lc.chances t.listener in
      let wire = new_wire sc idc lc.chances.access_key none t.listener in
      let (sc', done, entered) = outgoing_accepted sc lc.chances idc t.listener c_draw none e1 e2 in
      let es = t.effects ++ (reply_wire wire ∷ []) in
      let (s', served, entered') =
        server-accepts (some mine) rest'
          (λ i h.
            subst (Travels as_str valid_utf8 from_str parses) (let same : mine ≡ i = cc in same)
              travels')
          (e'
            ∙ ap (λ (ws : Writes). flatten ws ++ rest') (sym wrote)
            ∙ ap (λ (b : List ℕ). b ++ rest') (outgoing_written as_str mine none)) in
      let t1 = record t { written = t.written ++ hello; listener = sc'; effects = es } in
      let asked : ask_outgoing as_str broken_pipe sc none lc.chances t ≡ some (ok wire, t1) =
        outgoing_asked as_str broken_pipe sc none lc.chances t idc sc' _ c_open c_draw done
        ∙ ap
            (λ (o : Option ErrorKind × Option ErrorKind). some (
              ok wire,
              record t1 { written = t.written ++ outgoing_writes as_str mine o.0 o.1 none },
            ))
            (λ i. (e1 i, e2 i))
        ∙ ap (λ (ws : Writes). some (ok wire, record t1 { written = t.written ++ ws })) wrote in
      (
        sc',
        s',
        es,
        listener_connect_reads as_str valid_utf8 from_str parses lc to sc wire server_info rest t t1
            opens travels asked
            (e ∙ ap (λ (b : List ℕ). b ++ rest) (incoming_written as_str server_info)),
        served,
        entered,
        entered',
      )
