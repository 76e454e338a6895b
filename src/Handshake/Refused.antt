-- ===== src/Handshake/Refused.antt =====
-- wiring/src/core/wire.rs, wiring/src/core/unwire.rs and wiring/src/core/mod.rs: streams of a wire that are refused,
-- that come late, or that a half of a split wire does not have.
use wiring.Base.{
  refl, ℕ, List, ◌<◌, Bool, Option, ◌^◌, ok, ◌++◌, ◌≡◌, some, err, [], addr_not_available, other,
  arith, ◌∷◌, true, unsupported, false, none, ◌==◌, broken_pipe, interrupted, flatten,
  not_connected, ErrorKind, ap, Result, ◌∙◌, subst, ◌≢◌, length, All, suc, zero,
}
use wiring.Bytes.{to_be_bytes}
use wiring.Connect.{ConnectInfo}
use wiring.Decode.Async.{u64_async_unwiring}
use wiring.Decode.Takes.{u64-Takes}
use wiring.Encode.Numbers.{u64_wiring}
use wiring.Handshake.{
  config_wire, wire_stream, unwire_stream, split_wire, listener_connect, ask_outgoing, ask_incoming,
  open_stream, incoming_writes,
}
use wiring.Handshake.Established.{answer, target_of, one_way_hello, one_way_bytes}
use wiring.Handshake.Hello.{FitsForward, incoming_written}
use wiring.Handshake.Reads.{
  Travels, hello_bytes, config_wire_reads, wire_stream_reads, incoming_asked, one_way_opens,
}
use wiring.Handshake.Talk.{
  Talk, Link, local_info, with_peer, new_stream, next_ok, lift, incoming_of, next,
}
use wiring.Listener.{WireStream, Peer, WireInfo, free_id, get, reply_error, Chances}
use wiring.Listener.Forward.{forward_refused}

u64_read :
    (n : ℕ) (more : List ℕ)
    → n < 2 ^ 64
    → u64_async_unwiring (to_be_bytes 8 n ++ more) ≡ ok (n, more)
u64_read n more small = u64-Takes n (omega (arith, small)) more

module _ {Stream Info : Type 0} where
  -- The id that the listener drew for a wire.
  abbrev pub id_of : WireStream Stream Info → Option ℕ
  id_of w = elim w.local [ none ↦ none | some l ↦ some l.0.wire_id ]

  -- Wires in their order, each with the id that the other end announces for it.
  abbrev pub Announced : List (ℕ × WireStream Stream Info) → Type 0
  Announced es = All (λ e. (e.0 < 2 ^ 64) × (id_of e.1 ≡ some e.0)) es

  abbrev pub announced_bytes : List (ℕ × WireStream Stream Info) → List ℕ → List ℕ
  announced_bytes [] rest = rest
  announced_bytes (e ∷ es) rest = to_be_bytes 8 e.0 ++ announced_bytes es rest

  -- An id is not the one announced before it.
  abbrev pub Apart : ℕ → List (ℕ × WireStream Stream Info) → Type 0
  Apart id [] = Unit {0}
  Apart id (e ∷ es) = (id ≢ e.0) × Apart e.0 es

  -- So many calls of `stream`, one after the other.
  abbrev pub call_streams :
      ℕ → List ℕ → Option (List (WireStream Stream Info)) → List (Result (WireStream Stream Info))
  call_streams zero b incoming = []
  call_streams (suc k) b incoming = let r = unwire_stream b incoming in r.0 ∷ call_streams k r.1 r.2

  abbrev pub wires_of : List (ℕ × WireStream Stream Info) → List (WireStream Stream Info)
  wires_of [] = []
  wires_of (e ∷ es) = e.1 ∷ wires_of es

  -- For each announced id the wire before it, and that such a wire does not have the id.
  abbrev pub one_behind :
      WireStream Stream Info
      → List (ℕ × WireStream Stream Info)
      → List (Result (WireStream Stream Info))
  one_behind w [] = []
  one_behind w (e ∷ es) = ok w ∷ one_behind e.1 es

  abbrev pub Mispaired : WireStream Stream Info → List (ℕ × WireStream Stream Info) → Type 0
  Mispaired w [] = Unit {0}
  Mispaired w (e ∷ es) = (id_of w ≢ some e.0) × Mispaired e.1 es

  calls_behind :
      (w : WireStream Stream Info) (es : List (ℕ × WireStream Stream Info)) (rest : List ℕ)
      → Announced es
      → call_streams (length es) (announced_bytes es rest) (some (w ∷ wires_of es))
        ≡ one_behind w es
  unfolding unwire_stream
  calls_behind w [] rest h = refl
  calls_behind w (e ∷ es) rest h =
      rw (u64_read e.0 (announced_bytes es rest) h.0.0, unwire_stream)
        (ap (◌∷◌ (ok w)) (calls_behind e.1 es rest h.1))

  Apart-Mispaired :
      (id : ℕ) (w : WireStream Stream Info) (es : List (ℕ × WireStream Stream Info))
      → id_of w ≡ some id
      → Announced es
      → Apart id es
      → Mispaired w es
  Apart-Mispaired id w [] own h apart = tt
  Apart-Mispaired id w (e ∷ es) own h apart =
      (λ same. let q : id ≡ e.0 = cc in apart.0 q, Apart-Mispaired e.0 e.1 es h.0.1 h.1 apart.1)

  -- If the id of the first of some wires is read before that wire is in the channel, stream fails
  -- with the kind Other and has taken the id, and once the wires are there, each further call reads
  -- the id of a wire and gives the wire before it, which has another id. Each wire has the id that
  -- its listener drew and the other end announces, ids fit 64 bits, and none is the id before it.
  pub late_wire_mispairs :
      (e : ℕ × WireStream Stream Info) (es : List (ℕ × WireStream Stream Info)) (rest : List ℕ)
      → Announced (e ∷ es)
      → Apart e.0 es
      → (unwire_stream {Stream = Stream} {Info = Info} (announced_bytes (e ∷ es) rest) (some [])
          ≡ (err other, announced_bytes es rest, some []))
        × (call_streams (length es) (announced_bytes es rest) (some (wires_of (e ∷ es)))
            ≡ one_behind e.1 es)
        × Mispaired e.1 es
  unfolding unwire_stream
  late_wire_mispairs e es rest h apart = (
    rw (u64_read e.0 (announced_bytes es rest) h.0.0, unwire_stream) refl,
    calls_behind e.1 es rest h.1,
    Apart-Mispaired e.0 e.1 es h.0.1 h.1 apart,
  )

module _ {Url R W Stream : Type 0} (as_str : Url → List ℕ) (valid_utf8 : List ℕ → Bool)
    (from_str : List ℕ → Option Url) where
  -- Of the halves of a split wire the one that reads keeps the local side and refuses to open a
  -- stream with AddrNotAvailable, and the one that writes keeps the peer and refuses to receive one
  -- with Unsupported, once it has read the id.
  pub split-roles :
      (r : R) (w : W) (wire : WireStream Stream (ConnectInfo Url)) (l : Link R (ConnectInfo Url))
      (t : Talk R (ConnectInfo Url)) (id : ℕ) (rest : List ℕ)
      → id < 2 ^ 64
      → (read : WireStream R (ConnectInfo Url)) × (write : WireStream W (ConnectInfo Url))
        × (split_wire (ok (r, w)) wire ≡ ok (read, write))
        × (read.local ≡ wire.local)
        × (write.peer ≡ wire.peer)
        × (wire_stream as_str valid_utf8 from_str l read.peer t ≡ some (err addr_not_available, t))
        × (unwire_stream {Stream = Stream} {Info = ConnectInfo Url}
              (to_be_bytes 8 id ++ rest)
              (incoming_of (λ c. []) write)
            ≡ (err unsupported, rest, none))
  unfolding split_wire wire_stream unwire_stream
  split-roles r w wire l t id rest small = (
    record { stream = r; local = wire.local; peer = none },
    record { stream = w; local = none; peer = wire.peer },
    refl,
    refl,
    refl,
    refl,
    rw (u64_read id rest small, unwire_stream) refl,
  )

module _ {Stream Url : Type 0} (as_str : Url → List ℕ) where
  outgoing_shut :
      (lost : ErrorKind) (s : Stream) (forward : Option (ℕ × ℕ)) (c : Chances)
      (t : Talk Stream (ConnectInfo Url))
      → t.listener.inbox_open ≡ false
      → ask_outgoing as_str lost s forward c t ≡ some (err lost, t)
  unfolding ask_outgoing
  outgoing_shut lost s forward c t shut = rw shut refl

  incoming_shut :
      (reply : Bool) (s : Stream) (remote : Option (WireInfo (ConnectInfo Url)))
      (forward : Option (ℕ × ℕ)) (c : Chances) (t : Talk Stream (ConnectInfo Url))
      → t.listener.inbox_open ≡ false
      → ask_incoming as_str reply s remote forward c t ≡ some (err not_connected, t)
  unfolding ask_incoming
  incoming_shut reply s remote forward c t shut = rw shut refl

module _ {Stream Url : Type 0} (as_str : Url → List ℕ) (valid_utf8 : List ℕ → Bool)
    (from_str : List ℕ → Option Url) (parses : (u : Url) → from_str (as_str u) ≡ some u) where
  -- If a listener has no wire with the id and the key that arrive, WireConfig::wire there ends in an
  -- error and the wire goes to no channel, but Wire::stream at the end that asked still gives a wire
  -- and announces the id that the listener drew, where that end has no listener and all writes
  -- succeed. The bytes that arrive at each end are what the other writes there, ids and keys fit 64
  -- and 128 bits, and a Url is parsed back from its text.
  pub refused-unseen :
      (l lc : Link Stream (ConnectInfo Url)) (s sc : Stream) (u t : Talk Stream (ConnectInfo Url))
      (id : ℕ) (is_open : u.listener.inbox_open ≡ true)
      (draw : free_id l.chances.wire_ids u.listener.wires ≡ some id)
      (writes : l.chances.info_error ≡ none) (p : Peer (ConnectInfo Url)) (rest rest' : List ℕ)
      → ((e : ℕ × ℕ)
          → get p.wire_info.wire_id u.listener.wires ≡ some e
          → (e.0 == p.wire_info.access_key) ≡ false)
      → p.has_handle ≡ false
      → lc.connects p.wire_info.connect_info ≡ ok sc
      → lc.hello_error ≡ none
      → lc.hello_forward_error ≡ none
      → lc.announce_error ≡ none
      → Travels as_str valid_utf8 from_str parses (local_info id l.chances u.listener)
      → FitsForward (target_of as_str valid_utf8 from_str parses l s u id is_open draw writes p)
      → t.arrives
        ≡ flatten (answer as_str valid_utf8 from_str parses l s u id is_open draw writes) ++ rest
      → u.arrives
        ≡ flatten (one_way_hello as_str valid_utf8 from_str parses l s u id is_open draw writes p)
          ++ rest'
      → (u' : Talk Stream (ConnectInfo Url)) × (k : ErrorKind) × (wire : WireStream Stream
          (ConnectInfo Url))
        × (t' : Talk Stream (ConnectInfo Url)) × (config_wire as_str valid_utf8 from_str l true
              (ok s)
              u
            ≡ some (err k, u'))
        × (u'.effects ≡ u.effects ++ (reply_error k ∷ []))
        × (wire_stream as_str valid_utf8 from_str lc (some p) t ≡ some (ok wire, t'))
        × (t'.announced ≡ t.announced ++ u64_wiring.async_wiring id)
  refused-unseen l lc s sc u t id is_open draw writes p rest rest' wrong one opens e1 e2 e3 travels
        fits e e' =
      let info = local_info id l.chances u.listener in
      let target : ℕ × ℕ = (p.wire_info.wire_id, p.wire_info.access_key) in
      let hello = one_way_hello as_str valid_utf8 from_str parses l s u id is_open draw writes p in
      let t1 = record t { written = t.written ++ hello } in
      let u1 = record u { arrives = rest' } in
      let (s', k, done, kept) =
        forward_refused s none target.0 target.1 id l.chances u.listener draw wrong in
      let u2 : Talk Stream (ConnectInfo Url) = record u1 {
        written = u.written ++ incoming_writes as_str info l.chances.info_error;
        listener = s';
        effects = u.effects ++ (reply_error k ∷ []);
      } in
      (
        u2,
        k,
        with_peer info p.has_handle (new_stream sc),
        record t1 { arrives = rest; announced = t.announced ++ u64_wiring.async_wiring id },
        config_wire_reads as_str valid_utf8 from_str parses l true s none (some target) rest' u
              (λ i h. cc) (λ f h. subst FitsForward (let same : target ≡ f = cc in same) fits)
              (e'
                ∙ one_way_bytes as_str valid_utf8 from_str parses l s u id is_open draw writes p
                    rest')
            ∙ incoming_asked as_str true s none (some target) l.chances u1 id s' _ is_open draw
                done,
        refl,
        wire_stream_reads as_str valid_utf8 from_str parses lc p sc (new_stream sc) info rest t t1
            opens e3 travels
            (ap (λ (b : Bool). open_stream as_str valid_utf8 from_str lc b sc (some target) t) one
              ∙ one_way_opens as_str valid_utf8 from_str parses lc sc (some target) t e1 e2)
            (e ∙ ap (λ (b : List ℕ). b ++ rest) (incoming_written as_str info)),
        refl,
      )

  -- Where the listener's inbox is closed and connect_stream succeeds, connect fails with BrokenPipe
  -- and stream of a wire that keeps the listener's handle with Interrupted, and neither writes
  -- anything; WireConfig::wire fails with NotConnected once it has read the two infos.
  pub closed_listener :
      (l : Link Stream (ConnectInfo Url)) (p : Peer (ConnectInfo Url)) (to : ConnectInfo Url)
      (s : Stream) (remote : Option (WireInfo (ConnectInfo Url))) (forward : Option (ℕ × ℕ))
      (rest : List ℕ) (t : Talk Stream (ConnectInfo Url))
      → t.listener.inbox_open ≡ false
      → l.connects to ≡ ok s
      → l.connects p.wire_info.connect_info ≡ ok s
      → p.has_handle ≡ true
      → ((i : WireInfo (ConnectInfo Url))
          → remote ≡ some i
          → Travels as_str valid_utf8 from_str parses i)
      → ((f : ℕ × ℕ) → forward ≡ some f → FitsForward f)
      → t.arrives ≡ hello_bytes as_str valid_utf8 from_str parses remote forward ++ rest
      → (listener_connect as_str valid_utf8 from_str l to t ≡ some (err broken_pipe, t))
        × (wire_stream as_str valid_utf8 from_str l (some p) t ≡ some (err interrupted, t))
        × (config_wire as_str valid_utf8 from_str l true (ok s) t
            ≡ some (err not_connected, record t { arrives = rest }))
  unfolding listener_connect wire_stream open_stream
  closed_listener l p to s remote forward rest t shut opens opens' handle travels fits e = (
    next_ok (lift (l.connects to)) _ s t t (ap (λ (r : Result Stream). some (r, t)) opens)
        ∙ ap (next _) (outgoing_shut as_str broken_pipe s none l.chances t shut),
    next_ok (lift (l.connects p.wire_info.connect_info)) _ s t t
          (ap (λ (r : Result Stream). some (r, t)) opens')
        ∙ ap (next _) (
            ap
              (λ (b : Bool).
                open_stream as_str valid_utf8 from_str l b s
                  (some (p.wire_info.wire_id, p.wire_info.access_key)) t)
              handle
            ∙ outgoing_shut as_str interrupted s _ l.chances t shut),
    config_wire_reads as_str valid_utf8 from_str parses l true s remote forward rest t travels fits
          e
        ∙ incoming_shut as_str true s remote forward l.chances (record t { arrives = rest }) shut,
  )
