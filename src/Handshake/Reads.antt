-- ===== src/Handshake/Reads.antt =====
-- wiring/src/core/wire.rs: each call that sets up a wire, step by step, where its reads find what they expect.
use wiring.Base.{
  ℕ, List, ErrorKind, Bool, Option, ◌≡◌, some, ◌<◌, ◌++◌, ◌^◌, true, ok, ◌∙◌, if◌then◌else◌,
  append_assoc, none, refl, false, ap, Result, broken_pipe,
}
use wiring.Wire.{Writes}
use wiring.Format.{enc_option}
use wiring.Connect.{ConnectInfo, wire_info_unwiring}
use wiring.Connect.Codec.{enc_wire_info, wire_info-Takes, ReadsConnect}
use wiring.Decode.Async.{option_async_unwiring}
use wiring.Decode.Takes.{Takes, option-Takes}
use wiring.Encode.Numbers.{u16_wiring, u64_wiring, u8_wiring}
use wiring.Handshake.{
  config_wire, ask_incoming, ask_outgoing, outgoing_writes, incoming_writes, forward_unwiring,
  client_connect, wire_stream, open_stream, listener_connect, forward_writes,
}
use wiring.Handshake.Hello.{FitsForward, enc_forward, forward-Takes}
use wiring.Handshake.Talk.{
  then_ok, lift, send, announce, with_peer, new_stream, Talk, Link, recv, next_ok, recv-Takes,
  reply_of, incoming_reply_of, local_info,
}
use wiring.Listener.{
  Chances, WireInfo, Listener, Effect, free_id, handle, incoming_wire, outgoing_wire, Peer,
  WireStream,
}

module _ {Stream Url : Type 0} (as_str : Url → List ℕ) where
  pub incoming_asked :
      (reply : Bool) (s : Stream) (remote : Option (WireInfo (ConnectInfo Url)))
      (forward : Option (ℕ × ℕ)) (c : Chances) (u : Talk Stream (ConnectInfo Url)) (id : ℕ)
      (l' : Listener (ConnectInfo Url)) (es : List (Effect Stream (ConnectInfo Url)))
      → u.listener.inbox_open ≡ true
      → free_id c.wire_ids u.listener.wires ≡ some id
      → handle (incoming_wire s remote forward reply) c u.listener ≡ some (l', es)
      → ask_incoming as_str reply s remote forward c u
        ≡ some (
          if reply then incoming_reply_of es else ok none,
          record u {
            written = u.written ++ incoming_writes as_str (local_info id c u.listener) c.info_error;
            listener = l';
            effects = u.effects ++ es;
          },
        )
  unfolding ask_incoming
  incoming_asked reply s remote forward c u id l' es is_open draw done =
      rw (done, draw, is_open) refl

  pub outgoing_asked :
      (lost : ErrorKind) (s : Stream) (forward : Option (ℕ × ℕ)) (c : Chances)
      (u : Talk Stream (ConnectInfo Url)) (id : ℕ) (l' : Listener (ConnectInfo Url))
      (es : List (Effect Stream (ConnectInfo Url)))
      → u.listener.inbox_open ≡ true
      → free_id c.wire_ids u.listener.wires ≡ some id
      → handle (outgoing_wire s forward) c u.listener ≡ some (l', es)
      → ask_outgoing as_str lost s forward c u
        ≡ some (
          reply_of lost es,
          record u {
            written =
                u.written
                ++ outgoing_writes as_str
                    (local_info id c u.listener)
                    c.info_error
                    c.forward_error
                    forward;
            listener = l';
            effects = u.effects ++ es;
          },
        )
  unfolding ask_outgoing
  outgoing_asked lost s forward c u id l' es is_open draw done = rw (done, draw, is_open) refl

module _ {Url : Type 0} (as_str : Url → List ℕ) (valid_utf8 : List ℕ → Bool)
    (from_str : List ℕ → Option Url) (parses : (u : Url) → from_str (as_str u) ≡ some u) where
  -- A `WireInfo` that goes over a stream and back.
  abbrev pub Travels : WireInfo (ConnectInfo Url) → Type 0
  Travels i =
      (i.wire_id < 2 ^ 64)
      × (i.access_key < 2 ^ 128)
      × ReadsConnect as_str valid_utf8 from_str parses i.connect_info

  pub info-Takes :
      (i : WireInfo (ConnectInfo Url))
      → Travels i
      → Takes (wire_info_unwiring valid_utf8 from_str) i (enc_wire_info as_str i)
  info-Takes i h = wire_info-Takes as_str valid_utf8 from_str parses i h.0 h.1 h.2

  -- What a server reads first of a new stream.
  abbrev pub hello_bytes : Option (WireInfo (ConnectInfo Url)) → Option (ℕ × ℕ) → List ℕ
  hello_bytes remote forward =
      enc_option (enc_wire_info as_str) remote ++ enc_option enc_forward forward

module _ {Stream Url : Type 0} (as_str : Url → List ℕ) (valid_utf8 : List ℕ → Bool)
    (from_str : List ℕ → Option Url) (parses : (u : Url) → from_str (as_str u) ≡ some u) where
  pub config_wire_reads :
      (l : Link Stream (ConnectInfo Url)) (reply : Bool) (s : Stream)
      (remote : Option (WireInfo (ConnectInfo Url))) (forward : Option (ℕ × ℕ)) (rest : List ℕ)
      (u : Talk Stream (ConnectInfo Url))
      → ((i : WireInfo (ConnectInfo Url))
          → remote ≡ some i
          → Travels as_str valid_utf8 from_str parses i)
      → ((f : ℕ × ℕ) → forward ≡ some f → FitsForward f)
      → u.arrives ≡ hello_bytes as_str valid_utf8 from_str parses remote forward ++ rest
      → config_wire as_str valid_utf8 from_str l reply (ok s) u
        ≡ ask_incoming as_str reply s remote forward l.chances (record u { arrives = rest })
  unfolding config_wire
  config_wire_reads l reply s remote forward rest u travels fits e =
      let mid = enc_option enc_forward forward ++ rest in
      let u1 = record u { arrives = mid } in
      let first = enc_option (enc_wire_info as_str) remote in
      next_ok (recv (option_async_unwiring (wire_info_unwiring valid_utf8 from_str))) _ remote u u1
        (recv-Takes (option_async_unwiring (wire_info_unwiring valid_utf8 from_str)) remote first
          mid u
          (option-Takes (wire_info_unwiring valid_utf8 from_str) (enc_wire_info as_str) remote
            (λ i h. info-Takes as_str valid_utf8 from_str parses i (travels i h)))
          (e ∙ append_assoc first (enc_option enc_forward forward) rest))
      ∙ next_ok (recv forward_unwiring) _ forward u1 (record u { arrives = rest })
          (recv-Takes forward_unwiring forward (enc_option enc_forward forward) rest u1
            (forward-Takes forward fits) refl)

  pub client_connect_reads :
      (l : Link Stream (ConnectInfo Url)) (to : ConnectInfo Url) (s : Stream)
      (remote : WireInfo (ConnectInfo Url)) (rest : List ℕ) (t : Talk Stream (ConnectInfo Url))
      → l.connects to ≡ ok s
      → l.hello_error ≡ none
      → Travels as_str valid_utf8 from_str parses remote
      → t.arrives ≡ enc_wire_info as_str remote ++ rest
      → client_connect as_str valid_utf8 from_str l to t
        ≡ some (
          ok (with_peer remote false (new_stream s)),
          record t { arrives = rest; written = t.written ++ u16_wiring.async_wiring 0 },
        )
  unfolding client_connect
  client_connect_reads l to s remote rest t opens sends travels e =
      let t1 = record t { written = t.written ++ u16_wiring.async_wiring 0 } in
      next_ok (lift (l.connects to)) _ s t t (ap (λ (r : Result Stream). some (r, t)) opens)
      ∙ then_ok (send l.hello_error (u16_wiring.async_wiring 0)) _ t t1
          (ap (λ (o : Option ErrorKind). send o (u16_wiring.async_wiring 0) t) sends)
      ∙ next_ok (recv (wire_info_unwiring valid_utf8 from_str)) _ remote t1
          (record t1 { arrives = rest })
          (recv-Takes (wire_info_unwiring valid_utf8 from_str) remote (enc_wire_info as_str remote)
            rest t1 (info-Takes as_str valid_utf8 from_str parses remote travels) e)

  pub wire_stream_reads :
      (l : Link Stream (ConnectInfo Url)) (p : Peer (ConnectInfo Url)) (s : Stream)
      (wire : WireStream Stream (ConnectInfo Url)) (remote : WireInfo (ConnectInfo Url))
      (rest : List ℕ) (t t1 : Talk Stream (ConnectInfo Url))
      → l.connects p.wire_info.connect_info ≡ ok s
      → l.announce_error ≡ none
      → Travels as_str valid_utf8 from_str parses remote
      → open_stream as_str valid_utf8 from_str l p.has_handle s
          (some (p.wire_info.wire_id, p.wire_info.access_key))
          t
        ≡ some (ok wire, t1)
      → t1.arrives ≡ enc_wire_info as_str remote ++ rest
      → wire_stream as_str valid_utf8 from_str l (some p) t
        ≡ some (
          ok (with_peer remote p.has_handle wire),
          record t1 {
            arrives = rest;
            announced = t1.announced ++ u64_wiring.async_wiring remote.wire_id;
          },
        )
  unfolding wire_stream
  wire_stream_reads l p s wire remote rest t t1 opens announces travels opened e =
      let t2 = record t1 { arrives = rest } in
      let id_writes = u64_wiring.async_wiring remote.wire_id in
      next_ok (lift (l.connects p.wire_info.connect_info)) _ s t t
        (ap (λ (r : Result Stream). some (r, t)) opens)
      ∙ next_ok
          (open_stream as_str valid_utf8 from_str l p.has_handle s
            (some (p.wire_info.wire_id, p.wire_info.access_key)))
          _ wire t t1 opened
      ∙ next_ok (recv (wire_info_unwiring valid_utf8 from_str)) _ remote t1 t2 (
          recv-Takes (wire_info_unwiring valid_utf8 from_str) remote (enc_wire_info as_str remote)
            rest t1 (info-Takes as_str valid_utf8 from_str parses remote travels) e)
      ∙ then_ok (announce l.announce_error id_writes) _ t2
          (record t2 { announced = t2.announced ++ id_writes })
          (ap (λ (o : Option ErrorKind). announce o id_writes t2) announces)

  pub listener_connect_reads :
      (l : Link Stream (ConnectInfo Url)) (to : ConnectInfo Url) (s : Stream)
      (wire : WireStream Stream (ConnectInfo Url)) (remote : WireInfo (ConnectInfo Url))
      (rest : List ℕ) (t t1 : Talk Stream (ConnectInfo Url))
      → l.connects to ≡ ok s
      → Travels as_str valid_utf8 from_str parses remote
      → ask_outgoing as_str broken_pipe s none l.chances t ≡ some (ok wire, t1)
      → t1.arrives ≡ enc_wire_info as_str remote ++ rest
      → listener_connect as_str valid_utf8 from_str l to t
        ≡ some (ok (with_peer remote true wire), record t1 { arrives = rest })
  unfolding listener_connect
  listener_connect_reads l to s wire remote rest t t1 opens travels asked e =
      next_ok (lift (l.connects to)) _ s t t (ap (λ (r : Result Stream). some (r, t)) opens)
      ∙ next_ok (ask_outgoing as_str broken_pipe s none l.chances) _ wire t t1 asked
      ∙ next_ok (recv (wire_info_unwiring valid_utf8 from_str)) _ remote t1
          (record t1 { arrives = rest })
          (recv-Takes (wire_info_unwiring valid_utf8 from_str) remote (enc_wire_info as_str remote)
            rest t1 (info-Takes as_str valid_utf8 from_str parses remote travels) e)

  pub one_way_opens :
      (l : Link Stream (ConnectInfo Url)) (s : Stream) (forward : Option (ℕ × ℕ))
      (t : Talk Stream (ConnectInfo Url))
      → l.hello_error ≡ none
      → l.hello_forward_error ≡ none
      → open_stream as_str valid_utf8 from_str l false s forward t
        ≡ some (
          ok (new_stream s),
          record t { written = t.written ++ (u8_wiring.async_wiring 0 ++ forward_writes forward) },
        )
  unfolding open_stream
  one_way_opens l s forward t sends sends' =
      let t1 = record t { written = t.written ++ u8_wiring.async_wiring 0 } in
      then_ok (send l.hello_error (u8_wiring.async_wiring 0)) _ t t1
        (ap (λ (o : Option ErrorKind). send o (u8_wiring.async_wiring 0) t) sends)
      ∙ then_ok (send l.hello_forward_error (forward_writes forward)) _ t1
          (record t1 { written = t1.written ++ forward_writes forward })
          (ap (λ (o : Option ErrorKind). send o (forward_writes forward) t1) sends')
      ∙ ap (λ (ws : Writes). some (ok (new_stream s), record t { written = ws }))
          (append_assoc t.written (u8_wiring.async_wiring 0) (forward_writes forward))
