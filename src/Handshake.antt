-- ===== src/Handshake.antt =====
-- wiring/src/core/wire.rs, wiring/src/core/unwire.rs and wiring/src/core/listener.rs: how wires are set up, between two
-- ends that each may have a listener. Handshake/Talk has the state that a call runs on.
pub mod Talk
pub mod Hello
pub mod Reads
pub mod Established
pub mod Refused
pub mod Configs
mod Examples
use wiring.Base.{
  ℕ, Result, Option, List, ErrorKind, Bool, err, ok, some, none, [], if◌then◌else◌, interrupted,
  addr_not_available, undefined, unsupported, ◌++◌, panic, other, ◌∷◌, not_connected, broken_pipe,
  true, false, true,
}
use wiring.Wire.{Writes}
use wiring.Connect.{ConnectInfo, wire_info_wiring, wire_info_unwiring}
use wiring.Decode.Async.{
  AsyncUnwiring, u64_async_unwiring, option_async_unwiring, pair_async_unwiring,
  u128_async_unwiring,
}
use wiring.Encode.Containers.{option_wiring, pair_wiring}
use wiring.Encode.Numbers.{u64_wiring, u128_wiring, u16_wiring, u8_wiring}
use wiring.Listener.{
  WireStream, WireInfo, Chances, Peer, handle, outgoing_wire, incoming_wire, free_id,
}
use wiring.Handshake.Talk.*

module _ {Stream Info : Type 0} where
  -- `Unwire::stream` of a `WireStream`: the bytes that arrive on it, and the wires that have been forwarded to its
  -- channel, if it has a local side.
  unfoldable pub unwire_stream :
      List ℕ
      → Option (List (WireStream Stream Info))
      → Result (WireStream Stream Info) × List ℕ × Option (List (WireStream Stream Info))
  unfolding u64_async_unwiring
  unwire_stream b incoming = elim (u64_async_unwiring b) [
    | undefined ↦ (undefined, [], incoming)
    | panic ↦ (panic, [], incoming)
    | err kind ↦ (err kind, [], incoming)
    | ok p ↦ elim incoming [
      | none ↦ (err unsupported, p.1, none)
      | some wires ↦ elim wires [
        | [] ↦ (err other, p.1, some [])
        | wire ∷ rest ↦ (ok wire, p.1, some rest)
      ]
    ]
  ]

  -- `split` of a `WireStream`, with the two parts of its stream.
  unfoldable pub split_wire :
      {R W : Type 0}
      → Result (R × W)
      → WireStream Stream Info
      → Result (WireStream R Info × WireStream W Info)
  split_wire undefined wire = undefined
  split_wire panic wire = panic
  split_wire (err kind) wire = err kind
  split_wire (ok (r, w)) wire = ok (
    record { stream = r; local = wire.local; peer = none },
    record { stream = w; local = none; peer = wire.peer },
  )

-- `forward_info` as it goes over a stream.
pub forward_writes : Option (ℕ × ℕ) → Writes
forward_writes forward = (option_wiring (pair_wiring u64_wiring u128_wiring)).async_wiring forward

pub forward_unwiring : AsyncUnwiring (Option (ℕ × ℕ))
forward_unwiring =
    option_async_unwiring (pair_async_unwiring u64_async_unwiring u128_async_unwiring)

module _ {Url : Type 0} (as_str : Url → List ℕ) where
  -- What the listener writes to the stream of an OutgoingWire, up to the write that fails.
  pub outgoing_writes :
      WireInfo (ConnectInfo Url) → Option ErrorKind → Option ErrorKind → Option (ℕ × ℕ) → Writes
  outgoing_writes info (some e) forward_error forward = []
  outgoing_writes info none (some e) forward =
      (option_wiring (wire_info_wiring as_str)).wiring_ref (some info)
  outgoing_writes info none none forward =
      (option_wiring (wire_info_wiring as_str)).wiring_ref (some info) ++ forward_writes forward

  -- And to that of an Incomingwire, whose error it ignores.
  pub incoming_writes : WireInfo (ConnectInfo Url) → Option ErrorKind → Writes
  incoming_writes info (some e) = []
  incoming_writes info none = (wire_info_wiring as_str).wiring_ref info

module _ {Stream Url : Type 0} (as_str : Url → List ℕ) where
  -- An OutgoingWire is sent to the listener of this end and its reply awaited; `lost` is the error when there is none.
  pub ask_outgoing :
      ErrorKind
      → Stream
      → Option (ℕ × ℕ)
      → Chances
      → Setup Stream (ConnectInfo Url) (WireStream Stream (ConnectInfo Url))
  unfolding outgoing_writes
  ask_outgoing lost stream forward c t =
      if t.listener.inbox_open
      then (elim (handle (outgoing_wire stream forward) c t.listener) [
        | none ↦ none
        | some (s, es) ↦ elim (free_id c.wire_ids t.listener.wires) [
          | none ↦ none
          | some id ↦ some (
            reply_of lost es,
            record t {
              written =
                  t.written
                  ++ outgoing_writes as_str (local_info id c t.listener) c.info_error
                      c.forward_error forward;
              listener = s;
              effects = t.effects ++ es;
            },
          )
        ]
      ])
      else some (err lost, t)

  -- An Incomingwire; `reply` says whether it has a handle for its reply.
  pub ask_incoming :
      Bool
      → Stream
      → Option (WireInfo (ConnectInfo Url))
      → Option (ℕ × ℕ)
      → Chances
      → Setup Stream (ConnectInfo Url) (Option (WireStream Stream (ConnectInfo Url)))
  unfolding incoming_writes
  ask_incoming reply stream remote forward c t =
      if t.listener.inbox_open
      then (elim (handle (incoming_wire stream remote forward reply) c t.listener) [
        | none ↦ none
        | some (s, es) ↦ elim (free_id c.wire_ids t.listener.wires) [
          | none ↦ none
          | some id ↦ some (
            if reply then incoming_reply_of es else ok none,
            record t {
              written =
                  t.written ++ incoming_writes as_str (local_info id c t.listener) c.info_error;
              listener = s;
              effects = t.effects ++ es;
            },
          )
        ]
      ])
      else some (err not_connected, t)

module _ {Stream Url : Type 0} (as_str : Url → List ℕ) (valid_utf8 : List ℕ → Bool)
    (from_str : List ℕ → Option Url) (l : Link Stream (ConnectInfo Url)) where
  -- `WireConfig::connect` of a client.
  pub client_connect :
      ConnectInfo Url → Setup Stream (ConnectInfo Url) (WireStream Stream (ConnectInfo Url))
  client_connect info = do
    stream ← lift (l.connects info)
    send l.hello_error (u16_wiring.async_wiring 0)
    remote ← recv (wire_info_unwiring valid_utf8 from_str)
    lift (ok (with_peer remote false (new_stream stream)))

  -- `WireConfig::connect` where a listener runs.
  pub listener_connect :
      ConnectInfo Url → Setup Stream (ConnectInfo Url) (WireStream Stream (ConnectInfo Url))
  unfolding ask_outgoing
  listener_connect info = do
    stream ← lift (l.connects info)
    wire ← ask_outgoing as_str broken_pipe stream none l.chances
    remote ← recv (wire_info_unwiring valid_utf8 from_str)
    lift (ok (with_peer remote true wire))

  -- `WireConfig::wire::<RETURN>`, with the stream that `enhance_stream` gives.
  pub config_wire :
      Bool
      → Result Stream
      → Setup Stream (ConnectInfo Url) (Option (WireStream Stream (ConnectInfo Url)))
  unfolding ask_incoming forward_unwiring
  config_wire reply enhanced = do
    stream ← lift enhanced
    remote ← recv (option_async_unwiring (wire_info_unwiring valid_utf8 from_str))
    forward ← recv forward_unwiring
    ask_incoming as_str reply stream remote forward l.chances

  -- The new stream of `Wire::stream`, through the listener of this end or with none.
  pub open_stream :
      Bool
      → Stream
      → Option (ℕ × ℕ)
      → Setup Stream (ConnectInfo Url) (WireStream Stream (ConnectInfo Url))
  unfolding ask_outgoing forward_writes
  open_stream true stream forward = ask_outgoing as_str interrupted stream forward l.chances
  open_stream false stream forward = do
    send l.hello_error (u8_wiring.async_wiring 0)
    send l.hello_forward_error (forward_writes forward)
    lift (ok (new_stream stream))

  -- `Wire::stream` of a `WireStream`, by its peer.
  pub wire_stream :
      Option (Peer (ConnectInfo Url))
      → Setup Stream (ConnectInfo Url) (WireStream Stream (ConnectInfo Url))
  unfolding open_stream
  wire_stream none = lift (err addr_not_available)
  wire_stream (some p) = do
    stream ← lift (l.connects p.wire_info.connect_info)
    wire ← open_stream p.has_handle stream (some (p.wire_info.wire_id, p.wire_info.access_key))
    remote ← recv (wire_info_unwiring valid_utf8 from_str)
    announce l.announce_error (u64_wiring.async_wiring remote.wire_id)
    lift (ok (with_peer remote p.has_handle wire))
