-- ===== src/Listener.antt =====
-- wiring/src/core/listener.rs: the task of `WireListener::run`, one event at a time. A channel is a
-- number, `watching` are the tasks that wait for a channel's receiver to go, and `dropping` are the
-- messages `DropWire` that they have sent.
pub mod Table
pub mod Watch
pub mod Forward
pub mod Replies
mod Examples
use wiring.Base.{
  ◌&&◌, ℕ, Bool, true, false, List, [], ◌∷◌, Option, none, some, suc, ◌==◌, if◌then◌else◌,
  ErrorKind, broken_pipe, permission_denied, not_found, ◌||◌,
}

pub record WireInfo (Info : Type 0) : Type 0 where
  pub wire_id : ℕ
  pub access_key : ℕ
  pub connect_info : Info

-- `Peer`: what is known of the remote, and whether the handle of a listener is kept for more wires.
pub record Peer (Info : Type 0) : Type 0 where
  pub wire_info : WireInfo Info
  pub has_handle : Bool

-- `WireStream`: the stream, the local side with its receiver, and the peer.
pub record WireStream (Stream Info : Type 0) : Type 0 where
  pub stream : Stream
  pub local : Option (WireInfo Info × ℕ)
  pub peer : Option (Peer Info)

-- Both ends have listeners if the remote has sent its own `WireInfo`.
abbrev pub peer_of : {Info : Type 0} → Option (WireInfo Info) → Option (Peer Info)
peer_of none = none
peer_of (some info) = some (record { wire_info = info; has_handle = true })

pub data Event (Stream Info : Type 0) : Type 0 where
  incoming_wire : Stream → Option (WireInfo Info) → Option (ℕ × ℕ) → Bool → Event Stream Info
  outgoing_wire : Stream → Option (ℕ × ℕ) → Event Stream Info
  drop_wire : ℕ → Event Stream Info
  shutdown : Event Stream Info

-- What the other tasks see of the handling of an event. `reply_wire` and `reply_forwarded` are
-- `Ok(Some(wire))` and `Ok(None)`.
pub data Effect (Stream Info : Type 0) : Type 0 where
  reply_wire : WireStream Stream Info → Effect Stream Info
  reply_forwarded : Effect Stream Info
  reply_error : ErrorKind → Effect Stream Info
  forwarded : ℕ → WireStream Stream Info → Effect Stream Info
  handled : WireStream Stream Info → Effect Stream Info

-- What the handling of one event meets: the random numbers that it draws, how its two writes to the
-- stream end, whether a channel has its receiver, and whether `handle_wire` succeeds.
pub record Chances : Type 0 where
  pub wire_ids : List ℕ
  pub access_key : ℕ
  pub info_error : Option ErrorKind
  pub forward_error : Option ErrorKind
  pub receives : ℕ → Bool
  pub handles : Bool

-- The `HashMap` from the wire's id to its access key and its sender.
abbrev pub Wires : Type 0
Wires = List (ℕ × (ℕ × ℕ))

pub record Listener (Info : Type 0) : Type 0 where
  pub connect_info : Info
  pub wires : Wires
  pub next_channel : ℕ
  pub watching : List (ℕ × ℕ)
  pub dropping : List ℕ
  pub inbox_open : Bool

-- The first message for that wire is taken out of the inbox.
abbrev pub take_one : ℕ → List ℕ → List ℕ
take_one id [] = []
take_one id (n ∷ ns) = let rest = take_one id ns in if n == id then ns else n ∷ rest

abbrev pub unwatch : ℕ → ℕ → List (ℕ × ℕ) → List (ℕ × ℕ)
unwatch ch id [] = []
unwatch ch id (t ∷ ts) =
    let rest = unwatch ch id ts in if (t.0 == ch) && (t.1 == id) then ts else t ∷ rest

abbrev pub get : ℕ → Wires → Option (ℕ × ℕ)
get id [] = none
get id (w ∷ ws) = if w.0 == id then some w.1 else get id ws

abbrev pub remove : ℕ → Wires → Wires
remove id [] = []
remove id (w ∷ ws) = let rest = remove id ws in if w.0 == id then rest else w ∷ rest

abbrev pub insert : ℕ → ℕ × ℕ → Wires → Wires
insert id entry ws = (id, entry) ∷ remove id ws

abbrev pub contains_key : ℕ → Wires → Bool
contains_key id ws = elim (get id ws) [ none ↦ false | some e ↦ true ]

-- `while wires.contains_key(&wire_id) { wire_id = rand::random(); }`, none while it still draws.
abbrev pub free_id : List ℕ → Wires → Option ℕ
free_id [] ws = none
free_id (id ∷ ids) ws = let rest = free_id ids ws in if contains_key id ws then rest else some id

-- The table and the watching task of a new wire.
pub register : {Info : Type 0} → ℕ → ℕ → Listener Info → Listener Info
register id key s = record s { wires = insert id (key, s.next_channel) s.wires }

pub watch : {Info : Type 0} → ℕ → Listener Info → Listener Info
watch id s = record s {
  next_channel = suc s.next_channel;
  watching = (s.next_channel, id) ∷ s.watching;
}

module _ {Stream Info : Type 0} where
  unfoldable pub new_wire :
      Stream → ℕ → ℕ → Option (WireInfo Info) → Listener Info → WireStream Stream Info
  new_wire stream id key peer s = record {
    stream = stream;
    local =
        some (
          record { wire_id = id; access_key = key; connect_info = s.connect_info },
          s.next_channel,
        );
    peer = peer_of peer;
  }

  outgoing : Stream → Chances → ℕ → Listener Info → Listener Info × List (Effect Stream Info)
  unfolding register watch new_wire
  outgoing stream c id s = elim c.info_error [
    | some e ↦ (s, reply_error e ∷ [])
    | none ↦ elim c.forward_error [
      | some e ↦ (s, reply_error e ∷ [])
      | none ↦ (
        watch id (register id c.access_key s),
        reply_wire (new_wire stream id c.access_key none s) ∷ [],
      )
    ]
  ]

  -- `if let Some(reply) = reply { … }`
  abbrev reply_if : Bool → Effect Stream Info → List (Effect Stream Info)
  reply_if true e = e ∷ []
  reply_if false e = []

  -- The wire goes to the wire that it is meant for, if the key is right.
  pub forward : ℕ × ℕ → Bool → WireStream Stream Info → Chances → Wires → List (Effect Stream Info)
  forward target reply wire c ws = elim (get target.0 ws) [
    | none ↦ reply_if reply (reply_error not_found)
    | some e ↦
        if e.0 == target.1
        then (if c.receives e.1
            then forwarded e.1 wire ∷ reply_if reply reply_forwarded
            else reply_if reply (reply_error broken_pipe))
        else reply_if reply (reply_error permission_denied)
  ]

  accept :
      Bool
      → WireStream Stream Info
      → Chances
      → ℕ
      → Listener Info
      → Listener Info × List (Effect Stream Info)
  unfolding register
  accept true wire c id s = (register id c.access_key s, reply_wire wire ∷ [])
  accept false wire c id s =
      let s' = register id c.access_key s in
      if c.handles then (s', handled wire ∷ []) else (record s' { inbox_open = false }, [])

  pub incoming :
      Stream
      → Option (WireInfo Info)
      → Option (ℕ × ℕ)
      → Bool
      → Chances
      → ℕ
      → Listener Info
      → Listener Info × List (Effect Stream Info)
  unfolding watch new_wire forward accept
  incoming stream remote none reply c id s =
      let r = accept reply (new_wire stream id c.access_key remote s) c id s in (watch id r.0, r.1)
  incoming stream remote (some target) reply c id s =
      (watch id s, forward target reply (new_wire stream id c.access_key remote s) c s.wires)

  -- One round of `while let Some(event) = inbox.recv().await`, none where it waits for a free id.
  pub handle :
      Event Stream Info
      → Chances
      → Listener Info
      → Option (Listener Info × List (Effect Stream Info))
  unfolding outgoing incoming
  handle (incoming_wire stream remote target reply) c s = elim (free_id c.wire_ids s.wires) [
    | none ↦ none
    | some id ↦ some (incoming stream remote target reply c id s)
  ]
  handle (outgoing_wire stream target) c s = elim (free_id c.wire_ids s.wires) [
    | none ↦ none
    | some id ↦ some (outgoing stream c id s)
  ]
  handle (drop_wire id) c s =
      some (record s { wires = remove id s.wires; dropping = take_one id s.dropping }, [])
  handle shutdown c s = some (record s { inbox_open = false }, [])

abbrev pub watches : ℕ → ℕ → List (ℕ × ℕ) → Bool
watches ch id [] = false
watches ch id (t ∷ ts) = ((t.0 == ch) && (t.1 == id)) || watches ch id ts

-- A task of `watching` sees that its channel's receiver is gone, sends `DropWire`, and ends; there is none for other channels.
pub signal_wire_drop : {Info : Type 0} → ℕ → ℕ → Listener Info → Listener Info
signal_wire_drop ch id s =
    if watches ch id s.watching
    then record s { watching = unwatch ch id s.watching; dropping = id ∷ s.dropping }
    else s

-- What `run` starts with.
abbrev pub new_listener : {Info : Type 0} → Info → Listener Info
new_listener info = record {
  connect_info = info;
  wires = [];
  next_channel = 0;
  watching = [];
  dropping = [];
  inbox_open = true;
}
