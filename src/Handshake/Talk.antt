-- ===== src/Handshake/Talk.antt =====
-- wiring/src/core/wire.rs and wiring/src/core/listener.rs: calls that set up a wire, on a state, the `Talk`: what the
-- other end sends over the new stream, what is written to it, what is written to the wire that the stream belongs to,
-- and the listener of this end, which handles the event of the call next.
use wiring.Base.{
  ℕ, ErrorKind, Result, Option, List, none, some, Bool, ok, err, ◌∷◌, ◌++◌, interrupted, undefined,
  panic, [], ◌≡◌, ap, ◌∙◌,
}
use wiring.Wire.{Writes}
use wiring.Decode.Async.{AsyncUnwiring}
use wiring.Decode.Takes.{Takes}
use wiring.Listener.{
  WireStream, WireInfo, Chances, Effect, Listener, reply_wire, reply_error, forwarded, handled,
  reply_forwarded,
}

pub record Talk (Stream Info : Type 0) : Type 0 where
  pub arrives : List ℕ
  pub written : Writes
  pub announced : Writes
  pub listener : Listener Info
  pub effects : List (Effect Stream Info)

-- What a call meets outside: the outcome of `connect_stream` and `enhance_stream`, how its writes end, and what the
-- listener meets.
pub record Link (Stream Info : Type 0) : Type 0 where
  pub connects : Info → Result Stream
  pub hello_error : Option ErrorKind
  pub hello_forward_error : Option ErrorKind
  pub announce_error : Option ErrorKind
  pub chances : Chances

-- A call gives its outcome and the state, and neither while the listener still draws an id.
abbrev pub Setup : Type 0 → Type 0 → Type 0 → Type 0
Setup Stream Info A = Talk Stream Info → Option (Result A × Talk Stream Info)

-- The local side that the listener gives to a wire.
abbrev pub local_info : {Info : Type 0} → ℕ → Chances → Listener Info → WireInfo Info
local_info id c s = record {
  wire_id = id;
  access_key = c.access_key;
  connect_info = s.connect_info;
}

module _ {Stream Info : Type 0} where
  abbrev pub next :
      {A B : Type 0}
      → (A → Setup Stream Info B)
      → Option (Result A × Talk Stream Info)
      → Option (Result B × Talk Stream Info)
  next f none = none
  next f (some (undefined, t)) = some (undefined, t)
  next f (some (panic, t)) = some (panic, t)
  next f (some (err kind, t)) = some (err kind, t)
  next f (some (ok a, t)) = f a t

  infixl 5 ◌>>=◌
  abbrev pub ◌>>=◌ :
      {A B : Type 0} → Setup Stream Info A → (A → Setup Stream Info B) → Setup Stream Info B
  ◌>>=◌ m f t = next f (m t)

  infixl 5 ◌>>◌
  abbrev pub ◌>>◌ :
      {B : Type 0} → Setup Stream Info (Unit {0}) → Setup Stream Info B → Setup Stream Info B
  ◌>>◌ m k t = next (λ u. k) (m t)

  abbrev pub lift : {A : Type 0} → Result A → Setup Stream Info A
  lift r t = some (r, t)

  abbrev pub recv : {A : Type 0} → AsyncUnwiring A → Setup Stream Info A
  recv f t = elim (f t.arrives) [
    | undefined ↦ some (undefined, t)
    | panic ↦ some (panic, t)
    | err kind ↦ some (err kind, t)
    | ok p ↦ some (ok p.0, record t { arrives = p.1 })
  ]

  abbrev pub send : Option ErrorKind → Writes → Setup Stream Info (Unit {0})
  send none ws t = some (ok tt, record t { written = t.written ++ ws })
  send (some kind) ws t = some (err kind, t)

  abbrev pub announce : Option ErrorKind → Writes → Setup Stream Info (Unit {0})
  announce none ws t = some (ok tt, record t { announced = t.announced ++ ws })
  announce (some kind) ws t = some (err kind, t)

  -- What `rx.await` gives of the reply to an OutgoingWire, and to an Incomingwire.
  abbrev pub reply_of : ErrorKind → List (Effect Stream Info) → Result (WireStream Stream Info)
  reply_of lost [] = err lost
  reply_of lost (reply_wire wire ∷ es) = ok wire
  reply_of lost (reply_error kind ∷ es) = err kind
  reply_of lost (reply_forwarded ∷ es) = reply_of lost es
  reply_of lost (forwarded ch wire ∷ es) = reply_of lost es
  reply_of lost (handled wire ∷ es) = reply_of lost es

  abbrev pub incoming_reply_of :
      List (Effect Stream Info) → Result (Option (WireStream Stream Info))
  incoming_reply_of [] = err interrupted
  incoming_reply_of (reply_wire wire ∷ es) = ok (some wire)
  incoming_reply_of (reply_error kind ∷ es) = err kind
  incoming_reply_of (reply_forwarded ∷ es) = ok none
  incoming_reply_of (forwarded ch wire ∷ es) = incoming_reply_of es
  incoming_reply_of (handled wire ∷ es) = incoming_reply_of es

  -- `WireStream::new` and `with_peer`.
  abbrev pub new_stream : Stream → WireStream Stream Info
  new_stream stream = record { stream = stream; local = none; peer = none }

  abbrev pub with_peer : WireInfo Info → Bool → WireStream Stream Info → WireStream Stream Info
  with_peer info handle wire = record wire {
    peer = some (record { wire_info = info; has_handle = handle });
  }

  -- The wires that wait for a wire, by its channel.
  abbrev pub incoming_of :
      {S : Type 0}
      → (ℕ → List (WireStream Stream Info))
      → WireStream S Info
      → Option (List (WireStream Stream Info))
  incoming_of queues wire = elim wire.local [ none ↦ none | some local ↦ some (queues local.1) ]

  -- A call that goes on behind one that has succeeded.
  pub next_ok :
      {A B : Type 0} (m : Setup Stream Info A) (f : A → Setup Stream Info B) (a : A)
      (t t' : Talk Stream Info)
      → m t ≡ some (ok a, t')
      → (m >>= f) t ≡ f a t'
  next_ok m f a t t' e = ap (next f) e

  pub then_ok :
      {B : Type 0} (m : Setup Stream Info (Unit {0})) (k : Setup Stream Info B)
      (t t' : Talk Stream Info)
      → m t ≡ some (ok tt, t')
      → (m >> k) t ≡ k t'
  then_ok m k t t' e = ap (next (λ u. k)) e

  -- A value that arrives is received, and what arrives behind it is left.
  pub recv-Takes :
      {A : Type 0} (f : AsyncUnwiring A) (x : A) (bs rest : List ℕ) (t : Talk Stream Info)
      → Takes f x bs
      → t.arrives ≡ bs ++ rest
      → recv f t ≡ some (ok x, record t { arrives = rest })
  recv-Takes {A} f x bs rest t takes e =
      ap
        (λ (r : Result (A × List ℕ)). elim r [
          | undefined ↦ some (undefined, t)
          | panic ↦ some (panic, t)
          | err kind ↦ some (err kind, t)
          | ok p ↦ some (ok p.0, record t { arrives = p.1 })
        ])
        (ap f e ∙ takes rest)
