-- ===== src/Wired/Events/Codec.antt =====
-- wiring/src/core/wired.rs: the bytes of a `WiringEvent`, and reading them at the other end.
use wiring.Base.{
  ℕ, ◌^◌, ◌≤◌, ◌<◌, ◌≡◌, refl, ap, ◌∙◌, Bool, true, false, List, [], ◌∷◌, ◌++◌, arith, flatten,
  ◌==◌, invalid_data, err, length, All, flatten-append, append_assoc,
}
use wiring.Bytes.{to_be_bytes, isize_max}
use wiring.Wire.{Writes}
use wiring.Format.{enc_bool, enc_vec, enc_byte}
use wiring.Encode.{Wiring}
use wiring.Encode.Laws.{Encodes, FitsSlice, SyncWrites, provided-Encodes}
use wiring.Decode.Async.{AsyncUnwiring, vec_async_unwiring, u8_async_unwiring}
use wiring.Decode.AsyncContainers.{vec-Follows}
use wiring.Decode.AsyncReads.{u8-Follows}
use wiring.Decode.Containers.{vec_unwiring}
use wiring.Decode.Laws.{AnyByte, FitsVec, vec_read}
use wiring.Decode.Numbers.{u8_unwiring}
use wiring.Decode.ReadBack.{sync_u8_read}
use wiring.Decode.Takes.{Takes, u8-Takes, u64-Takes, bool-Takes, Takes-of_reads}
use wiring.Encode.Chains.{Puts, Puts-bind}
use wiring.Encode.ContainerBytes.{vec-Encodes}
use wiring.Encode.Containers.{vec_wiring}
use wiring.Encode.NumberBytes.{AnyValue, u64-Encodes, bool-Encodes, u8-Encodes}
use wiring.Encode.Numbers.{u8_wiring, u64_wiring, bool_wiring}
use wiring.Wired.{WiringEvent, wiring_event, wiring_message, wiring_drop}
use wiring.Wired.Events.{
  wiring_event_sync_wiring, wiring_event_async_wiring, wiring_event_wiring_ref, wiring_event_wiring,
  wiring_event_unwiring,
}

module _ {T : Type 0} (enc : T → List ℕ) where
  abbrev pub enc_wiring_event : WiringEvent T → List ℕ
  enc_wiring_event (wiring_event event) = 0 ∷ enc event
  enc_wiring_event (wiring_message id l m) =
      1 ∷ (to_be_bytes 8 id ++ (enc_bool l ++ enc_vec enc_byte m))
  enc_wiring_event (wiring_drop id l) = 2 ∷ (to_be_bytes 8 id ++ enc_bool l)

module _ {T : Type 0} (w : Wiring T) (Fits : T → Type 0) (enc : T → List ℕ) where
  abbrev pub FitsEvent : WiringEvent T → Type 0
  FitsEvent (wiring_event event) = Fits event
  FitsEvent (wiring_message id l m) = FitsSlice AnyValue enc_byte m
  FitsEvent (wiring_drop id l) = Unit {0}

  module _ (e : Encodes w Fits enc) where
    u8-Puts : (n : ℕ) → Puts (λ t v. u8_wiring.sync_wiring t n v) (n ∷ [])
    u8-Puts n t v room = u8-Encodes.sync t n v tt room

    id-Puts : (n : ℕ) → Puts (λ t v. u64_wiring.sync_wiring t n v) (to_be_bytes 8 n)
    id-Puts n t v room = u64-Encodes.sync t n v tt room

    local-Puts : (l : Bool) → Puts (λ t v. bool_wiring.sync_wiring t l v) (enc_bool l)
    local-Puts l t v room = bool-Encodes.sync t l v tt room

    message-Puts :
        (m : List ℕ)
        → FitsSlice AnyValue enc_byte m
        → Puts (λ t v. (vec_wiring u8_wiring).sync_wiring t m v) (enc_vec enc_byte m)
    message-Puts m h t v room =
        (vec-Encodes u8_wiring AnyValue enc_byte u8-Encodes).sync t m v h room

    event_sync : SyncWrites FitsEvent (enc_wiring_event enc) (wiring_event_sync_wiring w)
    unfolding wiring_event_sync_wiring
    event_sync t (wiring_event event) v h room =
        Puts-bind _ _ (0 ∷ []) (enc event) (u8-Puts 0) (λ t v room. e.sync t event v h room) t v
          room
    event_sync t (wiring_message id l m) v h room =
        Puts-bind _ _ (1 ∷ []) _ (u8-Puts 1)
          (Puts-bind _ _ (to_be_bytes 8 id) _ (id-Puts id)
            (Puts-bind _ _ (enc_bool l) (enc_vec enc_byte m) (local-Puts l) (message-Puts m h)))
          t v room
    event_sync t (wiring_drop id l) v h room =
        Puts-bind _ _ (2 ∷ []) _ (u8-Puts 2)
          (Puts-bind _ _ (to_be_bytes 8 id) (enc_bool l) (id-Puts id) (local-Puts l)) t v room

    body_written :
        (a b c : Writes) (id : ℕ) (l : Bool) (m : List ℕ)
        → flatten a ≡ to_be_bytes 8 id
        → flatten b ≡ enc_bool l
        → flatten c ≡ enc_vec enc_byte m
        → flatten (a ++ (b ++ c)) ≡ to_be_bytes 8 id ++ (enc_bool l ++ enc_vec enc_byte m)
    body_written a b c id l m ha hb hc =
        flatten-append a (b ++ c) ∙ rw (flatten-append b c, ha, hb, hc) refl

    event_written :
        (x : WiringEvent T) → flatten (wiring_event_async_wiring w x) ≡ (enc_wiring_event enc) x
    unfolding wiring_event_async_wiring u8_wiring flatten
    event_written (wiring_event event) = ap (◌∷◌ 0) (e.async event)
    event_written (wiring_message id l m) = ap (◌∷◌ 1) (
        body_written (u64_wiring.async_wiring id) (bool_wiring.async_wiring l)
          ((vec_wiring u8_wiring).async_wiring m) id l m (u64-Encodes.async id)
          (bool-Encodes.async l) ((vec-Encodes u8_wiring AnyValue enc_byte u8-Encodes).async m))
    event_written (wiring_drop id l) = ap (◌∷◌ 2) (
        flatten-append (u64_wiring.async_wiring id) (bool_wiring.async_wiring l)
        ∙ rw (u64-Encodes.async id, bool-Encodes.async l) refl)

    event_written_ref :
        (x : WiringEvent T) → flatten (wiring_event_wiring_ref w x) ≡ (enc_wiring_event enc) x
    unfolding wiring_event_wiring_ref u8_wiring flatten
    event_written_ref (wiring_event event) = ap (◌∷◌ 0) (e.by_ref event)
    event_written_ref (wiring_message id l m) = ap (◌∷◌ 1) (
        body_written (u64_wiring.wiring_ref id) (bool_wiring.wiring_ref l)
          ((vec_wiring u8_wiring).wiring_ref m) id l m (u64-Encodes.by_ref id)
          (bool-Encodes.by_ref l) ((vec-Encodes u8_wiring AnyValue enc_byte u8-Encodes).by_ref m))
    event_written_ref (wiring_drop id l) = ap (◌∷◌ 2) (
        flatten-append (u64_wiring.wiring_ref id) (bool_wiring.wiring_ref l)
        ∙ rw (u64-Encodes.by_ref id, bool-Encodes.by_ref l) refl)

    -- Every writing method of WiringEvent, the asynchronous ones and those for slices included,
    -- writes the format, a tag and then the parts, if those of the inner event meet its format; a
    -- message fits if its bytes fit 64 bits of length.
    pub wiring_event-Encodes : Encodes (wiring_event_wiring w) FitsEvent (enc_wiring_event enc)
    unfolding wiring_event_wiring
    wiring_event-Encodes =
        provided-Encodes FitsEvent (enc_wiring_event enc) 0 true _ _ _ _ event_written
          event_written_ref event_sync (λ c h m. cc)

any_bytes : (m : List ℕ) → All AnyByte m
any_bytes [] = tt
any_bytes (n ∷ m) = (tt, any_bytes m)

message-Takes :
    (m : List ℕ)
    → (length m ≤ isize_max)
    → Takes (vec_async_unwiring u8_async_unwiring 1) m (enc_vec enc_byte m)
unfolding vec_unwiring u8_unwiring
message-Takes m h =
    Takes-of_reads (FitsVec u8_unwiring AnyByte enc_byte sync_u8_read) (enc_vec enc_byte)
      (vec_unwiring u8_unwiring) _ (vec_read u8_unwiring AnyByte enc_byte sync_u8_read)
      (vec-Follows u8_unwiring u8_async_unwiring u8-Follows) m
      (any_bytes m, omega (arith, h), omega (arith, h))

module _ {T : Type 0} (enc : T → List ℕ) (f : AsyncUnwiring T) where
  abbrev pub ReadsEvent : WiringEvent T → Type 0
  ReadsEvent (wiring_event event) = Takes f event (enc event)
  ReadsEvent (wiring_message id l m) = (id < 2 ^ 64) × (length m ≤ isize_max)
  ReadsEvent (wiring_drop id l) = id < 2 ^ 64

  -- unwiring of a WiringEvent takes from a stream exactly the bytes of the event's format and gives
  -- the event back, if the id is below 2^64, the message fits isize::MAX bytes, and for an inner
  -- event its own unwiring does so.
  pub wiring_event-Takes :
      (x : WiringEvent T)
      → ReadsEvent x
      → Takes (wiring_event_unwiring f) x (enc_wiring_event enc x)
  unfolding wiring_event_unwiring
  wiring_event-Takes (wiring_event event) h rest = rw (u8-Takes 0 (enc event ++ rest), h rest) refl
  wiring_event-Takes (wiring_message id l m) h rest =
      let message = enc_vec enc_byte m in
      rw
        (
          append_assoc (to_be_bytes 8 id) (enc_bool l ++ message) rest,
          u8-Takes 1 (to_be_bytes 8 id ++ (enc_bool l ++ (message ++ rest))),
          u64-Takes id (omega (arith, h.0)) (enc_bool l ++ (message ++ rest)),
          bool-Takes l (message ++ rest),
          message-Takes m h.1 rest,
        )
        refl
  wiring_event-Takes (wiring_drop id l) h rest =
      rw
        (
          append_assoc (to_be_bytes 8 id) (enc_bool l) rest,
          u8-Takes 2 (to_be_bytes 8 id ++ (enc_bool l ++ rest)),
          u64-Takes id (omega (arith, h)) (enc_bool l ++ rest),
          bool-Takes l rest,
        )
        refl

  pub unknown_event :
      (tag : ℕ) (rest : List ℕ) → 2 < tag → wiring_event_unwiring f (tag ∷ rest) ≡ err invalid_data
  unfolding wiring_event_unwiring
  unknown_event tag rest h =
      let a : (tag == 0) ≡ false = ground arith in
      let b : (tag == 1) ≡ false = ground arith in
      let c : (tag == 2) ≡ false = ground arith in rw (u8-Takes tag rest, a, b, c) refl
