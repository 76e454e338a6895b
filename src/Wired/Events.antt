-- ===== src/Wired/Events.antt =====
-- wiring/src/core/wired.rs: `Wiring` and `Unwiring` of `WiringEvent`, what a `Wired` server sends.
pub mod Codec
use wiring.Base.{true, ◌++◌, ◌==◌, if◌then◌else◌, invalid_data, err, ok, ◌>>=◌}
use wiring.Wire.{Writes}
use wiring.Encode.{provided, Wiring, SyncWiring, no_concat}
use wiring.Decode.Async.{
  AsyncUnwiring, u8_async_unwiring, u64_async_unwiring, bool_async_unwiring, vec_async_unwiring,
}
use wiring.Encode.Containers.{vec_wiring}
use wiring.Encode.Numbers.{u8_wiring, u64_wiring, bool_wiring}
use wiring.Wired.{WiringEvent, wiring_event, wiring_message, wiring_drop}

module _ {T : Type 0} (w : Wiring T) where
  wiring_event_sync_wiring : SyncWiring (WiringEvent T)
  unfolding u8_wiring u64_wiring bool_wiring vec_wiring
  wiring_event_sync_wiring t (wiring_event event) v =
      u8_wiring.sync_wiring t 0 v >>= w.sync_wiring t event
  wiring_event_sync_wiring t (wiring_message stream_id local message) v =
      u8_wiring.sync_wiring t 1 v >>= (λ v1. u64_wiring.sync_wiring t stream_id v1 >>= (λ v2.
        bool_wiring.sync_wiring t local v2 >>= (vec_wiring u8_wiring).sync_wiring t message))
  wiring_event_sync_wiring t (wiring_drop stream_id local) v =
      u8_wiring.sync_wiring t 2 v
      >>= (λ v1. u64_wiring.sync_wiring t stream_id v1 >>= bool_wiring.sync_wiring t local)

  wiring_event_async_wiring : WiringEvent T → Writes
  unfolding u8_wiring u64_wiring bool_wiring vec_wiring
  wiring_event_async_wiring (wiring_event event) = u8_wiring.async_wiring 0 ++ w.async_wiring event
  wiring_event_async_wiring (wiring_message stream_id local message) =
      u8_wiring.async_wiring 1
      ++ (u64_wiring.async_wiring stream_id
          ++ (bool_wiring.async_wiring local ++ (vec_wiring u8_wiring).async_wiring message))
  wiring_event_async_wiring (wiring_drop stream_id local) =
      u8_wiring.async_wiring 2
      ++ (u64_wiring.async_wiring stream_id ++ bool_wiring.async_wiring local)

  wiring_event_wiring_ref : WiringEvent T → Writes
  unfolding u8_wiring u64_wiring bool_wiring vec_wiring
  wiring_event_wiring_ref (wiring_event event) = u8_wiring.async_wiring 0 ++ w.wiring_ref event
  wiring_event_wiring_ref (wiring_message stream_id local message) =
      u8_wiring.async_wiring 1
      ++ (u64_wiring.wiring_ref stream_id
          ++ (bool_wiring.wiring_ref local ++ (vec_wiring u8_wiring).wiring_ref message))
  wiring_event_wiring_ref (wiring_drop stream_id local) =
      u8_wiring.async_wiring 2 ++ (u64_wiring.wiring_ref stream_id ++ bool_wiring.wiring_ref local)

  pub wiring_event_wiring : Wiring (WiringEvent T)
  unfolding provided wiring_event_sync_wiring wiring_event_async_wiring wiring_event_wiring_ref
  wiring_event_wiring =
      provided 0 true wiring_event_async_wiring wiring_event_wiring_ref wiring_event_sync_wiring
        no_concat

module _ {T : Type 0} (f : AsyncUnwiring T) where
  pub wiring_event_unwiring : AsyncUnwiring (WiringEvent T)
  unfolding u8_async_unwiring u64_async_unwiring bool_async_unwiring vec_async_unwiring
  wiring_event_unwiring b = do
    (variant, b1) ← u8_async_unwiring b
    if variant == 0
        then (f b1 >>= λ p. ok (wiring_event p.0, p.1))
        else if variant == 1
        then (do
          (stream_id, b2) ← u64_async_unwiring b1
          (local, b3) ← bool_async_unwiring b2
          (message, b4) ← vec_async_unwiring u8_async_unwiring 1 b3
          ok (wiring_message stream_id local message, b4))
        else if variant == 2
        then (do
          (stream_id, b2) ← u64_async_unwiring b1
          (local, b3) ← bool_async_unwiring b2
          ok (wiring_drop stream_id local, b3))
        else err invalid_data
