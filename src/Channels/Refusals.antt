-- ===== src/Channels/Refusals.antt =====
-- wiring/src/core/wire.rs: what the ends of channels do when they are not sent away themselves. `wiring_ref` sends a
-- clone where the end has clones, with the outcome `sent` of its `wiring`, and `sync_wiring` refuses.
use wiring.Base.{Result, err, unsupported}
use wiring.Encode.{SyncWiring}

module _ {A : Type 0} where
  pub oneshot_sender_wiring_ref : Result A → Result A
  oneshot_sender_wiring_ref sent = err unsupported

  pub oneshot_sender_sync_wiring : SyncWiring A
  oneshot_sender_sync_wiring t x v = err unsupported

  pub unbounded_sender_wiring_ref : Result A → Result A
  unbounded_sender_wiring_ref sent = sent

  pub unbounded_sender_sync_wiring : SyncWiring A
  unbounded_sender_sync_wiring t x v = err unsupported

  pub broadcast_receiver_wiring_ref : Result A → Result A
  broadcast_receiver_wiring_ref sent = err unsupported

  pub broadcast_receiver_sync_wiring : SyncWiring A
  broadcast_receiver_sync_wiring t x v = err unsupported

  pub watch_receiver_wiring_ref : Result A → Result A
  watch_receiver_wiring_ref sent = sent

  pub watch_receiver_sync_wiring : SyncWiring A
  watch_receiver_sync_wiring t x v = err unsupported

  pub watch_sender_wiring_ref : Result A → Result A
  watch_sender_wiring_ref sent = sent

  pub watch_sender_sync_wiring : SyncWiring A
  watch_sender_sync_wiring t x v = err unsupported

  pub broadcast_sender_wiring_ref : Result A → Result A
  broadcast_sender_wiring_ref sent = sent

  pub broadcast_sender_sync_wiring : SyncWiring A
  broadcast_sender_sync_wiring t x v = err unsupported

  pub bounded_sender_wiring_ref : Result A → Result A
  bounded_sender_wiring_ref sent = sent

  pub bounded_sender_sync_wiring : SyncWiring A
  bounded_sender_sync_wiring t x v = err unsupported

  pub oneshot_receiver_wiring_ref : Result A → Result A
  oneshot_receiver_wiring_ref sent = err unsupported

  pub oneshot_receiver_sync_wiring : SyncWiring A
  oneshot_receiver_sync_wiring t x v = err unsupported

  pub unbounded_receiver_wiring_ref : Result A → Result A
  unbounded_receiver_wiring_ref sent = err unsupported

  pub unbounded_receiver_sync_wiring : SyncWiring A
  unbounded_receiver_sync_wiring t x v = err unsupported

  pub bounded_receiver_wiring_ref : Result A → Result A
  bounded_receiver_wiring_ref sent = err unsupported

  pub bounded_receiver_sync_wiring : SyncWiring A
  bounded_receiver_sync_wiring t x v = err unsupported
