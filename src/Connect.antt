-- ===== src/Connect.antt =====
-- wiring/src/core/wire.rs and wiring/src/core/listener.rs: what is sent when a wire is set up, `ConnectInfo` and
-- `WireInfo`. A `Url` goes as its text, `as_str`, and is parsed by `from_str`, both of the crate `url`.
pub mod Codec
use wiring.Base.{
  ℕ, Bool, true, Option, List, ◌++◌, ◌==◌, if◌then◌else◌, invalid_data, err, ok, ◌>>=◌,
}
use wiring.Wire.{Writes}
use wiring.Encode.{SyncWiring, provided, Wiring, no_concat}
use wiring.Decode.Async.{
  u8_async_unwiring, u64_async_unwiring, string_async_unwiring, u128_async_unwiring, AsyncUnwiring,
  url_async_unwiring,
}
use wiring.Encode.Containers.{string_wiring, url_wiring}
use wiring.Encode.Numbers.{u8_wiring, u64_wiring, u128_wiring}
use wiring.Listener.{WireInfo}

pub data ConnectInfo (Url : Type 0) : Type 0 where
  tcp_stream : List ℕ → ConnectInfo Url
  url : Url → ConnectInfo Url

module _ {Url : Type 0} (as_str : Url → List ℕ) where
  connect_info_writes : (List ℕ → Writes) → (Url → Writes) → ConnectInfo Url → Writes
  unfolding u8_wiring
  connect_info_writes f g (tcp_stream string) = u8_wiring.async_wiring 0 ++ f string
  connect_info_writes f g (url u) = u8_wiring.async_wiring 1 ++ g u

  connect_info_sync_wiring : SyncWiring (ConnectInfo Url)
  unfolding u8_wiring string_wiring url_wiring
  connect_info_sync_wiring t (tcp_stream string) v =
      u8_wiring.sync_wiring t 0 v >>= string_wiring.sync_wiring t string
  connect_info_sync_wiring t (url u) v =
      u8_wiring.sync_wiring t 1 v >>= (url_wiring as_str).sync_wiring t u

  pub connect_info_wiring : Wiring (ConnectInfo Url)
  unfolding provided connect_info_writes connect_info_sync_wiring string_wiring url_wiring
  connect_info_wiring =
      provided 0 true
        (connect_info_writes string_wiring.async_wiring (url_wiring as_str).async_wiring)
        (connect_info_writes string_wiring.wiring_ref (url_wiring as_str).wiring_ref)
        connect_info_sync_wiring no_concat

  wire_info_sync_wiring : SyncWiring (WireInfo (ConnectInfo Url))
  unfolding u64_wiring u128_wiring connect_info_wiring
  wire_info_sync_wiring t i v = u64_wiring.sync_wiring t i.wire_id v >>= (λ v1.
      u128_wiring.sync_wiring t i.access_key v1
      >>= connect_info_wiring.sync_wiring t i.connect_info)

  pub wire_info_wiring : Wiring (WireInfo (ConnectInfo Url))
  unfolding provided u64_wiring u128_wiring connect_info_wiring wire_info_sync_wiring
  wire_info_wiring =
      provided 0 true
        (λ i.
          u64_wiring.async_wiring i.wire_id
          ++ (u128_wiring.async_wiring i.access_key
              ++ connect_info_wiring.async_wiring i.connect_info))
        (λ i.
          u64_wiring.wiring_ref i.wire_id
          ++ (u128_wiring.wiring_ref i.access_key ++ connect_info_wiring.wiring_ref i.connect_info))
        wire_info_sync_wiring no_concat

module _ {Url : Type 0} (valid_utf8 : List ℕ → Bool) (from_str : List ℕ → Option Url) where
  pub connect_info_unwiring : AsyncUnwiring (ConnectInfo Url)
  unfolding u8_async_unwiring string_async_unwiring url_async_unwiring
  connect_info_unwiring b = do
    (variant, b') ← u8_async_unwiring b
    if variant == 0
        then (string_async_unwiring valid_utf8 b' >>= λ p. ok (tcp_stream p.0, p.1))
        else if variant == 1
        then (url_async_unwiring valid_utf8 from_str b' >>= λ p. ok (url p.0, p.1))
        else err invalid_data

  pub wire_info_unwiring : AsyncUnwiring (WireInfo (ConnectInfo Url))
  unfolding u64_async_unwiring u128_async_unwiring connect_info_unwiring
  wire_info_unwiring b = do
    (wire_id, b1) ← u64_async_unwiring b
    (access_key, b2) ← u128_async_unwiring b1
    (connect_info, b3) ← connect_info_unwiring b2
    ok (record { wire_id = wire_id; access_key = access_key; connect_info = connect_info }, b3)
