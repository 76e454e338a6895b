-- ===== src/Connect/Codec.antt =====
-- wiring/src/core/wire.rs and wiring/src/core/listener.rs: the bytes of `ConnectInfo` and `WireInfo`, and reading them.
use wiring.Base.{
  ℕ, ◌^◌, ◌<◌, ◌≡◌, refl, ap, ◌∙◌, Bool, true, Option, some, List, [], ◌∷◌, ◌++◌, append_assoc,
  arith, flatten, ◌>>=◌, flatten-append,
}
use wiring.Bytes.{to_be_bytes}
use wiring.Wire.{Writes}
use wiring.Format.{enc_string}
use wiring.Encode.Laws.{SyncWrites, Encodes, provided-Encodes}
use wiring.Connect.{
  connect_info_writes, connect_info_sync_wiring, wire_info_sync_wiring, connect_info_wiring,
  connect_info_unwiring, ConnectInfo, wire_info_unwiring, wire_info_wiring, tcp_stream, url,
}
use wiring.Decode.Async.{url_async_unwiring}
use wiring.Decode.ReadBack.{FitsText}
use wiring.Decode.Takes.{Takes, string-Takes, u8-Takes, u64-Takes, u128-Takes}
use wiring.Encode.Chains.{Puts-bind}
use wiring.Encode.ContainerBytes.{FitsString, string-Encodes, url-Encodes}
use wiring.Encode.Containers.{string_wiring, url_wiring}
use wiring.Encode.NumberBytes.{u8-Encodes, u64-Encodes, u128-Encodes}
use wiring.Encode.Numbers.{u8_wiring, u64_wiring, u128_wiring}
use wiring.Listener.{WireInfo}

module _ {Url : Type 0} (as_str : Url → List ℕ) where
  abbrev pub enc_connect_info : ConnectInfo Url → List ℕ
  enc_connect_info (tcp_stream string) = 0 ∷ enc_string string
  enc_connect_info (url u) = 1 ∷ enc_string (as_str u)

  abbrev pub enc_wire_info : WireInfo (ConnectInfo Url) → List ℕ
  enc_wire_info i =
      to_be_bytes 8 i.wire_id ++ (to_be_bytes 16 i.access_key ++ enc_connect_info i.connect_info)

  abbrev pub text_of : ConnectInfo Url → List ℕ
  text_of (tcp_stream string) = string
  text_of (url u) = as_str u

  abbrev pub FitsConnect : ConnectInfo Url → Type 0
  FitsConnect c = FitsString (text_of c)

  connect_info_written :
      (f : List ℕ → Writes) (g : Url → Writes)
      → ((s : List ℕ) → flatten (f s) ≡ enc_string s)
      → ((u : Url) → flatten (g u) ≡ enc_string (as_str u))
      → (c : ConnectInfo Url) → flatten (connect_info_writes as_str f g c) ≡ enc_connect_info c
  unfolding connect_info_writes u8_wiring flatten
  connect_info_written f g hf hg (tcp_stream string) = ap (◌∷◌ 0) (hf string)
  connect_info_written f g hf hg (url u) = ap (◌∷◌ 1) (hg u)

  connect_info_sync : SyncWrites FitsConnect enc_connect_info (connect_info_sync_wiring as_str)
  unfolding connect_info_sync_wiring
  connect_info_sync t (tcp_stream string) v h room =
      Puts-bind (λ t v. u8_wiring.sync_wiring t 0 v) (λ t v. string_wiring.sync_wiring t string v)
        (0 ∷ []) (enc_string string) (λ t v room. u8-Encodes.sync t 0 v tt room)
        (λ t v room. string-Encodes.sync t string v h room) t v room
  connect_info_sync t (url u) v h room =
      Puts-bind (λ t v. u8_wiring.sync_wiring t 1 v) (λ t v. (url_wiring as_str).sync_wiring t u v)
        (1 ∷ []) (enc_string (as_str u)) (λ t v room. u8-Encodes.sync t 1 v tt room)
        (λ t v room. (url-Encodes as_str).sync t u v h room) t v room

  pub connect_info-Encodes : Encodes (connect_info_wiring as_str) FitsConnect enc_connect_info
  unfolding connect_info_wiring
  connect_info-Encodes =
      provided-Encodes FitsConnect enc_connect_info 0 true _ _ _ _
        (connect_info_written _ _ string-Encodes.async (url-Encodes as_str).async)
        (connect_info_written _ _ string-Encodes.by_ref (url-Encodes as_str).by_ref)
        connect_info_sync (λ c h m. cc)

  abbrev pub FitsInfo : WireInfo (ConnectInfo Url) → Type 0
  FitsInfo i = FitsConnect i.connect_info

  wire_info_sync : SyncWrites FitsInfo enc_wire_info (wire_info_sync_wiring as_str)
  unfolding wire_info_sync_wiring
  wire_info_sync t i v h room =
      Puts-bind (λ t v. u64_wiring.sync_wiring t i.wire_id v)
        (λ t v.
          u128_wiring.sync_wiring t i.access_key v
          >>= (connect_info_wiring as_str).sync_wiring t i.connect_info)
        (to_be_bytes 8 i.wire_id) (to_be_bytes 16 i.access_key ++ enc_connect_info i.connect_info)
        (λ t v room. u64-Encodes.sync t i.wire_id v tt room)
        (Puts-bind (λ t v. u128_wiring.sync_wiring t i.access_key v)
          (λ t v. (connect_info_wiring as_str).sync_wiring t i.connect_info v)
          (to_be_bytes 16 i.access_key) (enc_connect_info i.connect_info)
          (λ t v room. u128-Encodes.sync t i.access_key v tt room)
          (λ t v room. connect_info-Encodes.sync t i.connect_info v h room))
        t v room

  wire_info_written :
      (f g : ℕ → Writes) (k : ConnectInfo Url → Writes)
      → ((n : ℕ) → flatten (f n) ≡ to_be_bytes 8 n)
      → ((n : ℕ) → flatten (g n) ≡ to_be_bytes 16 n)
      → ((c : ConnectInfo Url) → flatten (k c) ≡ enc_connect_info c)
      → (i : WireInfo (ConnectInfo Url))
      → flatten (f i.wire_id ++ (g i.access_key ++ k i.connect_info)) ≡ enc_wire_info i
  wire_info_written f g k hf hg hk i =
      flatten-append (f i.wire_id) (g i.access_key ++ k i.connect_info)
      ∙ rw (
        flatten-append (g i.access_key) (k i.connect_info),
        hf i.wire_id,
        hg i.access_key,
        hk i.connect_info,
      )

  pub wire_info-Encodes : Encodes (wire_info_wiring as_str) FitsInfo enc_wire_info
  unfolding wire_info_wiring
  wire_info-Encodes =
      provided-Encodes FitsInfo enc_wire_info 0 true _ _ _ _
        (wire_info_written _ _ _ u64-Encodes.async u128-Encodes.async connect_info-Encodes.async)
        (wire_info_written _ _ _ u64-Encodes.by_ref u128-Encodes.by_ref connect_info-Encodes.by_ref)
        wire_info_sync (λ c h m. cc)

module _ {Url : Type 0} (as_str : Url → List ℕ) (valid_utf8 : List ℕ → Bool)
    (from_str : List ℕ → Option Url) (parses : (u : Url) → from_str (as_str u) ≡ some u) where
  -- A text that is UTF-8, not longer than memory.
  abbrev pub ReadsConnect : ConnectInfo Url → Type 0
  ReadsConnect c = FitsText valid_utf8 (text_of as_str c)

  url-Takes :
      (u : Url)
      → FitsText valid_utf8 (as_str u)
      → Takes (url_async_unwiring valid_utf8 from_str) u (enc_string (as_str u))
  unfolding url_async_unwiring
  url-Takes u h rest = rw (string-Takes valid_utf8 (as_str u) h rest, parses u) refl

  connect_info-Takes :
      (c : ConnectInfo Url)
      → ReadsConnect c
      → Takes (connect_info_unwiring valid_utf8 from_str) c (enc_connect_info as_str c)
  unfolding connect_info_unwiring
  connect_info-Takes (tcp_stream string) h rest =
      rw (u8-Takes 0 (enc_string string ++ rest), string-Takes valid_utf8 string h rest) refl
  connect_info-Takes (url u) h rest =
      rw (u8-Takes 1 (enc_string (as_str u) ++ rest), url-Takes u h rest) refl

  -- unwiring of WireInfo takes from a stream exactly the bytes of its format and gives the value
  -- back, if parsing the text of a Url gives the Url back, the id and the key fit 64 and 128 bits,
  -- and the text is UTF-8 of at most isize::MAX bytes.
  pub wire_info-Takes :
      (i : WireInfo (ConnectInfo Url))
      → i.wire_id < 2 ^ 64
      → i.access_key < 2 ^ 128
      → ReadsConnect i.connect_info
      → Takes (wire_info_unwiring valid_utf8 from_str) i (enc_wire_info as_str i)
  unfolding wire_info_unwiring
  wire_info-Takes i h h' h'' rest =
      let last = enc_connect_info as_str i.connect_info in
      rw
        (
          append_assoc (to_be_bytes 8 i.wire_id) (to_be_bytes 16 i.access_key ++ last) rest,
          u64-Takes i.wire_id (omega (arith, h)) ((to_be_bytes 16 i.access_key ++ last) ++ rest),
          append_assoc (to_be_bytes 16 i.access_key) last rest,
          u128-Takes i.access_key (omega (arith, h')) (last ++ rest),
          connect_info-Takes i.connect_info h'' rest,
        )
        refl
