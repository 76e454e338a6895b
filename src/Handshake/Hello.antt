-- ===== src/Handshake/Hello.antt =====
-- wiring/src/core/wire.rs and wiring/src/core/listener.rs: what is written when a wire is set up, and what
-- `WireConfig::wire` reads of it.
use wiring.Encode.Laws.{Encodes}
use wiring.Encode.ContainerBytes.{option-Encodes}
use wiring.Base.{
  ℕ, List, flatten, ◌<◌, Option, ◌^◌, ◌≡◌, some, ◌++◌, none, ◌∷◌, flatten-append, ◌∙◌, arith, ap,
  refl,
}
use wiring.Bytes.{to_be_bytes}
use wiring.Format.{enc_option, enc_pair}
use wiring.Connect.{ConnectInfo}
use wiring.Connect.Codec.{enc_wire_info, wire_info-Encodes}
use wiring.Decode.Async.{u64_async_unwiring, u128_async_unwiring}
use wiring.Decode.Takes.{Takes, option-Takes, pair-Takes, u64-Takes, u128-Takes}
use wiring.Encode.Containers.{pair_wiring}
use wiring.Encode.NumberBytes.{u64-Encodes, u128-Encodes, AnyValue}
use wiring.Encode.Numbers.{u64_wiring, u128_wiring}
use wiring.Encode.TupleBytes.{pair-Encodes, FitsPair}
use wiring.Handshake.{forward_writes, forward_unwiring, outgoing_writes, incoming_writes}
use wiring.Listener.{WireInfo}

-- An id and an access key of their widths.
abbrev pub FitsForward : ℕ × ℕ → Type 0
FitsForward f = (f.0 < 2 ^ 64) × (f.1 < 2 ^ 128)

abbrev pub enc_forward : ℕ × ℕ → List ℕ
enc_forward f = to_be_bytes 8 f.0 ++ to_be_bytes 16 f.1

forward_parts-Encodes :
    Encodes
      (pair_wiring u64_wiring u128_wiring)
      (FitsPair AnyValue AnyValue)
      (enc_pair (to_be_bytes 8) (to_be_bytes 16))
unfolding u128_wiring
forward_parts-Encodes =
    pair-Encodes u64_wiring u128_wiring AnyValue AnyValue (to_be_bytes 8) (to_be_bytes 16)
      u64-Encodes u128-Encodes (λ e. refl)

pub forward_written :
    (forward : Option (ℕ × ℕ)) → flatten (forward_writes forward) ≡ enc_option enc_forward forward
unfolding forward_writes
forward_written forward = (option-Encodes _ _ _ forward_parts-Encodes).async forward

pub forward-Takes :
    (forward : Option (ℕ × ℕ))
    → ((f : ℕ × ℕ) → forward ≡ some f → FitsForward f)
    → Takes forward_unwiring forward (enc_option enc_forward forward)
unfolding forward_unwiring
forward-Takes forward fits = option-Takes _ enc_forward forward λ f e.
    pair-Takes u64_async_unwiring u128_async_unwiring f.0 f.1 (to_be_bytes 8 f.0)
      (to_be_bytes 16 f.1) (u64-Takes f.0 (omega (arith, (fits f e).0)))
      (u128-Takes f.1 (omega (arith, (fits f e).1)))

module _ {Url : Type 0} (as_str : Url → List ℕ) where
  pub outgoing_written :
      (info : WireInfo (ConnectInfo Url)) (forward : Option (ℕ × ℕ))
      → flatten (outgoing_writes as_str info none none forward)
        ≡ (1 ∷ enc_wire_info as_str info) ++ enc_option enc_forward forward
  unfolding outgoing_writes
  outgoing_written info forward =
      flatten-append _ (forward_writes forward)
      ∙ rw (forward_written forward) (
          ap (λ (b : List ℕ). b ++ enc_option enc_forward forward)
            ((option-Encodes _ _ _ (wire_info-Encodes as_str)).by_ref (some info)))

  pub incoming_written :
      (info : WireInfo (ConnectInfo Url))
      → flatten (incoming_writes as_str info none) ≡ enc_wire_info as_str info
  unfolding incoming_writes
  incoming_written info = (wire_info-Encodes as_str).by_ref info
