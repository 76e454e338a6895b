-- ===== src/Decode/Takes.antt =====
-- wiring/src/core/unwire.rs: asynchronous reads one behind the other, as every structure makes them.
use wiring.Base.{
  ℕ, ◌≡◌, refl, sym, ap, ◌∙◌, Bool, List, [], ◌∷◌, ◌++◌, append_assoc, Result, ok, ◌>>=◌, Option,
  some, none,
}
use wiring.Bytes.{to_be_bytes}
use wiring.Format.{enc_unit, enc_bool, enc_byte, enc_string, enc_option}
use wiring.Decode.{Unwiring, safe, unread}
use wiring.Decode.Async.{
  u8_async_unwiring, bool_async_unwiring, AsyncUnwiring, unit_async_unwiring, u16_async_unwiring,
  string_async_unwiring, u64_async_unwiring, u32_async_unwiring, u128_async_unwiring,
  pair_async_unwiring, option_async_unwiring,
}
use wiring.Decode.AsyncReads.{
  Follows, string-Follows, bool-Follows, u16-Follows, u8-Follows, u32-Follows, u64-Follows,
  unit-Follows, u128-Follows,
}
use wiring.Decode.Containers.{string_unwiring}
use wiring.Decode.Laws.{IsUint, Reads, AnyByte}
use wiring.Decode.Numbers.{
  u8_unwiring, u16_unwiring, u32_unwiring, u64_unwiring, u128_unwiring, bool_unwiring,
  unit_unwiring,
}
use wiring.Decode.ReadBack.{
  FitsText, AnyOf, sync_u16_read, sync_u32_read, string_read, unit_read, bool_read, sync_u8_read,
  sync_u128_read, sync_u64_read,
}

-- A read takes these bytes from the front of the stream, for this value.
abbrev pub Takes : {A : Type 0} → AsyncUnwiring A → A → List ℕ → Type 0
Takes f x bs = (rest : List ℕ) → f (bs ++ rest) ≡ ok (x, rest)

pub Takes-bind :
    {A B : Type 0} (f : AsyncUnwiring A) (g : A × List ℕ → Result (B × List ℕ)) (x : A) (y : B)
    (bs cs : List ℕ)
    → Takes f x bs
    → Takes (λ b. g (x, b)) y cs
    → Takes (λ b. f b >>= g) y (bs ++ cs)
Takes-bind f g x y bs cs first next rest =
    rw (append_assoc bs cs rest, first (cs ++ rest)) (next rest)

pub Takes-ok : {A : Type 0} (x : A) → Takes (λ b. ok (x, b)) x []
Takes-ok x rest = refl

-- What the synchronous method reads from the format, the asynchronous one takes from the stream.
pub Takes-of_reads :
    {A : Type 0} (Fits : A → Type 0) (enc : A → List ℕ) (u : Unwiring A) (f : AsyncUnwiring A)
    → Reads Fits enc u.sync_unwiring
    → Follows u.sync_unwiring f
    → (x : A) → Fits x
    → Takes f x (enc x)
Takes-of_reads Fits enc u f reads follows x fits rest =
    let (c, same, read) = follows (enc x ++ rest) x (safe rest) (reads x rest fits) in
    read ∙ ap (λ (c' : List ℕ). ok (x, c')) (sym (ap unread same))

pub u8-Takes : (n : ℕ) → Takes u8_async_unwiring n (n ∷ [])
u8-Takes n = Takes-of_reads AnyByte enc_byte u8_unwiring _ sync_u8_read u8-Follows n tt

pub u16-Takes : (n : ℕ) → IsUint 2 n → Takes u16_async_unwiring n (to_be_bytes 2 n)
u16-Takes n h =
    Takes-of_reads (IsUint 2) (to_be_bytes 2) u16_unwiring _ sync_u16_read u16-Follows n h

pub u32-Takes : (n : ℕ) → IsUint 4 n → Takes u32_async_unwiring n (to_be_bytes 4 n)
u32-Takes n h =
    Takes-of_reads (IsUint 4) (to_be_bytes 4) u32_unwiring _ sync_u32_read u32-Follows n h

pub u64-Takes : (n : ℕ) → IsUint 8 n → Takes u64_async_unwiring n (to_be_bytes 8 n)
u64-Takes n h =
    Takes-of_reads (IsUint 8) (to_be_bytes 8) u64_unwiring _ sync_u64_read u64-Follows n h

pub u128-Takes : (n : ℕ) → IsUint 16 n → Takes u128_async_unwiring n (to_be_bytes 16 n)
u128-Takes n h =
    Takes-of_reads (IsUint 16) (to_be_bytes 16) u128_unwiring _ sync_u128_read u128-Follows n h

pub bool-Takes : (b : Bool) → Takes bool_async_unwiring b (enc_bool b)
bool-Takes b = Takes-of_reads AnyOf enc_bool bool_unwiring _ bool_read bool-Follows b tt

pub unit-Takes : (u : Unit {0}) → Takes unit_async_unwiring u (enc_unit u)
unit-Takes u = Takes-of_reads AnyOf enc_unit unit_unwiring _ unit_read unit-Follows u tt

pub string-Takes :
    (valid_utf8 : List ℕ → Bool) (s : List ℕ)
    → FitsText valid_utf8 s
    → Takes (string_async_unwiring valid_utf8) s (enc_string s)
string-Takes valid_utf8 s h =
    Takes-of_reads (FitsText valid_utf8) enc_string (string_unwiring valid_utf8) _
      (string_read valid_utf8) (string-Follows valid_utf8) s h

module _ {A : Type 0} (f : AsyncUnwiring A) where
  pub option-Takes :
      (enc : A → List ℕ) (o : Option A)
      → ((x : A) → o ≡ some x → Takes f x (enc x))
      → Takes (option_async_unwiring f) o (enc_option enc o)
  unfolding option_async_unwiring
  option-Takes enc none h rest = rw (u8-Takes 0 rest) refl
  option-Takes enc (some x) h rest = rw (u8-Takes 1 (enc x ++ rest), h x refl rest) refl

module _ {A B : Type 0} (f : AsyncUnwiring A) (g : AsyncUnwiring B) where
  pub pair-Takes :
      (x : A) (y : B) (bs cs : List ℕ)
      → Takes f x bs
      → Takes g y cs
      → Takes (pair_async_unwiring f g) (x, y) (bs ++ cs)
  unfolding pair_async_unwiring
  pair-Takes x y bs cs first second rest =
      rw (append_assoc bs cs rest, first (cs ++ rest), second rest) refl
