-- ===== src/Decode/AsyncReads.antt =====
-- wiring/src/core/unwire.rs: the asynchronous `unwiring` and the synchronous `sync_unwiring`, compared.
use wiring.Base.{
  Option, Option-cases, inl, inr, ErrorKind, panic, ℕ, List, ◌>>=◌, ok, drop, Result, ◌≡◌, arith,
  ok-inverse, if◌then◌else◌, ◌==◌, err, not, invalid_data, Bool, true, false, subst,
}
use wiring.Decode.{
  Reader, safe, sync_unwire_u64, split_slice, safe_string, sync_unwire_f32, sync_unwire_u32,
  sync_unwire_u16, from_utf8,
}
use wiring.Decode.Async.{
  u8_async_unwiring, AsyncUnwiring, u64_async_unwiring, u128_async_unwiring, string_async_unwiring,
  u16_async_unwiring, bool_async_unwiring, unit_async_unwiring, f32_async_unwiring,
  u32_async_unwiring, i64_async_unwiring, i16_async_unwiring, i8_async_unwiring, i32_async_unwiring,
  f64_async_unwiring, url_async_unwiring, i128_async_unwiring,
}
use wiring.Decode.Containers.{string_unwiring, url_unwiring}
use wiring.Decode.Numbers.{
  u8_unwiring, u64_unwiring, u128_unwiring, u32_unwiring, unit_unwiring, u16_unwiring,
  bool_unwiring, f32_unwiring, i16_unwiring, i32_unwiring, i64_unwiring, i128_unwiring, i8_unwiring,
  f64_unwiring,
}

-- What the synchronous method returns on a slice, the asynchronous one returns on a stream of the same bytes.
abbrev pub Agree : {A : Type 0} → Result (A × Reader) → Result (A × List ℕ) → Type 0
Agree {A} m n = (x : A) (r : Reader) → m ≡ ok (x, r) → (c : List ℕ) × (r ≡ safe c) × (n ≡ ok (x, c))

-- Whatever the synchronous method reads from a slice, the asynchronous one reads from a stream of the same
-- bytes, and leaves the same.
abbrev pub Follows : {A : Type 0} → (Reader → Result (A × Reader)) → AsyncUnwiring A → Type 0
Follows g f = (b : List ℕ) → Agree (g (safe b)) (f b)

pub Agree-bind :
    {A B : Type 0} (m : Result (A × Reader)) (n : Result (A × List ℕ))
    (k : A × Reader → Result (B × Reader)) (h : A × List ℕ → Result (B × List ℕ))
    → Agree m n
    → ((x : A) (c : List ℕ) → Agree (k (x, safe c)) (h (x, c)))
    → Agree (m >>= k) (n >>= h)
Agree-bind m n k h first next y r e =
    let (p, em, ek) = ok-inverse m k e in
    let (c, er, en) = first p.0 p.1 em in
    let (d, er', eh) = next p.0 c y r (subst (λ (r' : Reader). k (p.0, r') ≡ ok (y, r)) er ek) in
    (d, er', rw en eh)

pub Agree-ok : {A : Type 0} (x : A) (b : List ℕ) → Agree (ok (x, safe b)) (ok (x, b))
Agree-ok x b y r e = (b, cc, cc)

pub Agree-err : {A : Type 0} (k : ErrorKind) → Agree {A = A} (err k) (err k)
Agree-err k y r e = cc

pub Agree-panic : {A : Type 0} → Agree {A = A} panic panic
Agree-panic y r e = cc

pub Agree-if :
    {A : Type 0} (c : Bool) (m m' : Result (A × Reader)) (n n' : Result (A × List ℕ))
    → Agree m n
    → Agree m' n'
    → Agree (if c then m else m') (if c then n else n')
Agree-if true m m' n n' first second = first
Agree-if false m m' n n' first second = second

pub u8-Follows : Follows u8_unwiring.sync_unwiring u8_async_unwiring
unfolding u8_unwiring u8_async_unwiring
u8-Follows b n r e = (drop 1 b, ground arith, ground arith)

pub u64-Follows : Follows u64_unwiring.sync_unwiring u64_async_unwiring
unfolding u64_unwiring u64_async_unwiring sync_unwire_u64 split_slice
u64-Follows b n r e = (drop 8 b, ground arith, ground arith)

pub u128-Follows : Follows u128_unwiring.sync_unwiring u128_async_unwiring
unfolding u128_unwiring u128_async_unwiring
u128-Follows b n r e = (drop 16 b, ground arith, ground arith)

pub u16-Follows : Follows u16_unwiring.sync_unwiring u16_async_unwiring
unfolding u16_unwiring u16_async_unwiring sync_unwire_u16 split_slice
u16-Follows b n r e = (drop 2 b, ground arith, ground arith)

pub u32-Follows : Follows u32_unwiring.sync_unwiring u32_async_unwiring
unfolding u32_unwiring u32_async_unwiring sync_unwire_u32 split_slice
u32-Follows b n r e = (drop 4 b, ground arith, ground arith)

pub f32-Follows : Follows f32_unwiring.sync_unwiring f32_async_unwiring
unfolding f32_unwiring f32_async_unwiring sync_unwire_f32 split_slice
f32-Follows b n r e = (drop 4 b, ground arith, ground arith)

pub i8-Follows : Follows i8_unwiring.sync_unwiring i8_async_unwiring
unfolding i8_unwiring i8_async_unwiring
i8-Follows b n r e = (drop 1 b, ground arith, ground arith)

pub i16-Follows : Follows i16_unwiring.sync_unwiring i16_async_unwiring
unfolding i16_unwiring i16_async_unwiring sync_unwire_u16 split_slice
i16-Follows b n r e = (drop 2 b, ground arith, ground arith)

pub i32-Follows : Follows i32_unwiring.sync_unwiring i32_async_unwiring
unfolding i32_unwiring i32_async_unwiring sync_unwire_u32 split_slice
i32-Follows b n r e = (drop 4 b, ground arith, ground arith)

pub i64-Follows : Follows i64_unwiring.sync_unwiring i64_async_unwiring
unfolding i64_unwiring i64_async_unwiring sync_unwire_u64 split_slice
i64-Follows b n r e = (drop 8 b, ground arith, ground arith)

pub f64-Follows : Follows f64_unwiring.sync_unwiring f64_async_unwiring
unfolding f64_unwiring f64_async_unwiring
f64-Follows b n r e = (drop 8 b, ground arith, ground arith)

pub i128-Follows : Follows i128_unwiring.sync_unwiring i128_async_unwiring
unfolding i128_unwiring i128_async_unwiring
i128-Follows b n r e = (drop 16 b, ground arith, ground arith)

pub bool-Follows : Follows bool_unwiring.sync_unwiring bool_async_unwiring
unfolding bool_unwiring bool_async_unwiring u8_unwiring
bool-Follows b = Agree-bind _ _ _ _ (u8-Follows b) λ n c. Agree-ok (not (n == 0)) c

pub unit-Follows : Follows unit_unwiring.sync_unwiring unit_async_unwiring
unfolding unit_unwiring unit_async_unwiring u8_unwiring
unit-Follows b =
    Agree-bind _ _ _ _ (u8-Follows b)
      λ n c. Agree-if (n == 0) _ _ _ _ (Agree-ok tt c) (Agree-err invalid_data)

-- Whatever String::sync_unwiring reads from a slice, String::unwiring reads from a stream of the
-- same bytes, leaving the same.
pub string-Follows :
    (valid_utf8 : List ℕ → Bool)
    → Follows (string_unwiring valid_utf8).sync_unwiring (string_async_unwiring valid_utf8)
unfolding string_unwiring string_async_unwiring safe_string u64_unwiring from_utf8 split_slice
string-Follows valid_utf8 b =
    Agree-bind _ _ _ _ (u64-Follows b) λ len c s r e. (drop len c, ground arith, ground arith)

pub url-Follows :
    {Url : Type 0} (size : ℕ) (valid_utf8 : List ℕ → Bool) (from_str : List ℕ → Option Url)
    → Follows
        (url_unwiring size valid_utf8 from_str).sync_unwiring
        (url_async_unwiring valid_utf8 from_str)
unfolding url_unwiring url_async_unwiring
url-Follows size valid_utf8 from_str b = Agree-bind _ _ _ _ (string-Follows valid_utf8 b) λ s c.
    elim (Option-cases (from_str s)) [
      | inl h ↦ rw h (Agree-err invalid_data)
      | inr h ↦ rw h.1 (Agree-ok h.0 c)
    ]
