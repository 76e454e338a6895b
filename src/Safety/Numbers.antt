-- ===== src/Safety/Numbers.antt =====
-- wiring/src/core/unwire.rs: measuring and then reading the numbers, `bool` and `()`.
use wiring.Base.{
  true, ◌≤◌, arith, ◌≢◌, length, undefined, ok, drop, not, ◌>>=◌, ◌==◌, err, take, refl, Bool-cases,
  ◌≡◌, panic, inl, inr, ◌*◌, ℕ, List, false, Result,
}
use wiring.Bytes.{from_be_bytes}
use wiring.Decode.{
  Reader, safe, raw, UnsafeReader, read_raw, sync_unwire_u8, via_raw, sync_unwiring_array,
}
use wiring.Decode.Numbers.{
  i32_unwiring, u64_unwiring, bool_unwiring, i16_unwiring, unit_unwiring, u8_unwiring, u32_unwiring,
  i64_unwiring, u16_unwiring, i8_unwiring, i128_unwiring, u128_unwiring,
}
use wiring.Safety.{At, Lands, Safe, read_raw-At, sized-Safe, steps_Lands, Lands-check_capacity}
use native.Mathlib.Nat.{mul-one}

-- A raw read of `w` bytes, whatever becomes of them.
raw_step :
    {B : Type 0} (w : ℕ) (k : List ℕ → B) (b : List ℕ) (r : UnsafeReader)
    → At r b
    → w ≤ length b
    → Lands (drop w b) (via_raw (read_raw w r >>= λ p. ok (k p.0, p.1)))
raw_step w k b r h le = let (r', e, h') = read_raw-At w r b h le in rw e h'

-- The same read, through `read_exact`.
exact_step :
    {B : Type 0} (w : ℕ) (k : List ℕ → B) (b : List ℕ) (r : UnsafeReader)
    → At r b
    → w ≤ length b
    → Lands (drop w b) (via_raw (read_raw w r) >>= λ p. ok (k p.0, p.1))
exact_step w k b r h le = let (r', e, h') = read_raw-At w r b h le in rw e h'

byte_step :
    {B : Type 0} (k : ℕ → Result B) (b : List ℕ) (r : UnsafeReader)
    → ((n : ℕ) → k n ≢ undefined)
    → At r b
    → 1 ≤ length b
    → Lands (drop 1 b) (sync_unwire_u8 (raw r) >>= λ p. (k p.0 >>= λ y. ok (y, p.1)))
unfolding sync_unwire_u8
byte_step k b r never h le =
    let (r', e, h') = read_raw-At 1 r b h le in
    rw e (returned r' (k (from_be_bytes (take 1 b))) (never _) h')
  where
    returned :
        {C : Type 0} {c : List ℕ} (s : UnsafeReader) (m : Result C)
        → m ≢ undefined
        → At s c
        → Lands c (m >>= λ y. ok (y, raw s))
    returned s (ok y) nu a = a
    returned s (err x) nu a = tt
    returned s panic nu a = tt
    returned s undefined nu a = absurd (nu refl)

pub u8-Safe : Safe u8_unwiring
unfolding u8_unwiring
u8-Safe =
    sized-Safe _ 1 false 1 (omega arith) (λ e. refl) (omega arith)
      (λ b r h le. raw_step 1 from_be_bytes b r h le)

pub i8-Safe : Safe i8_unwiring
unfolding i8_unwiring
i8-Safe =
    sized-Safe _ 1 false 1 (omega arith) (λ e. refl) (omega arith)
      (λ b r h le. raw_step 1 from_be_bytes b r h le)

pub u16-Safe : Safe u16_unwiring
unfolding u16_unwiring
u16-Safe =
    sized-Safe _ 2 false 2 (omega arith) (λ e. refl) (omega arith)
      (λ b r h le. raw_step 2 from_be_bytes b r h le)

pub i16-Safe : Safe i16_unwiring
unfolding i16_unwiring
i16-Safe =
    sized-Safe _ 2 false 2 (omega arith) (λ e. refl) (omega arith)
      (λ b r h le. raw_step 2 from_be_bytes b r h le)

pub u32-Safe : Safe u32_unwiring
unfolding u32_unwiring
u32-Safe =
    sized-Safe _ 4 false 4 (omega arith) (λ e. refl) (omega arith)
      (λ b r h le. raw_step 4 from_be_bytes b r h le)

pub i32-Safe : Safe i32_unwiring
unfolding i32_unwiring
i32-Safe =
    sized-Safe _ 4 false 4 (omega arith) (λ e. refl) (omega arith)
      (λ b r h le. raw_step 4 from_be_bytes b r h le)

pub u64-Safe : Safe u64_unwiring
unfolding u64_unwiring
u64-Safe =
    sized-Safe _ 8 false 8 (omega arith) (λ e. refl) (omega arith)
      (λ b r h le. raw_step 8 from_be_bytes b r h le)

pub i64-Safe : Safe i64_unwiring
unfolding i64_unwiring
i64-Safe =
    sized-Safe _ 8 false 8 (omega arith) (λ e. refl) (omega arith)
      (λ b r h le. raw_step 8 from_be_bytes b r h le)

pub u128-Safe : Safe u128_unwiring
unfolding u128_unwiring
u128-Safe =
    sized-Safe _ 16 false 16 (omega arith) (λ e. refl) (omega arith)
      (λ b r h le. exact_step 16 from_be_bytes b r h le)

pub i128-Safe : Safe i128_unwiring
unfolding i128_unwiring
i128-Safe =
    sized-Safe _ 16 false 16 (omega arith) (λ e. refl) (omega arith)
      (λ b r h le. exact_step 16 from_be_bytes b r h le)

pub bool-Safe : Safe bool_unwiring
unfolding bool_unwiring
bool-Safe =
    sized-Safe _ 1 true 0 (omega arith) (λ e. cc) (omega arith)
      (λ b r h le. byte_step (λ n. ok (not (n == 0))) b r (λ n e. cc) h le)

unit_step :
    (b : List ℕ) (r : UnsafeReader)
    → At r b
    → 1 ≤ length b
    → Lands (drop 1 b) (unit_unwiring.sync_unwiring (raw r))
unfolding unit_unwiring
unit_step b r h le =
    let (r', e, h') = read_raw-At 1 r b h le in
    rw e (elim (Bool-cases (from_be_bytes (take 1 b) == 0)) [
      | inl zero_tag ↦ rw zero_tag h'
      | inr other ↦ rw other tt
    ])

advanced :
    (n : ℕ) (b : List ℕ) (len : ℕ) (r0 : Reader)
    → unit_unwiring.bytes_length n (safe b) ≡ ok (len, r0)
    → (n ≤ length b) × (r0 ≡ safe (drop n b))
unfolding unit_unwiring
advanced n b len r0 e = ground arith

unit_length-defined : (n : ℕ) (b : List ℕ) → unit_unwiring.bytes_length n (safe b) ≢ undefined
unfolding unit_unwiring
unit_length-defined n b e = ground arith

pub unit-Safe : Safe unit_unwiring
unfolding unit_unwiring sync_unwiring_array
unit-Safe = record {
  small = omega arith;
  fixed_fits = omega arith;
  defined = λ n b. unit_length-defined n b;
  measured = λ n b len r0 e.
      let inv = advanced n b len r0 e in
      (
        drop n b,
        inv.1,
        λ r h.
            Lands-check_capacity (n * 0) (drop n b) (sync_unwiring_array unit_unwiring n (raw r))
              λ fits.
                rw (mul-one n) at
                  (steps_Lands unit_unwiring 1 unit_step n b r h (omega (arith, inv.0))),
      );
  fixed = λ m. cc;
}
