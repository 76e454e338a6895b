-- ===== src/Safety.antt =====
-- wiring/src/core/unwire.rs: `BufUnWire::unwire`, which measures a value and then reads it unchecked.
pub mod Numbers
pub mod Containers
pub mod Tuples
pub mod Overruns
use wiring.Base.{
  Result, ◌≤◌, ℕ, List, ◌≡◌, ◌*◌, drop, ◌>>=◌, length, ok, ◌+◌, false, take, err, le→leb, panic,
  arith, undefined, sym, drop-drop, ◌∙◌, length-drop, ◌%◌, suc, Bool, ◌^◌, ap, zero, ok-inverse,
  Bool-cases, ltb, inl, inr, ltb→ge, ge→ltb, ◌≢◌, ◌∷◌, [], leb, refl, subst,
}
use wiring.Bytes.{isize_max}
use wiring.Decode.{
  Unwiring, Reader, safe, raw, UnsafeReader, read_raw, default_bytes_length, sync_unwiring_array,
  check_capacity, unsafe_sync_unwire, new_unsafe_reader,
}
use wiring.Decode.Numbers.{provided_unwiring}
use native.Mathlib.Nat.{zero-mul, suc-mul}

-- The raw reader stands where the bytes `b` are still to be read.
abbrev pub At : UnsafeReader → List ℕ → Type 0
At r b = (drop r.position r.slice ≡ b) × (r.position + length b ≡ length r.slice)

-- The outcome of an unchecked read: a value, with `c` still to be read, an error or a panic, and
-- never undefined behaviour.
abbrev pub Lands {ℓ} : {A : Type ℓ} → List ℕ → Result (A × Reader) → Type 0
Lands c (ok (x, safe b)) = ⊥
Lands c (ok (x, raw r)) = At r c
Lands c (err e) = Unit
Lands c panic = Unit
Lands c undefined = ⊥

-- If measuring succeeds, then the read lands where measuring did.
abbrev pub SafeStep {ℓ κ} :
    {A : Type ℓ} {B : Type κ}
    → (Reader → Result (A × Reader))
    → (Reader → Result (B × Reader))
    → Type ℓ
SafeStep {A} f g =
    (b : List ℕ) (len : A) (r0 : Reader)
    → f (safe b) ≡ ok (len, r0)
    → (c : List ℕ) × (r0 ≡ safe c) × ((r : UnsafeReader) → At r b → Lands c (g (raw r)))

-- Reading `n` values, once room for them could be reserved: otherwise the caller has panicked.
abbrev pub reserved_array : {A : Type 0} → Unwiring A → ℕ → Reader → Result (List A × Reader)
reserved_array u n r = check_capacity (n * u.size_of) (sync_unwiring_array u n r)

-- What makes `BufUnWire` safe at a type: both ways of measuring values of it, its own and the one by
-- `FIXED_SIZE` where it is not `MIXED`, cover what reading the values takes.
pub record Safe {A : Type 0} (u : Unwiring A) : Type 0 where
  pub small : u.size_of ≤ isize_max
  pub fixed_fits : u.fixed_size ≤ u.size_of
  pub defined : (n : ℕ) (b : List ℕ) → u.bytes_length n (safe b) ≢ undefined
  pub measured : (n : ℕ) → SafeStep (u.bytes_length n) (reserved_array u n)
  pub fixed :
      u.mixed ≡ false
      → (n : ℕ) → SafeStep (default_bytes_length u.fixed_size n) (reserved_array u n)

pub Lands-bind {ℓ κ} :
    {A : Type ℓ} {B : Type κ} (m : Result (A × Reader)) (f : A × Reader → Result (B × Reader))
    (c d : List ℕ)
    → Lands c m
    → ((x : A) (r : UnsafeReader) → At r c → Lands d (f (x, raw r)))
    → Lands d (m >>= f)
Lands-bind (ok (x, safe b)) f c d h k = absurd h
Lands-bind (ok (x, raw r)) f c d h k = k x r h
Lands-bind (err e) f c d h k = tt
Lands-bind panic f c d h k = tt
Lands-bind undefined f c d h k = absurd h

-- A raw read inside the buffer gives the bytes there.
pub read_raw-At :
    (n : ℕ) (r : UnsafeReader) (b : List ℕ)
    → At r b
    → n ≤ length b
    → (r' : UnsafeReader) × (read_raw n r ≡ ok (take n b, r')) × At r' (drop n b)
unfolding read_raw
read_raw-At n r b h le = (
  record r { position = r.position + n },
  rw (le→leb (r.position + n) (length r.slice) (omega arith), h.0),
  (sym (drop-drop n r.position r.slice) ∙ rw h.0, omega (arith, length-drop n b)),
)

-- Measuring a number of equal sizes is one step, over all their bytes if that does not wrap.
pub default_bytes_length_inv :
    (size n : ℕ) (b : List ℕ) (len : ℕ) (r0 : Reader)
    → default_bytes_length size n (safe b) ≡ ok (len, r0)
    → (size * n % 2 ^ 64 ≤ length b) × (r0 ≡ safe (drop (size * n % 2 ^ 64) b))
unfolding default_bytes_length
default_bytes_length_inv size n b len r0 e = ground arith

pub default_bytes_length-defined :
    (size n : ℕ) (b : List ℕ) → default_bytes_length size n (safe b) ≢ undefined
unfolding default_bytes_length
default_bytes_length-defined size n b e = ground arith

pub measured_once :
    (size : ℕ) (b : List ℕ)
    → size ≤ isize_max
    → size ≤ length b
    → default_bytes_length size 1 (safe b) ≡ ok (size, safe (drop size b))
unfolding default_bytes_length
measured_once size b small le =
    let exact : size * 1 % 2 ^ 64 ≡ size = omega arith in rw exact (rw (ge→ltb (length b) size le))

-- A chain of calls that are defined is defined.
pub defined_bind {ℓ κ} :
    {A : Type ℓ} {B : Type κ} (m : Result A) (f : A → Result B)
    → m ≢ undefined
    → ((a : A) → m ≡ ok a → f a ≢ undefined)
    → (m >>= f) ≢ undefined
defined_bind (ok a) f h k e = k a refl e
defined_bind (err x) f h k e = cc
defined_bind panic f h k e = cc
defined_bind undefined f h k e = h refl

-- Reading one value a step of `size` bytes at a time takes `n` steps in all.
pub steps_Lands :
    {A : Type 0} (u : Unwiring A) (size : ℕ)
    → ((b : List ℕ) (r : UnsafeReader)
        → At r b
        → size ≤ length b
        → Lands (drop size b) (u.sync_unwiring (raw r)))
    → (n : ℕ) (b : List ℕ) (r : UnsafeReader) → At r b
    → n * size ≤ length b
    → Lands (drop (n * size) b) (sync_unwiring_array u n (raw r))
unfolding sync_unwiring_array
steps_Lands u size step zero b r h le = rw (zero-mul size) h
steps_Lands u size step (suc n) b r h le =
    let rest : n * size ≤ length (drop size b) =
      omega (arith, suc-mul n size, length-drop size b) in
    let here : size ≤ length b = omega (arith, suc-mul n size) in
    let there : drop (n * size) (drop size b) ≡ drop (suc n * size) b =
      drop-drop (n * size) size b ∙ ap (λ (k : ℕ). drop k b) (omega (arith, suc-mul n size)) in
    Lands-bind (u.sync_unwiring (raw r)) _ (drop size b) (drop (suc n * size) b) (step b r h here)
      λ x r' h'.
        Lands-bind (sync_unwiring_array u n (raw r')) _ (drop (suc n * size) b)
          (drop (suc n * size) b) (rw there at (steps_Lands u size step n (drop size b) r' h' rest))
          (λ xs r'' h''. h'')

-- A read that is put behind the reservation of room.
pub Lands-check_capacity :
    {A : Type 0} (n : ℕ) (c : List ℕ) (m : Result (A × Reader))
    → (n ≤ isize_max → Lands c m)
    → Lands c (check_capacity n m)
Lands-check_capacity n c m h = elim (Bool-cases (ltb isize_max n)) [
  | inl big ↦ rw big tt
  | inr fits ↦ rw fits (h (ltb→ge isize_max n fits))
]

-- If every read takes `size` bytes, then measuring by that size is safe.
pub equal_steps :
    {A : Type 0} (u : Unwiring A) (size : ℕ)
    → size ≤ u.size_of
    → ((b : List ℕ) (r : UnsafeReader)
        → At r b
        → size ≤ length b
        → Lands (drop size b) (u.sync_unwiring (raw r)))
    → (n : ℕ) → SafeStep (default_bytes_length size n) (reserved_array u n)
equal_steps u size le step n b len r0 e =
    let inv = default_bytes_length_inv size n b len r0 e in
    (
      drop (size * n % 2 ^ 64) b,
      inv.1,
      λ r h. Lands-check_capacity (n * u.size_of) _ (sync_unwiring_array u n (raw r)) λ fits.
          let bound : n * size ≤ n * u.size_of = grind arith in
          let exact : size * n % 2 ^ 64 ≡ n * size = omega arith in
          rw exact (steps_Lands u size step n b r h (omega (arith, inv.0))),
    )

-- A type whose every read takes `size_of` bytes, and that says so, may be read after measuring.
pub sized-Safe :
    {A : Type 0} (f : Reader → Result (A × Reader)) (size : ℕ) (is_mixed : Bool) (fixed_size : ℕ)
    → size ≤ isize_max
    → (is_mixed ≡ false → fixed_size ≡ size)
    → fixed_size ≤ size
    → ((b : List ℕ) (r : UnsafeReader) → At r b → size ≤ length b → Lands (drop size b) (f (raw r)))
    → Safe (provided_unwiring fixed_size is_mixed size f)
unfolding provided_unwiring sync_unwiring_array
sized-Safe f size is_mixed fixed_size small says fits step =
    let steps =
      equal_steps (provided_unwiring fixed_size is_mixed size f) size (omega arith) step in
    record {
      small = small;
      fixed_fits = fits;
      defined = default_bytes_length-defined size;
      measured = steps;
      fixed = λ m n. rw (says m) (steps n);
    }

-- A step may follow a step.
pub SafeStep-bind :
    {A B C D : Type 0} (f : Reader → Result (A × Reader)) (g : Reader → Result (B × Reader))
    (f' : A → Reader → Result (C × Reader)) (g' : B × Reader → Result (D × Reader))
    → SafeStep f g
    → ((x : A) (b : List ℕ) (len : C) (r0 : Reader)
        → f' x (safe b) ≡ ok (len, r0)
        → (c : List ℕ) × (r0 ≡ safe c)
          × ((y : B) (r : UnsafeReader) → At r b → Lands c (g' (y, raw r))))
    → SafeStep (λ r. f r >>= λ p. f' p.0 p.1) (λ r. g r >>= g')
SafeStep-bind f g f' g' first second b len r0 e =
    let ((x, r1), e1, e2) = ok-inverse (f (safe b)) _ e in
    let (c, ec, lands) = first b x r1 e1 in
    let (d, ed, lands') = second x c len r0 (rw ec at e2) in
    (d, ed, λ r h. Lands-bind (g (raw r)) g' c d (lands r h) lands')

module _ {A : Type 0} (u : Unwiring A) where
  pub one_Lands :
      (c : List ℕ) (m : Result (A × Reader)) → Lands c (m >>= λ p. ok (p.0 ∷ [], p.1)) → Lands c m
  one_Lands c (ok (x, safe b)) h = h
  one_Lands c (ok (x, raw r)) h = h
  one_Lands c (err e) h = tt
  one_Lands c panic h = tt
  one_Lands c undefined h = h

  -- One value, measured and then read.
  pub single_step : Safe u → SafeStep (u.bytes_length 1) u.sync_unwiring
  unfolding sync_unwiring_array
  single_step s b len r0 e =
      let (c, ec, lands) = s.measured 1 b len r0 e in
      (
        c,
        ec,
        λ r h.
            one_Lands c (u.sync_unwiring (raw r))
              (rw (ge→ltb isize_max (1 * u.size_of) (omega (arith, s.small))) at (lands r h)),
      )

-- BufUnWire::new(b).unwire::<T>() never reads outside its buffer, whatever the bytes b are, if T's
-- bytes_length and sync_unwiring satisfy Safe.
pub sync_unwire-defined :
    {A : Type 0} (u : Unwiring A) (b : List ℕ)
    → Safe u
    → unsafe_sync_unwire u (new_unsafe_reader b) ≢ undefined
unfolding unsafe_sync_unwire new_unsafe_reader
sync_unwire-defined u b s = defined_bind (u.bytes_length 1 (safe b)) _ (s.defined 1 b) λ p e.
    let (c, ec, lands) = single_step u s b p.0 p.1 e in
    elim (Bool-cases (leb ((0 + p.0) % 2 ^ 64) (length b))) [
      | inl fits ↦
          rw fits (λ bad. subst (Lands c) bad (lands (new_unsafe_reader b) (refl, omega arith)))
      | inr beyond ↦ rw beyond (λ bad. cc)
    ]
