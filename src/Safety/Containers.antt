-- ===== src/Safety/Containers.antt =====
-- wiring/src/core/unwire.rs: measuring and then reading texts, vectors and options.
use wiring.Base.{
  ◌>>=◌, Bool-cases, ok, ◌≡◌, ◌≤◌, ok-inverse, suc, ◌*◌, length, ◌==◌, ◌∷◌, inl, ◌%◌, inr, ◌^◌,
  take, undefined, Bool, false, ap, zero, sym, ◌∙◌, ◌≢◌, subst, Result, List, arith, drop, ℕ,
}
use wiring.Bytes.{from_be_bytes, isize_max}
use wiring.Decode.{
  Unwiring, Reader, safe, raw, UnsafeReader, sync_unwiring_array, sync_unwire_u8, sync_unwire_u64,
  default_bytes_length, sync_unwire_string,
}
use wiring.Decode.Containers.{
  add_lengths, option_body_length, option_unwiring, vec_body_length, vec_unwiring, option_tag,
  vec_length, option_length, wrapping_add, string_unwiring, string_length,
}
use wiring.Safety.{
  At, SafeStep, Safe, read_raw-At, Lands-bind, reserved_array, SafeStep-bind, Lands-check_capacity,
  single_step, defined_bind, default_bytes_length-defined,
}

-- Reading a length on both readers: the same number, and the raw reader lands behind it.
abbrev pub Agrees : {A : Type 0} → (Reader → Result (A × Reader)) → Type 0
Agrees {A} f =
    (b : List ℕ) (n : A) (r0 : Reader)
    → f (safe b) ≡ ok (n, r0)
    → (c : List ℕ) × (r0 ≡ safe c)
      × ((r : UnsafeReader) → At r b → (r' : UnsafeReader) × (f (raw r) ≡ ok (n, raw r')) × At r' c)

pub u64_inv :
    (b : List ℕ) (n : ℕ) (r0 : Reader)
    → sync_unwire_u64 (safe b) ≡ ok (n, r0)
    → (8 ≤ length b) × (n ≡ from_be_bytes (take 8 b)) × (r0 ≡ safe (drop 8 b))
unfolding sync_unwire_u64
u64_inv b n r0 e = ground arith

u64-defined : (b : List ℕ) → sync_unwire_u64 (safe b) ≢ undefined
unfolding sync_unwire_u64
u64-defined b e = ground arith

pub u8-defined : (b : List ℕ) → sync_unwire_u8 (safe b) ≢ undefined
unfolding sync_unwire_u8
u8-defined b e = ground arith

pub u64-Agrees : Agrees sync_unwire_u64
unfolding sync_unwire_u64
u64-Agrees b n r0 e =
    let (le, en, er) = u64_inv b n r0 e in
    (
      drop 8 b,
      er,
      λ r h.
          let (r', e', h') = read_raw-At 8 r b h le in
          (r', rw e' (ap (λ (k : ℕ). ok (k, raw r')) (sym en)), h'),
    )

u8_inv :
    (b : List ℕ) (n : ℕ) (r0 : Reader)
    → sync_unwire_u8 (safe b) ≡ ok (n, r0)
    → (1 ≤ length b) × (n ≡ from_be_bytes (take 1 b)) × (r0 ≡ safe (drop 1 b))
unfolding sync_unwire_u8
u8_inv b n r0 e = ground arith

pub u8-Agrees : Agrees sync_unwire_u8
unfolding sync_unwire_u8
u8-Agrees b n r0 e =
    let (le, en, er) = u8_inv b n r0 e in
    (
      drop 1 b,
      er,
      λ r h.
          let (r', e', h') = read_raw-At 1 r b h le in
          (r', rw e' (ap (λ (k : ℕ). ok (k, raw r')) (sym en)), h'),
    )

pub Agrees-bind :
    {A B C : Type 0} (f : Reader → Result (A × Reader)) (g : A × Reader → Result (B × Reader))
    (h : A × Reader → Result (C × Reader))
    → Agrees f
    → ((x : A) → SafeStep (λ r. g (x, r)) (λ r. h (x, r)))
    → SafeStep (λ r. f r >>= g) (λ r. f r >>= h)
Agrees-bind f g h agree step b len r0 e =
    let ((x, r1), e1, e2) = ok-inverse (f (safe b)) g e in
    let (c, ec, found) = agree b x r1 e1 in
    let (d, ed, lands) = step x c len r0 (ap (λ (r : Reader). g (x, r)) (sym ec) ∙ e2) in
    (d, ed, λ r a. let (r', e', a') = found r a in rw e' (lands r' a'))

module _ {A : Type 0} (u : Unwiring A) where
  -- A loop that measures value by value covers the loop that reads them.
  add_lengths_step :
      (f : Reader → Result (ℕ × Reader))
      → SafeStep f u.sync_unwiring
      → (n total : ℕ) → SafeStep (add_lengths f n total) (sync_unwiring_array u n)
  unfolding add_lengths sync_unwiring_array
  add_lengths_step f step zero total = λ b len r0 e. (b, cc, λ r h. h)
  add_lengths_step f step (suc n) total =
      SafeStep-bind f u.sync_unwiring (λ len r. add_lengths f n (wrapping_add total len) r)
        (λ p. sync_unwiring_array u n p.1 >>= λ q. ok (p.0 ∷ q.0, q.1)) step
        λ len b l r0 e.
          let (c, ec, lands) = add_lengths_step f step n (wrapping_add total len) b l r0 e in
          (
            c,
            ec,
            λ y r h.
                Lands-bind (sync_unwiring_array u n (raw r)) _ c c (lands r h) (λ xs r' h'. h'),
          )

  pub add_lengths-defined :
      (f : Reader → Result (ℕ × Reader))
      → SafeStep f u.sync_unwiring
      → ((b : List ℕ) → f (safe b) ≢ undefined)
      → (n total : ℕ) (b : List ℕ) → add_lengths f n total (safe b) ≢ undefined
  unfolding add_lengths
  add_lengths-defined f step fine zero total b = λ e. cc
  add_lengths-defined f step fine (suc n) total b = defined_bind (f (safe b)) _ (fine b) λ p e.
      let (c, ec, lands) = step b p.0 p.1 e in
      subst (λ (r : Reader). add_lengths f n (wrapping_add total p.0) r ≢ undefined) (sym ec)
        (add_lengths-defined f step fine n (wrapping_add total p.0) c)

  pub add_lengths-measured :
      (f : Reader → Result (ℕ × Reader))
      → SafeStep f u.sync_unwiring
      → (n total : ℕ) → SafeStep (add_lengths f n total) (reserved_array u n)
  add_lengths-measured f step n total b len r0 e =
      let (c, ec, lands) = add_lengths_step f step n total b len r0 e in
      (
        c,
        ec,
        λ r h.
            Lands-check_capacity (n * u.size_of) c (sync_unwiring_array u n (raw r))
              λ fits. lands r h,
      )

module _ {A : Type 0} (u : Unwiring A) (s : Safe u) where
  vec_body : (n : ℕ) → SafeStep (λ r. vec_body_length u (n, r)) (reserved_array u n)
  unfolding vec_body_length
  vec_body n b len r0 e = elim (Bool-cases u.mixed) [
    | inl m ↦ s.measured n b len r0 (rw m at e)
    | inr m ↦ s.fixed m n b len r0 (unfold default_bytes_length in rw m at e)
  ]

  vec_body-defined : (n : ℕ) (b : List ℕ) → vec_body_length u (n, safe b) ≢ undefined
  unfolding vec_body_length
  vec_body-defined n b = elim (Bool-cases u.mixed) [
    | inl m ↦ rw m (s.defined n b)
    | inr m ↦ rw m (unfold default_bytes_length in default_bytes_length-defined u.fixed_size n b)
  ]

  vec_length-defined : (b : List ℕ) → vec_length u (safe b) ≢ undefined
  unfolding vec_length
  vec_length-defined b = defined_bind (sync_unwire_u64 (safe b)) _ (u64-defined b) λ p e.
      subst (λ (r : Reader). vec_body_length u (p.0, r) ≢ undefined) (sym (u64_inv b p.0 p.1 e).2)
        (vec_body-defined p.0 (drop 8 b))

  vec_step : SafeStep (vec_length u) (vec_unwiring u).sync_unwiring
  unfolding vec_unwiring
  vec_step = Agrees-bind sync_unwire_u64 (vec_body_length u) _ u64-Agrees vec_body

  -- A vector satisfies Safe if its elements do: the measured length of a vector covers every
  -- unchecked read of it.
  pub vec-Safe : Safe (vec_unwiring u)
  unfolding vec_unwiring
  vec-Safe = record {
    small = omega arith;
    fixed_fits = omega arith;
    defined = λ n b.
        add_lengths-defined (vec_unwiring u) (vec_length u) vec_step vec_length-defined n
          (8 * n % 2 ^ 64) b;
    measured =
        λ n. add_lengths-measured (vec_unwiring u) (vec_length u) vec_step n (8 * n % 2 ^ 64);
    fixed = λ m. cc;
  }

  option_body : (n : ℕ) → SafeStep (λ r. option_body_length u (n, r)) (λ r. option_tag u (n, r))
  unfolding option_body_length option_tag
  option_body n b len r0 e = elim (Bool-cases (n == 1)) [
    | inl one ↦
        let (c, ec, lands) = single_step u s b len r0 (rw one at e) in
        (
          c,
          ec,
          λ r h.
              let not_none : (n == 0) ≡ false = ground arith in
              rw (not_none, one)
                (Lands-bind (u.sync_unwiring (raw r)) _ c c (lands r h) (λ x r' h'. h')),
        )
    | inr other ↦ (
      b,
      ground arith,
      λ r h. elim (Bool-cases (n == 0)) [
        | inl nothing ↦ rw nothing h
        | inr unexpected ↦ rw (unexpected, other) tt
      ],
    )
  ]

  option_body-defined : (n : ℕ) (b : List ℕ) → option_body_length u (n, safe b) ≢ undefined
  unfolding option_body_length
  option_body-defined n b = elim (Bool-cases (n == 1)) [
    | inl one ↦ rw one (s.defined 1 b)
    | inr other ↦ rw other (λ e. cc)
  ]

  option_length-defined : (b : List ℕ) → option_length u (safe b) ≢ undefined
  unfolding option_length
  option_length-defined b = defined_bind (sync_unwire_u8 (safe b)) _ (u8-defined b) λ p e.
      subst (λ (r : Reader). option_body_length u (p.0, r) ≢ undefined) (sym (u8_inv b p.0 p.1 e).2)
        (option_body-defined p.0 (drop 1 b))

  -- An Option satisfies Safe if its payload does, for any size of the type that memory can hold.
  pub option-Safe : (size : ℕ) → size ≤ isize_max → Safe (option_unwiring u size)
  unfolding option_unwiring option_length
  option-Safe size small =
      let step =
        Agrees-bind sync_unwire_u8 (option_body_length u) (option_tag u) u8-Agrees option_body in
      record {
        small = small;
        fixed_fits = omega arith;
        defined = λ n.
            add_lengths-defined (option_unwiring u size) (option_length u) step
              option_length-defined n n;
        measured = λ n. add_lengths-measured (option_unwiring u size) (option_length u) step n n;
        fixed = λ m. cc;
      }

module _ (valid_utf8 : List ℕ → Bool) where
  string_inv :
      (b : List ℕ) (len : ℕ) (r0 : Reader)
      → string_length (safe b) ≡ ok (len, r0)
      → (8 ≤ length b)
        × (from_be_bytes (take 8 b) ≤ length (drop 8 b))
        × (r0 ≡ safe (drop (from_be_bytes (take 8 b)) (drop 8 b)))
  unfolding string_length
  string_inv b len r0 e = ground arith

  string_step : SafeStep string_length (sync_unwire_string valid_utf8)
  unfolding sync_unwire_string
  string_step b len r0 e =
      let (le, le', er) = string_inv b len r0 e in
      (
        drop (from_be_bytes (take 8 b)) (drop 8 b),
        er,
        λ r h.
            let (r', e', h') = read_raw-At 8 r b h le in
            let (r'', e'', h'') = read_raw-At (from_be_bytes (take 8 b)) r' (drop 8 b) h' le' in
            rw e' (
              rw e'' (elim (Bool-cases (valid_utf8 (take (from_be_bytes (take 8 b)) (drop 8 b)))) [
                | inl valid ↦ rw valid h''
                | inr invalid ↦ rw invalid tt
              ])),
      )

  string_length-defined : (b : List ℕ) → string_length (safe b) ≢ undefined
  unfolding string_length
  string_length-defined b e = ground arith

  -- String satisfies Safe, whatever the test for UTF-8 answers.
  pub string-Safe : Safe (string_unwiring valid_utf8)
  unfolding string_unwiring
  string-Safe = record {
    small = omega arith;
    fixed_fits = omega arith;
    defined = λ n b.
        add_lengths-defined (string_unwiring valid_utf8) string_length string_step
          string_length-defined n (8 * n % 2 ^ 64) b;
    measured = λ n.
        add_lengths-measured (string_unwiring valid_utf8) string_length string_step n
          (8 * n % 2 ^ 64);
    fixed = λ m. cc;
  }
