-- ===== src/Safety/Tuples.antt =====
-- wiring/src/core/unwire.rs: measuring and then reading pairs. The size of a tuple is at least the sum
-- of its parts' sizes.
use wiring.Base.{
  ◌≡◌, ◌>>=◌, false, ◌≤◌, ok, ◌≢◌, undefined, ◌+◌, ok-inverse, length, subst, drop, sym, arith, ◌∙◌,
  drop-drop, length-drop, List, ℕ, ap, ge→ltb, ◌*◌,
}
use wiring.Bytes.{isize_max}
use wiring.Decode.{sync_unwiring_array, Unwiring, safe, UnsafeReader, Reader, raw, unread}
use wiring.Decode.Containers.{pair_length, pair_unwiring, pair_sync_unwiring, wrapping_add}
use wiring.Safety.{
  At, Lands, SafeStep, Safe, Lands-bind, single_step, SafeStep-bind, defined_bind, equal_steps,
  measured_once, one_Lands,
}
use wiring.Safety.Containers.{add_lengths-defined, add_lengths-measured}

-- A type that is not `MIXED` reads `FIXED_SIZE` bytes.
pub fixed_step :
    {A : Type 0} (u : Unwiring A)
    → Safe u
    → u.mixed ≡ false
    → (b : List ℕ) (r : UnsafeReader) → At r b
    → u.fixed_size ≤ length b
    → Lands (drop u.fixed_size b) (u.sync_unwiring (raw r))
unfolding sync_unwiring_array
fixed_step u s m b r h le =
    let (c, ec, lands) =
      s.fixed m 1 b u.fixed_size (safe (drop u.fixed_size b))
        (measured_once u.fixed_size b small le) in
    rw (ap unread ec) (
      one_Lands u c (u.sync_unwiring (raw r))
        (rw (ge→ltb isize_max (1 * u.size_of) (omega (arith, s.small))) at (lands r h)))
  where
    small : u.fixed_size ≤ isize_max
    small = omega (arith, s.small, s.fixed_fits)

module _ {A B : Type 0} (u : Unwiring A) (u' : Unwiring B) (s : Safe u) (s' : Safe u') where
  pair_step : SafeStep (pair_length u u') (pair_sync_unwiring u u')
  unfolding pair_length pair_sync_unwiring
  pair_step =
      SafeStep-bind (u.bytes_length 1) u.sync_unwiring
        (λ n r. u'.bytes_length 1 r >>= λ p. ok (wrapping_add n p.0, p.1))
        (λ p. u'.sync_unwiring p.1 >>= λ q. ok ((p.0, q.0), q.1)) (single_step u s)
        λ n b len r0 e.
          let ((n', r1), e1, e2) = ok-inverse (u'.bytes_length 1 (safe b)) _ e in
          let (c, ec, lands) = single_step u' s' b n' r1 e1 in
          let same : r1 ≡ r0 = cc in
          (
            c,
            sym same ∙ ec,
            λ y r h. Lands-bind (u'.sync_unwiring (raw r)) _ c c (lands r h) (λ z r' h'. h'),
          )

  pair_length-defined : (b : List ℕ) → pair_length u u' (safe b) ≢ undefined
  unfolding pair_length
  pair_length-defined b = defined_bind (u.bytes_length 1 (safe b)) _ (s.defined 1 b) λ p e.
      let (c, ec, _) = single_step u s b p.0 p.1 e in
      defined_bind (u'.bytes_length 1 p.1) _
        (subst (λ (r : Reader). u'.bytes_length 1 r ≢ undefined) (sym ec) (s'.defined 1 c))
        λ q e'. λ bad. cc

  pair_fixed_step :
      u.mixed ≡ false
      → u'.mixed ≡ false
      → (b : List ℕ) (r : UnsafeReader) → At r b
      → u.fixed_size + u'.fixed_size ≤ length b
      → Lands (drop (u.fixed_size + u'.fixed_size) b) (pair_sync_unwiring u u' (raw r))
  unfolding pair_sync_unwiring
  pair_fixed_step m m' b r h le =
      let c = drop u.fixed_size b in
      let d = drop (u.fixed_size + u'.fixed_size) b in
      Lands-bind (u.sync_unwiring (raw r)) _ c d (fixed_step u s m b r h (omega arith)) λ x r1 h1.
        Lands-bind (u'.sync_unwiring (raw r1)) _ d d
          (rw (drop-drop u'.fixed_size u.fixed_size b) at
            (fixed_step u' s' m' c r1 h1 (omega (arith, length-drop u.fixed_size b))))
          (λ y r2 h2. h2)

  -- A pair satisfies Safe if both parts do, are both MIXED or both not, and their fixed sizes add up
  -- to no more than the pair's own size, which is at most isize::MAX.
  pub pair-Safe :
      (size : ℕ)
      → size ≤ isize_max
      → u.fixed_size + u'.fixed_size ≤ size
      → u.mixed ≡ u'.mixed
      → Safe (pair_unwiring u u' size)
  unfolding pair_unwiring pair_sync_unwiring pair_length
  pair-Safe size small fits alike = record {
    small = small;
    fixed_fits = fits;
    defined = λ n.
        add_lengths-defined (pair_unwiring u u' size) (pair_length u u') pair_step
          pair_length-defined n 0;
    measured = λ n. add_lengths-measured (pair_unwiring u u' size) (pair_length u u') pair_step n 0;
    fixed = λ m.
        let m0 : u.mixed ≡ false = ground (arith, m, alike) in
        equal_steps (pair_unwiring u u' size) (u.fixed_size + u'.fixed_size) fits
          (pair_fixed_step m0 (sym alike ∙ m0));
  }
