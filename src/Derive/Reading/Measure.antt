-- ===== src/Derive/Reading/Measure.antt =====
-- wiring-derive/src/lib.rs: measuring and then reading structures without checks.
use wiring.Base.{
  ◌>>=◌, ℕ, ◌+◌, ◌≤◌, ◌≡◌, sym, subst, ◌∙◌, ◌≢◌, false, List, arith, undefined, ok, ok-inverse,
  length, drop, length-drop, drop-drop,
}
use wiring.Bytes.{isize_max}
use wiring.Decode.{safe, UnsafeReader, Reader, raw}
use wiring.Decode.Containers.{wrapping_add}
use wiring.Derive.Reading.{
  fields_length, struct_sync_unwiring, derived_unwiring, FieldReads, fields_mixed, no_fields,
  fields_fixed_size, and_field,
}
use wiring.Safety.{
  SafeStep, SafeStep-bind, At, defined_bind, Safe, Lands, single_step, Lands-bind, equal_steps,
}
use wiring.Safety.Containers.{add_lengths-defined, add_lengths-measured}
use wiring.Safety.Tuples.{fixed_step}

abbrev pub AllSafe : {S : Type 0} → FieldReads S → Type 0
AllSafe (no_fields s) = Unit {0}
AllSafe (and_field r u f) = AllSafe r × Safe u

fields_step :
    {S : Type 0} (r : FieldReads S)
    → AllSafe r
    → SafeStep (fields_length r) (struct_sync_unwiring r)
unfolding fields_length struct_sync_unwiring
fields_step (no_fields s) h = λ b len r0 e. (b, cc, λ r a. a)
fields_step (and_field rs u f) h =
    SafeStep-bind (fields_length rs) (struct_sync_unwiring rs)
      (λ n r. u.bytes_length 1 r >>= λ p. ok (wrapping_add n p.0, p.1))
      (λ p. u.sync_unwiring p.1 >>= λ q. ok (p.0 q.0, q.1)) (fields_step rs h.0)
      λ n b len r0 e.
        let ((n', r1), e1, e2) = ok-inverse (u.bytes_length 1 (safe b)) _ e in
        let (c, ec, lands) = single_step u h.1 b n' r1 e1 in
        let same : r1 ≡ r0 = cc in
        (
          c,
          sym same ∙ ec,
          λ y r a. Lands-bind (u.sync_unwiring (raw r)) _ c c (lands r a) (λ z r' a'. a'),
        )

fields_length-defined :
    {S : Type 0} (r : FieldReads S)
    → AllSafe r
    → (b : List ℕ) → fields_length r (safe b) ≢ undefined
unfolding fields_length
fields_length-defined (no_fields s) h b = λ bad. cc
fields_length-defined (and_field rs u f) h b =
    defined_bind (fields_length rs (safe b)) _ (fields_length-defined rs h.0 b) λ p e.
      let (c, ec, _) = fields_step rs h.0 b p.0 p.1 e in
      defined_bind (u.bytes_length 1 p.1) _
        (subst (λ (r : Reader). u.bytes_length 1 r ≢ undefined) (sym ec) (h.1.defined 1 c))
        λ q e'. λ bad. cc

fields_fixed_step :
    {S : Type 0} (rs : FieldReads S)
    → AllSafe rs
    → fields_mixed rs ≡ false
    → (b : List ℕ) (r : UnsafeReader) → At r b
    → fields_fixed_size rs ≤ length b
    → Lands (drop (fields_fixed_size rs) b) (struct_sync_unwiring rs (raw r))
unfolding struct_sync_unwiring
fields_fixed_step (no_fields s) h m b r a le = a
fields_fixed_step (and_field rs u f) h m b r a le =
    let m0 : fields_mixed rs ≡ false = ground (arith, m) in
    let m1 : u.mixed ≡ false = ground (arith, m) in
    let n = fields_fixed_size rs in
    let c = drop n b in
    let d = drop (n + u.fixed_size) b in
    Lands-bind (struct_sync_unwiring rs (raw r)) _ c d
      (fields_fixed_step rs h.0 m0 b r a (omega arith))
      λ x r1 a1.
        Lands-bind (u.sync_unwiring (raw r1)) _ d d
          (rw (drop-drop u.fixed_size n b) at
            (fixed_step u h.1 m1 c r1 a1 (omega (arith, length-drop n b))))
          (λ y r2 a2. a2)

-- The Unwiring that is derived for a structure satisfies Safe if that of every field does, its size
-- is at most isize::MAX, and the fixed sizes of its fields add up to no more than its size.
pub derived-Safe :
    {S : Type 0} (r : FieldReads S) (size : ℕ)
    → size ≤ isize_max
    → fields_fixed_size r ≤ size
    → AllSafe r
    → Safe (derived_unwiring r size)
unfolding derived_unwiring
derived-Safe r size small fits h = record {
  small = small;
  fixed_fits = fits;
  defined = λ n.
      add_lengths-defined (derived_unwiring r size) (fields_length r) (fields_step r h)
        (fields_length-defined r h) n 0;
  measured =
      λ n. add_lengths-measured (derived_unwiring r size) (fields_length r) (fields_step r h) n 0;
  fixed = λ m.
      equal_steps (derived_unwiring r size) (fields_fixed_size r) (omega arith)
        (fields_fixed_step r h m);
}
