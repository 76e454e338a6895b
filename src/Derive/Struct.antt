-- ===== src/Derive/Struct.antt =====
-- wiring-derive/src/lib.rs: the bytes that the bodies generated for a structure write.
use wiring.Base.{
  drop-drop, ℕ, ◌+◌, ◌≤◌, ◌≡◌, refl, sym, ap, subst, ◌∙◌, false, List, [], ◌∷◌, ◌++◌, append-nil,
  append_assoc, arith, flat_map, flatten, ltb, ge→ltb, ok, length, take, drop, replicate, All,
  length-append, length-take_le, length-drop, take-append, drop-append, flat_map_singleton,
  drop_beyond, length-replicate, take_beyond, flat_map-append,
}
use wiring.Bytes.{to_be_bytes}
use wiring.Wire.{Writes}
use wiring.Wire.Laws.{sync_wire_all_lem}
use wiring.Format.{enc_byte}
use wiring.Encode.{Wiring}
use wiring.Derive.{
  sync_calls, concat_rest, Call, concat_group, sync_call, sum_fixed, single, group, Field,
  async_call, expand, concat_fields, struct_fixed_size,
}
use wiring.Derive.Keeps.{called, wirings, expand-keeps, NoEmptyRange}
use wiring.Encode.Chains.{Puts, Puts-nil, Puts-bind}
use wiring.Encode.ContainerBytes.{slice-Encodes}
use wiring.Encode.Containers.{slice_wiring}
use wiring.Encode.NumberBytes.{AnyValue, u8-Encodes}
use wiring.Encode.Numbers.{u8_wiring}

module _ {S : Type 0} (s : S) where
  -- The bytes of a field, as its own `wiring` writes them.
  abbrev pub bytes_of : Wiring S → List ℕ
  bytes_of w = flatten (w.async_wiring s)

  -- A field of a fixed size: `concat_array` writes its bytes to the front of any buffer with room.
  abbrev pub FillsFront : Wiring S → Type 0
  FillsFront w =
      (length (bytes_of w) ≡ w.fixed_size)
      × ((buf : List ℕ)
          → w.fixed_size ≤ length buf
          → w.concat_array s buf ≡ ok (bytes_of w ++ drop w.fixed_size buf))

  abbrev pub Writable : Call S → Type 0
  Writable (single w) = Puts (λ t v. w.sync_wiring t s v) (bytes_of w)
  Writable (group ws) = All FillsFront ws

  concat_rest_lem :
      (ws : List (Wiring S)) (i : ℕ) (before after : List ℕ)
      → All FillsFront ws
      → length before ≡ i
      → length after ≡ sum_fixed ws
      → concat_rest ws s i (before ++ after) ≡ ok (before ++ flat_map bytes_of ws, i + sum_fixed ws)
  unfolding concat_rest flat_map
  concat_rest_lem [] i before [] h e e' = ap (λ (k : ℕ). ok (before ++ [], k)) (omega arith)
  concat_rest_lem [] i before (x ∷ xs) h e e' = ground arith
  concat_rest_lem (w ∷ ws) i before after h e e' =
      let n = w.fixed_size in
      let skipped : drop i (before ++ after) ≡ after =
        subst (λ (k : ℕ). drop k (before ++ after) ≡ after) e (drop-append before after) in
      let kept : take i (before ++ after) ≡ before =
        subst (λ (k : ℕ). take k (before ++ after) ≡ before) e (take-append before after) in
      let behind : drop (i + n) (before ++ after) ≡ drop n after =
        sym (drop-drop n i (before ++ after)) ∙ ap (drop n) skipped in
      let enough : ltb (length (before ++ after)) (i + n) ≡ false =
        ge→ltb _ _ (omega (arith, length-append before after, e, e')) in
      let size : length (take n after) ≡ n = length-take_le n after (omega (arith, e')) in
      let filled : w.concat_array s (take n after) ≡ ok (bytes_of w) =
        h.0.1 (take n after) (omega (arith, size))
        ∙ ap ok (
            ap (◌++◌ (bytes_of w)) (drop_beyond n (take n after) (omega (arith, size)))
            ∙ append-nil (bytes_of w)) in
      rw (enough, skipped, kept, behind, filled)
        (concat_rest_lem ws (i + n) (before ++ bytes_of w) (drop n after) h.1
            (omega (arith, length-append before (bytes_of w), h.0.0, e))
            (omega (arith, length-drop n after, e'))
          ∙ rw (append_assoc before (bytes_of w) (flat_map bytes_of ws)) (
              ap (λ (k : ℕ). ok (before ++ (bytes_of w ++ flat_map bytes_of ws), k)) (omega arith)))

  length-filled :
      (ws : List (Wiring S)) → All FillsFront ws → length (flat_map bytes_of ws) ≡ sum_fixed ws
  unfolding flat_map
  length-filled [] h = refl
  length-filled (w ∷ ws) h =
      length-append (bytes_of w) (flat_map bytes_of ws) ∙ rw (h.0.0, length-filled ws h.1) refl

  concat_group_lem :
      (ws : List (Wiring S)) → All FillsFront ws → concat_group ws s ≡ ok (flat_map bytes_of ws)
  unfolding concat_group flat_map
  concat_group_lem [] h = refl
  concat_group_lem (w ∷ ws) h =
      let n = w.fixed_size in
      let a = replicate (sum_fixed (w ∷ ws)) 0 in
      let size : length a ≡ n + sum_fixed ws = length-replicate (sum_fixed (w ∷ ws)) 0 in
      let rest =
        concat_rest_lem ws n (bytes_of w) (drop n a) h.1 h.0.0
          (omega (arith, length-drop n a, size)) in
      let all = bytes_of w ++ flat_map bytes_of ws in
      rw (h.0.1 a (omega (arith, size)), rest)
        (ap ok (
          take_beyond (n + sum_fixed ws) all (
            omega (
              arith,
              length-append (bytes_of w) (flat_map bytes_of ws),
              h.0.0,
              length-filled ws h.1,
            ))))

  group-Puts :
      (ws : List (Wiring S))
      → All FillsFront ws
      → Puts (λ t v. sync_call t (group ws) s v) (flat_map bytes_of ws)
  unfolding sync_call
  group-Puts ws h t v room =
      rw (sync_call, concat_group_lem ws h) (sync_wire_all_lem t (flat_map bytes_of ws) v room)

  pub sync_calls_lem :
      (cs : List (Call S))
      → All Writable cs
      → Puts (λ t v. sync_calls cs t s v) (flat_map bytes_of (called cs))
  unfolding sync_calls sync_call flat_map
  sync_calls_lem [] h = Puts-nil
  sync_calls_lem (single w ∷ cs) h = Puts-bind _ _ (bytes_of w) _ h.0 (sync_calls_lem cs h.1)
  sync_calls_lem (group ws ∷ cs) h =
      subst (Puts (λ t v. sync_calls (group ws ∷ cs) t s v))
        (sym (flat_map-append bytes_of ws (called cs)))
        (Puts-bind _ _ (flat_map bytes_of ws) _ (group-Puts ws h.0) (sync_calls_lem cs h.1))

  -- The sync_wiring that is generated for a structure appends the bytes of its fields in their
  -- order, through either kind of target with room for them, if the macro does not panic, no
  -- attribute asks for a range of zero fields, sync_wiring of each field on its own appends the
  -- bytes of its wiring, and each field of a fixed range fills the front of a buffer with FIXED_SIZE
  -- bytes, those of its wiring.
  pub derived-sync_wiring :
      (fields : List (Field S)) (calls : List (Call S))
      → All NoEmptyRange fields
      → expand fields ≡ ok calls
      → All Writable calls
      → Puts (λ t v. sync_calls calls t s v) (flat_map bytes_of (wirings fields))
  derived-sync_wiring fields calls asks h all =
      subst (λ (ws : List (Wiring S)). Puts (λ t v. sync_calls calls t s v) (flat_map bytes_of ws))
        (expand-keeps fields calls asks h) (sync_calls_lem calls all)

  -- If the fields of a fixed range fill their parts of the buffer, the generated wiring and
  -- wiring_ref write the range behind 8 bytes with its length, and sync_wiring appends the bytes
  -- alone, where there is room for them.
  pub group-async :
      (ws : List (Wiring S)) (f : Wiring S → S → Writes)
      → All FillsFront ws
      → (out : Writes) × (async_call f (group ws) s ≡ ok out)
        × (flatten out ≡ to_be_bytes 8 (sum_fixed ws) ++ flat_map bytes_of ws)
        × Puts (λ t v. sync_call t (group ws) s v) (flat_map bytes_of ws)
  unfolding async_call
  group-async ws f h =
      let bs = flat_map bytes_of ws in
      let wrote : flatten ((slice_wiring u8_wiring).wiring_ref bs)
          ≡ to_be_bytes 8 (length bs) ++ flat_map enc_byte bs =
        (slice-Encodes u8_wiring AnyValue enc_byte u8-Encodes).by_ref bs in
      (
        (slice_wiring u8_wiring).wiring_ref bs,
        rw (async_call, concat_group_lem ws h) refl,
        wrote
            ∙ rw (length-filled ws h)
                (ap (◌++◌ (to_be_bytes 8 (sum_fixed ws))) (flat_map_singleton bs)),
        group-Puts ws h,
      )

  -- concat_array of a structure fills the front of a buffer with the bytes of the fields in their order.
  pub concat_fields_lem :
      (fields : List (Field S)) (buf : List ℕ)
      → All FillsFront (wirings fields)
      → struct_fixed_size fields ≤ length buf
      → concat_fields fields s buf
        ≡ ok (flat_map bytes_of (wirings fields) ++ drop (struct_fixed_size fields) buf)
  unfolding concat_fields flat_map
  concat_fields_lem [] buf h l = refl
  concat_fields_lem (f ∷ fs) buf h l =
      let n = f.wiring.fixed_size in
      let enough : ltb (length buf) n ≡ false = ge→ltb _ _ (omega (arith, l)) in
      let size : length (take n buf) ≡ n = length-take_le n buf (omega (arith, l)) in
      let filled : f.wiring.concat_array s (take n buf) ≡ ok (bytes_of f.wiring) =
        h.0.1 (take n buf) (omega (arith, size))
        ∙ ap ok (
            ap (◌++◌ (bytes_of f.wiring)) (drop_beyond n (take n buf) (omega (arith, size)))
            ∙ append-nil (bytes_of f.wiring)) in
      rw
        (
          enough,
          filled,
          concat_fields_lem fs (drop n buf) h.1 (omega (arith, length-drop n buf, l)),
        )
        (ap ok (
          rw (drop-drop (struct_fixed_size fs) n buf) (
            sym (
              append_assoc (bytes_of f.wiring) (flat_map bytes_of (wirings fs))
                (drop (n + struct_fixed_size fs) buf)))))
