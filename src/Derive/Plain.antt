-- ===== src/Derive/Plain.antt =====
-- wiring-derive/src/lib.rs: a structure with no fixed range, whose two ways of writing agree.
use wiring.Base.{
  ℕ, suc, ◌≡◌, refl, sym, ap, subst, ◌∙◌, none, List, [], ◌∷◌, ◌++◌, append-nil, append_assoc,
  flat_map, flatten, ok, length, All, flatten-flat_map,
}
use wiring.Wire.{Writes}
use wiring.Encode.{Wiring}
use wiring.Derive.{
  async_call, async_calls, field_step, apply_attrs, push_call, expand_fields, expand, Field, Call,
  single, sync_calls, Fixed,
}
use wiring.Derive.Keeps.{AsksFields, NoEmptyRange, wirings}
use wiring.Derive.Struct.{Writable, bytes_of, derived-sync_wiring}
use wiring.Encode.Chains.{Puts}

module _ {S : Type 0} (s : S) where
  abbrev pub singles : List (Wiring S) → List (Call S)
  singles [] = []
  singles (w ∷ ws) = single w ∷ singles ws

  singles-async :
      (f : Wiring S → S → Writes) (ws : List (Wiring S))
      → async_calls f (singles ws) s ≡ ok (flat_map (λ w. f w s) ws)
  unfolding async_calls async_call flat_map
  singles-async f [] = refl
  singles-async f (w ∷ ws) = rw (singles-async f ws) refl

  abbrev pub HasNoRange : Field S → Type 0
  HasNoRange f = f.attrs ≡ []

  plain_fields :
      (n count : ℕ) (fs : List (Field S)) (cs : List (Call S))
      → All HasNoRange fs
      → expand_fields n count fs
          (record { concat_start = none; concat_fields_calls = []; calls = cs })
        ≡ ok (record {
          concat_start = none;
          concat_fields_calls = [];
          calls = cs ++ singles (wirings fs);
        })
  unfolding expand_fields field_step apply_attrs push_call
  plain_fields n count [] cs h =
      ap
        (λ (k : List (Call S)).
          ok (record { concat_start = none; concat_fields_calls = []; calls = k }))
        (sym (append-nil cs))
  plain_fields n count (f ∷ fs) cs h =
      rw (expand_fields, field_step, h.0)
        (plain_fields n (suc count) fs (cs ++ (single f.wiring ∷ [])) h.1
          ∙ ap
              (λ (k : List (Call S)).
                ok (record { concat_start = none; concat_fields_calls = []; calls = k }))
              (append_assoc cs (single f.wiring ∷ []) (singles (wirings fs))))

  no_ranges : (fs : List (Field S)) → All HasNoRange fs → All NoEmptyRange fs
  no_ranges [] h = tt
  no_ranges (f ∷ fs) h =
      (subst (λ (attrs : List Fixed). All AsksFields attrs) (sym h.0) tt, no_ranges fs h.1)

  -- `sync_wiring` of a field appends the bytes of its `wiring`.
  abbrev pub Appends : Wiring S → Type 0
  Appends w = Puts (λ t v. w.sync_wiring t s v) (bytes_of s w)

  singles-Writable : (ws : List (Wiring S)) → All Appends ws → All (Writable s) (singles ws)
  singles-Writable [] h = tt
  singles-Writable (w ∷ ws) h = (h.0, singles-Writable ws h.1)

  pub plain-expand :
      (fields : List (Field S))
      → All HasNoRange fields
      → expand fields ≡ ok (singles (wirings fields))
  unfolding expand
  plain-expand fields h = rw (expand, plain_fields (length fields) 0 fields [] h) refl

  -- A structure with no fixed range expands without panic, and the generated wiring and sync_wiring
  -- write the same bytes, those of its fields in order, if sync_wiring of each field appends the
  -- bytes of its wiring.
  pub plain-agrees :
      (fields : List (Field S))
      → All HasNoRange fields
      → All Appends (wirings fields)
      → (calls : List (Call S)) × (out : Writes) × (expand fields ≡ ok calls)
        × (async_calls Wiring.async_wiring calls s ≡ ok out)
        × (flatten out ≡ flat_map (bytes_of s) (wirings fields))
        × Puts (λ t v. sync_calls calls t s v) (flatten out)
  plain-agrees fields h h' =
      let ws = wirings fields in
      let made = plain-expand fields h in
      let same : flatten (flat_map (λ (w : Wiring S). w.async_wiring s) ws)
          ≡ flat_map (bytes_of s) ws =
        flatten-flat_map (λ (w : Wiring S). w.async_wiring s) (bytes_of s) (λ w. refl) ws in
      (
        singles ws,
        flat_map (λ w. w.async_wiring s) ws,
        made,
        singles-async Wiring.async_wiring ws,
        same,
        subst (Puts (λ t v. sync_calls (singles ws) t s v)) (sym same) (
            derived-sync_wiring s fields (singles ws) (no_ranges fields h) made
              (singles-Writable ws h')),
      )
