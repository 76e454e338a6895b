-- ===== src/Derive/Lost.antt =====
-- wiring-derive/src/lib.rs: the range `#[fixed(0)]`, with which `*concat_s -= 1` wraps.
use wiring.Base.{
  ℕ, zero, suc, ◌<◌, ◌≡◌, refl, ◌^◌, ◌-◌, List, [], ◌∷◌, ◌++◌, arith, ok, length, All, none, some,
  false, ◌==◌, ltb, ap, Result, ◌>>=◌, ◌∙◌,
}
use wiring.Encode.{Wiring}
use wiring.Derive.{
  Expansion, Field, Call, fixed_list, push_call, apply_attrs, expand_fields, expand, field_step,
  apply_fixed,
}

module _ {S : Type 0} where
  abbrev pub HasNoAttribute : Field S → Type 0
  HasNoAttribute f = f.attrs ≡ []

  -- A range that is longer than what is left of the fields takes them all and makes no call.
  never_ends :
      (n count s : ℕ) (fs : List (Field S)) (ws : List (Wiring S)) (cs : List (Call S))
      → All HasNoAttribute fs
      → length fs < s
      → (e : Expansion S) × (expand_fields n count fs
            (record { concat_start = some s; concat_fields_calls = ws; calls = cs })
          ≡ ok e)
        × (e.calls ≡ cs)
  unfolding expand_fields field_step apply_attrs push_call
  never_ends n count s [] ws cs h l =
      (record { concat_start = some s; concat_fields_calls = ws; calls = cs }, refl, refl)
  never_ends n count zero (f ∷ fs) ws cs h l = absurd (omega (arith, l))
  never_ends n count (suc zero) (f ∷ fs) ws cs h l = absurd (omega (arith, l))
  never_ends n count (suc (suc s)) (f ∷ fs) ws cs h l =
      let (e, run, made) =
        never_ends n (suc count) (suc s) fs (ws ++ (f.wiring ∷ [])) cs h.1 (omega (arith, l)) in
      (e, rw (expand_fields, field_step, h.0) run, made)

  -- In a release build of the macro, a structure whose first field has #[fixed(0)] and which has
  -- more fields, fewer than 2^64 - 1 and with no attributes, is accepted, and no call is generated
  -- for any of its fields.
  pub zero_range_lost :
      (w : Wiring S) (f : Field S) (fs : List (Field S))
      → All HasNoAttribute (f ∷ fs)
      → length (f ∷ fs) < 2 ^ 64 - 1
      → expand (record { attrs = fixed_list 0 ∷ []; wiring = w } ∷ (f ∷ fs)) ≡ ok []
  unfolding expand expand_fields field_step apply_attrs apply_fixed push_call
  zero_range_lost w f fs h l =
      let n = suc (length (f ∷ fs)) in
      let (e, run, made) = never_ends n 1 (2 ^ 64 - 1) (f ∷ fs) (w ∷ []) [] h l in
      let start : Expansion S = record {
        concat_start = none;
        concat_fields_calls = [];
        calls = [];
      } in
      let many : (n == 1) ≡ false = ground arith in
      let enough : ltb (n - 0) 0 ≡ false = ground arith in
      let first : expand_fields n 0 (record { attrs = fixed_list 0 ∷ []; wiring = w } ∷ (f ∷ fs))
            start
          ≡ expand_fields n 1 (f ∷ fs) (record {
            concat_start = some (2 ^ 64 - 1);
            concat_fields_calls = w ∷ [];
            calls = [];
          }) =
        rw (many, enough) refl in
      ap (λ (r : Result (Expansion S)). r >>= λ e. ok e.calls) (first ∙ run) ∙ ap ok made
