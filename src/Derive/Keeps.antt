-- ===== src/Derive/Keeps.antt =====
-- wiring-derive/src/lib.rs: the calls that are generated are for every field of the structure once, in their order.
use wiring.Base.{
  ℕ, zero, suc, ◌+◌, ◌-◌, ◌≤◌, ◌<◌, ◌≡◌, refl, sym, ap, subst, ◌∙◌, Bool, true, false, Option, none,
  some, List, [], ◌∷◌, ◌++◌, append-nil, append_assoc, arith, ltb, ◌==◌, if◌then◌else◌, Result,
  panic, ok, ok-inverse, length, All,
}
use wiring.Encode.{Wiring}
use wiring.Derive.{
  Expansion, apply_fixed, Field, Call, Fixed, single, group, fixed_list, fixed_path, push_call,
  apply_attrs, expand_fields, expand, field_step,
}

module _ {S : Type 0} where
  abbrev pub called : List (Call S) → List (Wiring S)
  called [] = []
  called (single w ∷ cs) = w ∷ called cs
  called (group ws ∷ cs) = ws ++ called cs

  abbrev pub wirings : List (Field S) → List (Wiring S)
  wirings [] = []
  wirings (f ∷ fs) = f.wiring ∷ wirings fs

  abbrev pub so_far : Expansion S → List (Wiring S)
  so_far e = called e.calls ++ e.concat_fields_calls

  called-append : (cs ds : List (Call S)) → called (cs ++ ds) ≡ called cs ++ called ds
  called-append [] ds = refl
  called-append (single w ∷ cs) ds = ap (◌∷◌ w) (called-append cs ds)
  called-append (group ws ∷ cs) ds =
      ap (◌++◌ ws) (called-append cs ds) ∙ sym (append_assoc ws (called cs) (called ds))

  -- What a range still takes: at least one field, and no more than there are.
  abbrev pub Open : ℕ → ℕ → Option ℕ → List (Wiring S) → Type 0
  Open fields_len field_count none ws = ws ≡ []
  Open fields_len field_count (some s) ws = (1 ≤ s) × (s + field_count ≤ fields_len)

-- The range of a field, its attributes read: it ends with the fields, and one that starts is not of one field.
abbrev pub Range : ℕ → ℕ → Option ℕ × Bool → Type 0
Range fields_len before (none, b) = Unit {0}
Range fields_len before (some t, false) = (t + before ≤ fields_len) × (0 < t)
Range fields_len before (some t, true) = (t + before ≤ fields_len) × ((t == 1) ≡ false) × (0 < t)

-- A range is asked for at least one field.
abbrev pub AsksFields : Fixed → Type 0
AsksFields (fixed_list t) = 0 < t
AsksFields fixed_path = Unit {0}

abbrev pub NoEmptyRange : {S : Type 0} → Field S → Type 0
NoEmptyRange f = All AsksFields f.attrs

pub unless_panic {ℓ} :
    {A : Type ℓ} (b : Bool) (r : Result A) (a : A)
    → (if b then panic else r) ≡ ok a
    → (b ≡ false) × (r ≡ ok a)
unless_panic true r a e = cc
unless_panic false r a e = (refl, e)

apply-Range :
    (fields_len before : ℕ) (a : Fixed) (p q : Option ℕ × Bool)
    → before < fields_len
    → AsksFields a
    → apply_fixed fields_len (suc before) a p ≡ ok q
    → Range fields_len before q × (p.0 ≡ none)
unfolding apply_fixed
apply-Range n before a (some s, b) q lt asks e = cc
apply-Range n before (fixed_list t) (none, b) q lt asks e =
    let one = unless_panic (n == 1) _ q e in
    let few = unless_panic (t == 1) _ q one.1 in
    let beyond = unless_panic (ltb (n - (suc before - 1)) t) _ q few.1 in
    let same : (some t, true) ≡ q = cc in
    (subst (Range n before) same (ground arith, few.0, asks), refl)
apply-Range n before fixed_path (none, b) q lt asks e =
    let t = n - (suc before - 1) in
    let few = unless_panic (t == 1) _ q e in
    let same : (some t, true) ≡ q = cc in
    (subst (Range n before) same (omega arith, few.0, omega arith), refl)

attrs-Range :
    (fields_len before : ℕ) (attrs : List Fixed) (p q : Option ℕ × Bool)
    → before < fields_len
    → All AsksFields attrs
    → Range fields_len before p
    → apply_attrs fields_len (suc before) attrs p ≡ ok q
    → Range fields_len before q × (q.0 ≡ none → p.0 ≡ none)
unfolding apply_attrs
attrs-Range n before [] p q lt asks r e =
    let same : p ≡ q = cc in
    (subst (Range n before) same r, λ h. ap (λ (x : Option ℕ × Bool). x.0) same ∙ h)
attrs-Range n before (a ∷ rest) p q lt asks r e =
    let (p', first, next) =
      ok-inverse (apply_fixed n (suc before) a p) (apply_attrs n (suc before) rest) e in
    let (r', empty) = apply-Range n before a p p' lt asks.0 first in
    ((attrs-Range n before rest p' q lt asks.1 r' next).0, λ h. empty)

module _ {S : Type 0} where
  Open-Range :
      (n before : ℕ) (start : Option ℕ) (ws : List (Wiring S))
      → Open n before start ws
      → Range n before (start, false)
  Open-Range n before none ws o = tt
  Open-Range n before (some s) ws o = (o.1, omega (arith, o.0))

  abbrev pub Kept : ℕ → ℕ → Expansion S → List (Wiring S) → Expansion S → Type 0
  Kept n count e ws e' =
      Open n count e'.concat_start e'.concat_fields_calls × (so_far e' ≡ so_far e ++ ws)

  push-Keeps :
      (n before : ℕ) (w : Wiring S) (q : Option ℕ × Bool) (e e' : Expansion S)
      → before < n
      → Range n before q
      → Open n before e.concat_start e.concat_fields_calls
      → (q.0 ≡ none → e.concat_start ≡ none)
      → push_call w q.0 q.1 e ≡ ok e'
      → Kept n (suc before) e (w ∷ []) e'
  unfolding push_call
  push-Keeps n before w (none, b) e e' lt r o was h =
      let made : Expansion S = record e {
        concat_start = none;
        calls = e.calls ++ (single w ∷ []);
      } in
      let same : made ≡ e' = cc in
      let empty : e.concat_fields_calls ≡ [] =
        subst (λ (s : Option ℕ). Open n before s e.concat_fields_calls) (was refl) o in
      subst (Kept n (suc before) e (w ∷ [])) same (
        empty,
        rw
            (
              called-append e.calls (single w ∷ []),
              empty,
              append-nil (called e.calls),
              append-nil (called e.calls ++ (w ∷ [])),
            )
            refl,
      )
  push-Keeps n before w (some zero, true) e e' lt r o was h = absurd (omega (arith, r.2))
  push-Keeps n before w (some zero, false) e e' lt r o was h = absurd (omega (arith, r.1))
  push-Keeps n before w (some (suc s), true) e e' lt r o was h =
      let made : Expansion S = record e {
        concat_start = some s;
        concat_fields_calls = e.concat_fields_calls ++ (w ∷ []);
      } in
      let same : made ≡ e' = cc in
      let few : (suc s == 1) ≡ false = r.1 in
      let some_left : 1 ≤ s = ground arith in
      subst (Kept n (suc before) e (w ∷ [])) same (
        (some_left, omega (arith, r.0)),
        sym (append_assoc (called e.calls) e.concat_fields_calls (w ∷ [])),
      )
  push-Keeps n before w (some (suc zero), false) e e' lt r o was h =
      let ws = e.concat_fields_calls ++ (w ∷ []) in
      let made : Expansion S = record {
        concat_start = none;
        concat_fields_calls = [];
        calls = e.calls ++ (group ws ∷ []);
      } in
      let same : made ≡ e' = cc in
      subst (Kept n (suc before) e (w ∷ [])) same (
        refl,
        rw (called-append e.calls (group ws ∷ []), append-nil ws, append-nil (called e.calls ++ ws))
            (sym (append_assoc (called e.calls) e.concat_fields_calls (w ∷ []))),
      )
  push-Keeps n before w (some (suc (suc s)), false) e e' lt r o was h =
      let made : Expansion S = record e {
        concat_start = some (suc s);
        concat_fields_calls = e.concat_fields_calls ++ (w ∷ []);
      } in
      let same : made ≡ e' = cc in
      subst (Kept n (suc before) e (w ∷ [])) same (
        (omega arith, omega (arith, r.0)),
        sym (append_assoc (called e.calls) e.concat_fields_calls (w ∷ [])),
      )

  step-Keeps :
      (n before : ℕ) (f : Field S) (e e' : Expansion S)
      → before < n
      → NoEmptyRange f
      → Open n before e.concat_start e.concat_fields_calls
      → field_step n (suc before) f e ≡ ok e'
      → Kept n (suc before) e (f.wiring ∷ []) e'
  unfolding field_step
  step-Keeps n before f e e' lt asks o h =
      let (q, read, pushed) =
        ok-inverse (apply_attrs n (suc before) f.attrs (e.concat_start, false))
          (λ p. push_call f.wiring p.0 p.1 e) h in
      let (r, was) =
        attrs-Range n before f.attrs (e.concat_start, false) q lt asks
          (Open-Range n before e.concat_start e.concat_fields_calls o) read in
      push-Keeps n before f.wiring q e e' lt r o was pushed

  fields-Keep :
      (n before : ℕ) (fs : List (Field S)) (e e' : Expansion S)
      → before + length fs ≡ n
      → All NoEmptyRange fs
      → Open n before e.concat_start e.concat_fields_calls
      → expand_fields n before fs e ≡ ok e'
      → Kept n n e (wirings fs) e'
  unfolding expand_fields
  fields-Keep n before [] e e' l asks o h =
      let same : e ≡ e' = cc in
      let ended : before ≡ n = omega (arith, l) in
      subst (Kept n n e []) same (
        subst (λ (k : ℕ). Open n k e.concat_start e.concat_fields_calls) ended o,
        sym (append-nil (so_far e)),
      )
  fields-Keep n before (f ∷ fs) e e' l asks o h =
      let (m, first, rest) =
        ok-inverse (field_step n (suc before) f e) (expand_fields n (suc before) fs) h in
      let (o', kept) = step-Keeps n before f e m (omega (arith, l)) asks.0 o first in
      let (o'', kept') = fields-Keep n (suc before) fs m e' (omega (arith, l)) asks.1 o' rest in
      (
        o'',
        kept'
            ∙ ap (λ (ws : List (Wiring S)). ws ++ wirings fs) kept
            ∙ append_assoc (so_far e) (f.wiring ∷ []) (wirings fs),
      )

  -- No range is left open behind the last field.
  all_closed : (n : ℕ) (start : Option ℕ) (ws : List (Wiring S)) → Open n n start ws → ws ≡ []
  all_closed n none ws o = o
  all_closed n (some s) ws o = absurd (omega (arith, o.0, o.1))

  -- If the macro does not panic, the calls that it generates are for every field of the structure,
  -- each once and in the order of the fields, whatever fixed ranges there are, where no attribute
  -- asks for a range of zero fields.
  pub expand-keeps :
      (fields : List (Field S)) (calls : List (Call S))
      → All NoEmptyRange fields
      → expand fields ≡ ok calls
      → called calls ≡ wirings fields
  unfolding expand
  expand-keeps fields calls asks h =
      let start : Expansion S = record {
        concat_start = none;
        concat_fields_calls = [];
        calls = [];
      } in
      let (e, run, done) =
        ok-inverse (expand_fields (length fields) 0 fields start) (λ e. ok e.calls) h in
      let (o, kept) = fields-Keep (length fields) 0 fields start e (omega arith) asks refl run in
      let closed = all_closed (length fields) e.concat_start e.concat_fields_calls o in
      let same : e.calls ≡ calls = cc in
      sym (ap called same)
      ∙ sym (append-nil (called e.calls))
      ∙ ap (◌++◌ (called e.calls)) (sym closed)
      ∙ kept
