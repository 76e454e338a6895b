-- ===== src/Derive.antt =====
-- wiring-derive/src/lib.rs: what `#[derive(Wiring)]` makes of a structure. The macro goes through the fields and
-- groups those of a `#[fixed]` range; a `panic!` of the macro, an error of the build, is `panic`.
pub mod Keeps
pub mod Struct
pub mod Plain
pub mod Lost
pub mod Reading
pub mod Enum
mod Examples
use wiring.Base.{
  ℕ, zero, suc, ◌+◌, ◌-◌, Bool, true, false, ◌||◌, Option, none, some, List, [], ◌∷◌, ◌++◌, ltb,
  ◌==◌, if◌then◌else◌, Result, panic, ok, ◌>>=◌, length, take, drop, replicate, ◌^◌,
}
use wiring.Wire.{Target, VecWire, Writes, sync_wire_all}
use wiring.Encode.{SyncWiring, Wiring}
use wiring.Encode.Containers.{slice_wiring}
use wiring.Encode.Numbers.{u8_wiring}

-- `#[fixed(t)]` and `#[fixed]`.
pub data Fixed : Type 0 where
  fixed_list : ℕ → Fixed
  fixed_path : Fixed

-- A field, with the `Wiring` of its type, taken at the field of a value.
pub record Field (S : Type 0) : Type 0 where
  pub attrs : List Fixed
  pub wiring : Wiring S

-- A call of the bodies that are generated: one for a field of its own, one for the fields of a range.
pub data Call (S : Type 0) : Type 0 where
  single : Wiring S → Call S
  group : List (Wiring S) → Call S

pub record Expansion (S : Type 0) : Type 0 where
  pub concat_start : Option ℕ
  pub concat_fields_calls : List (Wiring S)
  pub calls : List (Call S)

-- One attribute: the range that it opens, and whether the field starts one.
pub apply_fixed : ℕ → ℕ → Fixed → Option ℕ × Bool → Result (Option ℕ × Bool)
apply_fixed fields_len field_count attr (some s, is_start) = panic
apply_fixed fields_len field_count (fixed_list t) (none, is_start) =
    if fields_len == 1
    then panic
    else if t == 1
    then panic
    else if ltb (fields_len - (field_count - 1)) t
    then panic
    else ok (some t, true)
apply_fixed fields_len field_count fixed_path (none, is_start) =
    let t = fields_len - (field_count - 1) in if t == 1 then panic else ok (some t, true)

pub apply_attrs : ℕ → ℕ → List Fixed → Option ℕ × Bool → Result (Option ℕ × Bool)
unfolding apply_fixed
apply_attrs fields_len field_count [] p = ok p
apply_attrs fields_len field_count (a ∷ rest) p =
    apply_fixed fields_len field_count a p >>= apply_attrs fields_len field_count rest

module _ {S : Type 0} where
  -- The call of the field, by the range that it is in. `*concat_s -= 1` wraps at zero, as in a release build.
  pub push_call : Wiring S → Option ℕ → Bool → Expansion S → Result (Expansion S)
  push_call w none is_start e =
      ok (record e { concat_start = none; calls = e.calls ++ (single w ∷ []) })
  push_call w (some zero) is_start e = ok (record e {
    concat_start = some (2 ^ 64 - 1);
    concat_fields_calls = e.concat_fields_calls ++ (w ∷ []);
  })
  push_call w (some (suc s)) true e =
      ok (record e {
        concat_start = some s;
        concat_fields_calls = e.concat_fields_calls ++ (w ∷ []);
      })
  push_call w (some (suc zero)) false e = ok (record {
    concat_start = none;
    concat_fields_calls = [];
    calls = e.calls ++ (group (e.concat_fields_calls ++ (w ∷ [])) ∷ []);
  })
  push_call w (some (suc (suc s))) false e = ok (record e {
    concat_start = some (suc s);
    concat_fields_calls = e.concat_fields_calls ++ (w ∷ []);
  })

  pub field_step : ℕ → ℕ → Field S → Expansion S → Result (Expansion S)
  unfolding apply_attrs push_call
  field_step fields_len field_count f e =
      apply_attrs fields_len field_count f.attrs (e.concat_start, false) >>= λ p.
      push_call f.wiring p.0 p.1 e

  pub expand_fields : ℕ → ℕ → List (Field S) → Expansion S → Result (Expansion S)
  unfolding field_step
  expand_fields fields_len field_count [] e = ok e
  expand_fields fields_len field_count (f ∷ fs) e =
      field_step fields_len (suc field_count) f e >>= expand_fields fields_len (suc field_count) fs

  pub expand : List (Field S) → Result (List (Call S))
  unfolding expand_fields
  expand fields =
      expand_fields (length fields) 0 fields
        (record { concat_start = none; concat_fields_calls = []; calls = [] })
      >>= λ e. ok e.calls

  abbrev pub struct_fixed_size : List (Field S) → ℕ
  struct_fixed_size [] = 0
  struct_fixed_size (f ∷ fs) = f.wiring.fixed_size + struct_fixed_size fs

  abbrev pub struct_mixed : List (Field S) → Bool
  struct_mixed [] = false
  struct_mixed (f ∷ fs) = f.wiring.mixed || struct_mixed fs

  -- The calls of a range after its first: each field is laid out at `_i_`.
  pub concat_rest : List (Wiring S) → S → ℕ → List ℕ → Result (List ℕ × ℕ)
  concat_rest [] s i a = ok (a, i)
  concat_rest (w ∷ ws) s i a =
      if ltb (length a) (i + w.fixed_size)
      then panic
      else (w.concat_array s (take w.fixed_size (drop i a)) >>= λ part.
          concat_rest ws s (i + w.fixed_size) (take i a ++ part ++ drop (i + w.fixed_size) a))

  abbrev pub sum_fixed : List (Wiring S) → ℕ
  sum_fixed [] = 0
  sum_fixed (w ∷ ws) = w.fixed_size + sum_fixed ws

  -- The buffer `_a_` of a range, `[.._i_]` of it.
  pub concat_group : List (Wiring S) → S → Result (List ℕ)
  unfolding concat_rest
  concat_group [] s = ok []
  concat_group (w ∷ ws) s = w.concat_array s (replicate (sum_fixed (w ∷ ws)) 0) >>= λ a.
      concat_rest ws s w.fixed_size a >>= λ r. ok (take r.1 r.0)

  pub sync_call : Target → Call S → S → VecWire → Result VecWire
  unfolding concat_group
  sync_call t (single w) s v = w.sync_wiring t s v
  sync_call t (group ws) s v = concat_group ws s >>= λ bs. sync_wire_all t true bs v

  -- `sync_wiring` of the structure.
  pub sync_calls : List (Call S) → SyncWiring S
  unfolding sync_call
  sync_calls [] t s v = ok v
  sync_calls (c ∷ cs) t s v = sync_call t c s v >>= sync_calls cs t s

  -- `(&_a_[.._i_]).wiring_ref(wire)`: the range goes as a slice of bytes.
  pub async_call : (Wiring S → S → Writes) → Call S → S → Result Writes
  unfolding concat_group slice_wiring u8_wiring
  async_call f (single w) s = ok (f w s)
  async_call f (group ws) s =
      concat_group ws s >>= λ bs. ok ((slice_wiring u8_wiring).wiring_ref bs)

  -- `wiring` and `wiring_ref` of the structure, by what they do with a field of its own.
  pub async_calls : (Wiring S → S → Writes) → List (Call S) → S → Result Writes
  unfolding async_call
  async_calls f [] s = ok []
  async_calls f (c ∷ cs) s =
      async_call f c s >>= λ ws. async_calls f cs s >>= λ rest. ok (ws ++ rest)

  -- `concat_array` of the structure.
  pub concat_fields : List (Field S) → S → List ℕ → Result (List ℕ)
  concat_fields [] s buf = ok buf
  concat_fields (f ∷ fs) s buf =
      if ltb (length buf) f.wiring.fixed_size
      then panic
      else (f.wiring.concat_array s (take f.wiring.fixed_size buf) >>= λ left.
          concat_fields fs s (drop f.wiring.fixed_size buf) >>= λ right. ok (left ++ right))
