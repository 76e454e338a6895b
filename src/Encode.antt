-- ===== src/Encode.antt =====
-- wiring/src/core/wire.rs: the trait `Wiring`, as a record of its constants and methods, with the
-- methods that it provides itself. `async_wiring` is the trait's `wiring`.
pub mod Laws
pub mod Numbers
pub mod Containers
pub mod ConcatBytes
pub mod NumberBytes
pub mod ContainerBytes
pub mod TupleBytes
pub mod Overruns
pub mod Chains
use wiring.Base.{
  ℕ, ◌*◌, ◌%◌, ◌^◌, Bool, List, [], ◌∷◌, ◌++◌, length, flat_map, if◌then◌else◌, Result, ok, ◌>>=◌,
}
use wiring.Wire.{VecWire, Target, wrapped, Writes, write_uint, sync_wire_u64, reserve_capacity}

abbrev pub SyncWiring : Type 0 → Type 0
SyncWiring A = Target → A → VecWire → Result VecWire

pub record Wiring (A : Type 0) : Type 0 where
  pub fixed_size : ℕ
  pub mixed : Bool
  pub async_wiring : A → Writes
  pub wiring_ref : A → Writes
  pub wiring_slice : List A → Writes
  pub wiring_array : List A → Writes
  pub sync_wiring : SyncWiring A
  pub sync_wiring_slice : SyncWiring (List A)
  pub sync_wiring_array : SyncWiring (List A)
  pub concat_array : A → List ℕ → Result (List ℕ)

module _ {A : Type 0} where
  -- `for i in slice { i.sync_wiring(wire)?; }`
  pub sync_each : SyncWiring A → SyncWiring (List A)
  sync_each f t [] v = ok v
  sync_each f t (x ∷ xs) v = f t x v >>= sync_each f t xs

  -- The elements of a slice of a type that is not `MIXED` go through an `Unchecked` wire, for which
  -- the capacity is reserved at once.
  pub default_sync_wiring_slice : ℕ → Bool → SyncWiring A → SyncWiring (List A)
  default_sync_wiring_slice fixed mixed f t xs v = do
    v' ← sync_wire_u64 t (length xs) v
    if mixed
        then sync_each f t xs v'
        else reserve_capacity t (length xs * fixed % 2 ^ 64) v' >>= sync_each f wrapped xs

  pub default_wiring_slice : (A → Writes) → List A → Writes
  default_wiring_slice f xs = write_uint 8 (length xs) ++ flat_map f xs

  -- An implementation that overrides none of the provided methods.
  unfoldable pub provided :
      ℕ
      → Bool
      → (A → Writes)
      → (A → Writes)
      → SyncWiring A
      → (A → List ℕ → Result (List ℕ))
      → Wiring A
  unfolding default_sync_wiring_slice default_wiring_slice sync_each
  provided fixed is_mixed f g h concat = record {
    fixed_size = fixed;
    mixed = is_mixed;
    async_wiring = f;
    wiring_ref = g;
    wiring_slice = default_wiring_slice g;
    wiring_array = flat_map f;
    sync_wiring = h;
    sync_wiring_slice = default_sync_wiring_slice fixed is_mixed h;
    sync_wiring_array = sync_each h;
    concat_array = concat;
  }

  -- Provided methods that no implementation overrides.
  pub wiring_vec : Wiring A → List A → Writes
  wiring_vec w xs = write_uint 8 (length xs) ++ flat_map w.async_wiring xs

  pub wiring_array_ref : Wiring A → List A → Writes
  wiring_array_ref w xs = flat_map w.wiring_ref xs

  pub wiring_arc : Wiring A → A → Writes
  wiring_arc w x = w.wiring_ref x

-- The default `concat_array` has an empty body.
abbrev pub no_concat : {A : Type 0} → A → List ℕ → Result (List ℕ)
no_concat x buf = ok buf
