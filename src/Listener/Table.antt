-- ===== src/Listener/Table.antt =====
-- The table of wires of wiring/src/core/listener.rs.
use wiring.Base.{
  sym, ◌∙◌, subst, ◌⊎◌, ℕ, false, List, [], ◌∷◌, none, some, ◌==◌, ◌≡◌, arith, Bool-cases, inl, inr,
  refl, Option, true,
}
use wiring.Listener.{Wires, get, free_id, insert, remove, contains_key}

pub get-remove_same : (id : ℕ) (ws : Wires) → get id (remove id ws) ≡ none
get-remove_same id [] = refl
get-remove_same id (w ∷ ws) = elim (Bool-cases (w.0 == id)) [
  | inl h ↦ rw h (get-remove_same id ws)
  | inr h ↦ rw (h, h) (get-remove_same id ws)
]

pub get-remove_other :
    (id id' : ℕ) (ws : Wires) → (id == id') ≡ false → get id' (remove id ws) ≡ get id' ws
get-remove_other id id' [] h = refl
get-remove_other id id' (w ∷ ws) h = elim (Bool-cases (w.0 == id)) [
  | inl e ↦
      let other : (w.0 == id') ≡ false = ground arith in
      rw (e, other) (get-remove_other id id' ws h)
  | inr e ↦ rw (e, get-remove_other id id' ws h)
]

-- The table has an entry under an id after an insertion only if it is the new one or was there.
pub get-insert_cases :
    (id id' : ℕ) (e e' : ℕ × ℕ) (ws : Wires)
    → get id' (insert id e ws) ≡ some e'
    → ((id ≡ id') × (e ≡ e')) ⊎ (get id' ws ≡ some e')
get-insert_cases id id' e e' ws h = elim (Bool-cases (id == id')) [
  | inl same ↦ inl (ground arith, (let h' : some e ≡ some e' = rw same at h in cc))
  | inr other ↦ inr (sym (get-remove_other id id' ws other) ∙ rw other at h)
]

absent : (o : Option (ℕ × ℕ)) → elim o [ none ↦ false | some e ↦ true ] ≡ false → o ≡ none
absent none h = refl
absent (some e) h = cc

-- The id that is drawn is not in the table.
pub free_id-fresh :
    (ids : List ℕ) (ws : Wires) (id : ℕ) → free_id ids ws ≡ some id → get id ws ≡ none
free_id-fresh [] ws id h = cc
free_id-fresh (n ∷ ids) ws id h = elim (Bool-cases (contains_key n ws)) [
  | inl e ↦ free_id-fresh ids ws id (rw e at h)
  | inr e ↦
      let drawn : some n ≡ some id = rw e at h in
      let same : n ≡ id = cc in subst (λ (k : ℕ). get k ws ≡ none) same (absent (get n ws) e)
]
