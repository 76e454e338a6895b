-- ===== src/Wired/Streams.antt =====
-- wiring/src/core/wired.rs: the tables of streams, `HashMap<(WireId, bool), _>`, as association lists.
use wiring.Base.{
  ℕ, ◌≡◌, refl, sym, ap, ◌∙◌, inl, inr, Bool, true, false, not, ◌&&◌, Option, none, some, List, [],
  ◌∷◌, arith, ◌==◌, if◌then◌else◌, Bool-cases,
}

abbrev pub Key : Type 0
Key = ℕ × Bool

abbrev pub same : Bool → Bool → Bool
same true b = b
same false b = not b

abbrev pub key_eq : Key → Key → Bool
key_eq k k' = (k.0 == k'.0) && same k.1 k'.1

abbrev pub Table : Type 0 → Type 0
Table A = List (Key × A)

module _ {A : Type 0} where
  abbrev pub lookup : Key → Table A → Option A
  lookup k [] = none
  lookup k (s ∷ t) = if key_eq k s.0 then some s.1 else lookup k t

  abbrev pub unregister : Key → Table A → Table A
  unregister k [] = []
  unregister k (s ∷ t) = let rest = unregister k t in if key_eq k s.0 then rest else s ∷ rest

  abbrev pub enter : Key → A → Table A → Table A
  enter k a t = (k, a) ∷ unregister k t

same_self : (b : Bool) → same b b ≡ true
same_self true = refl
same_self false = refl

pub key_eq_self : (k : Key) → key_eq k k ≡ true
key_eq_self k = let e : (k.0 == k.0) ≡ true = ground arith in rw (e, same_self k.1) refl

same_eq : (a b : Bool) → same a b ≡ true → a ≡ b
same_eq true true e = refl
same_eq false false e = refl
same_eq true false e = cc
same_eq false true e = cc

same_sym : (a b : Bool) → same a b ≡ same b a
same_sym true true = refl
same_sym true false = refl
same_sym false true = refl
same_sym false false = refl

==-sym : (a b : ℕ) → (a == b) ≡ (b == a)
==-sym a b = ground arith

pub key_eq_sym : (k k' : Key) → key_eq k k' ≡ key_eq k' k
key_eq_sym k k' = rw (==-sym k.0 k'.0, same_sym k.1 k'.1) refl

pub key_eq_sound : (k k' : Key) → key_eq k k' ≡ true → k ≡ k'
key_eq_sound k k' e =
    let a : (k.0 == k'.0) ≡ true = ground arith in
    let b : same k.1 k'.1 ≡ true = ground arith in
    let c : k.0 ≡ k'.0 = ground arith in rw (c, same_eq k.1 k'.1 b) refl

module _ {A : Type 0} where
  pub lookup-unregister_same : (k : Key) (t : Table A) → lookup k (unregister k t) ≡ none
  lookup-unregister_same k [] = refl
  lookup-unregister_same k (s ∷ t) = elim (Bool-cases (key_eq k s.0)) [
    | inl h ↦ rw h (lookup-unregister_same k t)
    | inr h ↦ rw (h, h) (lookup-unregister_same k t)
  ]

  pub lookup-unregister_other :
      (k k' : Key) (t : Table A) → key_eq k k' ≡ false → lookup k' (unregister k t) ≡ lookup k' t
  lookup-unregister_other k k' [] h = refl
  lookup-unregister_other k k' (s ∷ t) h = elim (Bool-cases (key_eq k s.0)) [
    | inl e ↦
        let d : key_eq k' s.0 ≡ false =
          ap (key_eq k') (sym (key_eq_sound k s.0 e)) ∙ key_eq_sym k' k ∙ h in
        rw (e, d, lookup-unregister_other k k' t h)
    | inr e ↦ rw (e, lookup-unregister_other k k' t h)
  ]

  pub lookup-insert_same : (k : Key) (a : A) (t : Table A) → lookup k (enter k a t) ≡ some a
  lookup-insert_same k a t = rw (key_eq_self k) refl
