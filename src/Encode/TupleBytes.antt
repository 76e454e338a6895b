-- ===== src/Encode/TupleBytes.antt =====
-- wiring/src/core/wire.rs: the bytes that the implementations of `Wiring` for tuples and arrays write.
use wiring.Base.{
  ◌≡◌, All, false, flatten, flat_map, length, ◌*◌, ◌++◌, ◌+◌, flatten-flat_map, ◌||◌,
  flatten-append, ◌∙◌, arith, ap, length-append, ok, List, ℕ,
}
use wiring.Wire.{Writes}
use wiring.Wire.Laws.{Room-first, Room-second, extend-extend}
use wiring.Format.{enc_pair, enc_triple}
use wiring.Encode.{Wiring, wiring_array_ref}
use wiring.Encode.Laws.{Encodes, SyncWrites, provided-Encodes, HasFixedSize, length-flat_map_fixed}
use wiring.Encode.Containers.{pair_wiring, array_wiring, triple_wiring}
use native.Mathlib.Nat.{mul_comm}

abbrev pub FitsPair : {A B : Type 0} → (A → Type 0) → (B → Type 0) → A × B → Type 0
FitsPair F G p = F p.0 × G p.1

abbrev pub FitsTriple :
    {A B C : Type 0} → (A → Type 0) → (B → Type 0) → (C → Type 0) → A × B × C → Type 0
FitsTriple F G H p = F p.0 × G p.1 × H p.2

abbrev pub FitsArray : {A : Type 0} → (A → Type 0) → ℕ → List A → Type 0
FitsArray F n xs = All F xs × (length xs ≡ n)

module _ {A B : Type 0} (w : Wiring A) (w' : Wiring B) (Fits : A → Type 0) (Fits' : B → Type 0)
    (enc : A → List ℕ) (enc' : B → List ℕ) (e : Encodes w Fits enc)
    (e' : Encodes w' Fits' enc') where
  pair_written :
      (f : A → Writes) (g : B → Writes)
      → ((x : A) → flatten (f x) ≡ enc x)
      → ((y : B) → flatten (g y) ≡ enc' y)
      → (p : A × B) → flatten (f p.0 ++ g p.1) ≡ enc_pair enc enc' p
  pair_written f g hf hg p = flatten-append (f p.0) (g p.1) ∙ rw (hf p.0, hg p.1)

  pair_sync : SyncWrites (FitsPair Fits Fits') (enc_pair enc enc') (pair_wiring w w').sync_wiring
  unfolding pair_wiring
  pair_sync t p v h room = rw (e.sync t p.0 v h.0 (Room-first t v (enc p.0) (enc' p.1) room)) (
      e'.sync t p.1 _ h.1 (Room-second t v (enc p.0) (enc' p.1) room)
      ∙ ap ok (extend-extend (enc p.0) (enc' p.1) v))

  pair_size :
      (w.mixed ≡ false → w'.mixed ≡ false)
      → HasFixedSize
          (FitsPair Fits Fits')
          (enc_pair enc enc')
          (w.fixed_size + w'.fixed_size)
          (w.mixed || w.mixed)
  pair_size ok_flags p h m =
      let m0 : w.mixed ≡ false = ground (arith, m) in
      length-append (enc p.0) (enc' p.1)
      ∙ omega (arith, e.fixed p.0 h.0 m0, e'.fixed p.1 h.1 (ok_flags m0))

  -- Every writing method of (T, TT) writes the parts' bytes one behind the other, slices of pairs
  -- included, if T and TT meet their formats and TT is not MIXED when T is not.
  pub pair-Encodes :
      (w.mixed ≡ false → w'.mixed ≡ false)
      → Encodes (pair_wiring w w') (FitsPair Fits Fits') (enc_pair enc enc')
  unfolding pair_wiring
  pair-Encodes ok_flags =
      provided-Encodes (FitsPair Fits Fits') (enc_pair enc enc') _ _ _ _ _ _
        (pair_written w.async_wiring w'.async_wiring e.async e'.async)
        (pair_written w.wiring_ref w'.wiring_ref e.by_ref e'.by_ref) pair_sync (pair_size ok_flags)

module _ {A : Type 0} (w : Wiring A) (Fits : A → Type 0) (enc : A → List ℕ)
    (e : Encodes w Fits enc) where
  array_size : (n : ℕ) → HasFixedSize (FitsArray Fits n) (flat_map enc) (w.fixed_size * n) w.mixed
  array_size n xs h m =
      length-flat_map_fixed Fits enc w.sync_wiring e.sync w.fixed_size w.mixed e.fixed xs h.0 m
      ∙ rw h.1 (mul_comm n w.fixed_size)

  -- Every writing method of [T; LEN] writes the elements' bytes with no length before them, if T
  -- meets its format, and FIXED_SIZE is their number when T is not MIXED.
  pub array-Encodes : (n : ℕ) → Encodes (array_wiring w n) (FitsArray Fits n) (flat_map enc)
  unfolding array_wiring wiring_array_ref
  array-Encodes n =
      provided-Encodes (FitsArray Fits n) (flat_map enc) (w.fixed_size * n) w.mixed _ _ _ _
        e.async_array (flatten-flat_map w.wiring_ref enc e.by_ref)
        (λ t xs v h room. e.array t xs v h.0 room) (array_size n)

module _ {A B C : Type 0} (w : Wiring A) (w' : Wiring B) (w'' : Wiring C) (Fits : A → Type 0)
    (Fits' : B → Type 0) (Fits'' : C → Type 0) (enc : A → List ℕ) (enc' : B → List ℕ)
    (enc'' : C → List ℕ) (e : Encodes w Fits enc) (e' : Encodes w' Fits' enc')
    (e'' : Encodes w'' Fits'' enc'') where
  triple_written :
      (f : A → Writes) (g : B → Writes) (h : C → Writes)
      → ((x : A) → flatten (f x) ≡ enc x)
      → ((y : B) → flatten (g y) ≡ enc' y)
      → ((z : C) → flatten (h z) ≡ enc'' z)
      → (p : A × B × C) → flatten (f p.0 ++ (g p.1 ++ h p.2)) ≡ enc_triple enc enc' enc'' p
  triple_written f g h hf hg hh p =
      flatten-append (f p.0) (g p.1 ++ h p.2)
      ∙ rw (flatten-append (g p.1) (h p.2), hf p.0, hg p.1, hh p.2)

  triple_sync :
      SyncWrites
        (FitsTriple Fits Fits' Fits'')
        (enc_triple enc enc' enc'')
        (triple_wiring w w' w'').sync_wiring
  unfolding triple_wiring
  triple_sync t p v h room =
      let bs = enc p.0 in
      let bs' = enc' p.1 in
      let bs'' = enc'' p.2 in
      let room' = Room-second t v bs (bs' ++ bs'') room in
      rw (e.sync t p.0 v h.0 (Room-first t v bs (bs' ++ bs'') room)) (
        rw (e'.sync t p.1 _ h.1 (Room-first t _ bs' bs'' room'))
          (e''.sync t p.2 _ h.2 (Room-second t _ bs' bs'' room'))
        ∙ ap ok (extend-extend bs' bs'' _ ∙ extend-extend bs (bs' ++ bs'') v))

  -- Every writing method of (T, TT, TTT) writes the parts' bytes one behind the other, if the parts
  -- meet their formats.
  pub triple-Encodes :
      Encodes (triple_wiring w w' w'') (FitsTriple Fits Fits' Fits'') (enc_triple enc enc' enc'')
  unfolding triple_wiring
  triple-Encodes =
      provided-Encodes (FitsTriple Fits Fits' Fits'') (enc_triple enc enc' enc'') _ _ _ _ _ _
        (triple_written w.async_wiring w'.async_wiring w''.async_wiring e.async e'.async e''.async)
        (triple_written w.wiring_ref w'.wiring_ref w''.wiring_ref e.by_ref e'.by_ref e''.by_ref)
        triple_sync (λ p h m. cc)
