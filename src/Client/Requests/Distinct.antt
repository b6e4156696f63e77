-- ===== src/Client/Requests/Distinct.antt =====
-- A map that holds each key once, and what an insertion and an erasure make of it.
use ghidra_svr_bridge.Prelude.{
  suc, false, [], ◌∷◌, Option, none, some, ℤ, ◌≡◌, refl, sym, ap, ◌∙◌, inl, inr, arith, Bool-cases,
  ◌==◌, int_eq, int_beq_iff, if◌then◌else◌, Map, lookup, insert, erase, lookup-insert, lookup-erase,
  length,
}

module _ {V : Type 0} where
  abbrev pub Distinct : Map ℤ V → Type 0
  Distinct [] = Unit
  Distinct ((k, v) ∷ m) = (lookup k m ≡ none) × Distinct m

  erase-absent : (k : ℤ) (m : Map ℤ V) → lookup k m ≡ none → erase k m ≡ m
  unfolding lookup erase
  erase-absent k [] h = refl
  erase-absent k ((j, v) ∷ m) h = elim (Bool-cases (j == k)) [
    | inl e ↦ absurd (ground (arith, h, e))
    | inr e ↦ rw e (ap (◌∷◌ (j, v)) (erase-absent k m (ground (arith, h, e))))
  ]

  pub Distinct-erase : (k : ℤ) (m : Map ℤ V) → Distinct m → Distinct (erase k m)
  unfolding erase
  Distinct-erase k [] d = tt
  Distinct-erase k ((j, v) ∷ m) d = elim (Bool-cases (j == k)) [
    | inl e ↦ rw e (Distinct-erase k m d.1)
    | inr e ↦ rw e ((lookup-erase k j m ∙ off j (lookup j m) d.0, Distinct-erase k m d.1))
  ]
    where
      off : (j : ℤ) (o : Option V) → o ≡ none → (if k == j then none else o) ≡ none
      off j o h = elim (Bool-cases (k == j)) [ inl e ↦ rw e refl | inr e ↦ rw e h ]

  pub Distinct-insert :
      (k : ℤ) (v : V) (m : Map ℤ V) → lookup k m ≡ none → Distinct m → Distinct (insert k v m)
  unfolding insert lookup
  Distinct-insert k v [] h d = (refl, tt)
  Distinct-insert k v ((j, w) ∷ m) h d = elim (Bool-cases (j == k)) [
    | inl e ↦ absurd (ground (arith, h, e))
    | inr e ↦ rw e (
        (
          lookup-insert k j v m ∙ rw (turned e) d.0,
          Distinct-insert k v m (ground (arith, h, e)) d.1,
        ))
  ]
    where
      turned : (j == k) ≡ false → (k == j) ≡ false
      turned e = ground (arith, e, int_beq_iff j k, int_beq_iff k j)

  pub length-insert :
      (k : ℤ) (v : V) (m : Map ℤ V) → lookup k m ≡ none → length (insert k v m) ≡ suc (length m)
  unfolding insert lookup
  length-insert k v [] h = refl
  length-insert k v ((j, w) ∷ m) h = elim (Bool-cases (j == k)) [
    | inl e ↦ absurd (ground (arith, h, e))
    | inr e ↦ rw e (ap suc (length-insert k v m (ground (arith, h, e))))
  ]

  pub length-erase :
      (k : ℤ) (v : V) (m : Map ℤ V)
      → Distinct m
      → lookup k m ≡ some v
      → suc (length (erase k m)) ≡ length m
  unfolding erase lookup
  length-erase k v [] d h = cc
  length-erase k v ((j, w) ∷ m) d h = elim (Bool-cases (j == k)) [
    | inl e ↦ rw e (
        ap (λ (x : Map ℤ V). suc (length x))
          (erase-absent k m (ap (λ i. lookup i m) (sym ((int_beq_iff j k).0 e)) ∙ d.0)))
    | inr e ↦ rw e (ap suc (length-erase k v m d.1 (ground (arith, h, e))))
  ]
