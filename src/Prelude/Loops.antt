-- ===== src/Prelude/Loops.antt =====
-- What a loop leaves alone, and when it pushes nothing.
use mathlib.Core.Path.{◌≡◌, refl, ap, ◌∙◌}
use native.Mathlib.Omega.{arith}
use mathlib.Core.Logic.{◌⊎◌, inl, inr}
use mathlib.Core.Bool.{true}
use mathlib.Core.List.{List, [], ◌∷◌, ◌++◌}
use mathlib.Core.Option.{Option, none, some}
use ghidra_svr_bridge.Prelude.Tests.{Bool-cases, Option-cases}
use ghidra_svr_bridge.Prelude.Equality.{Eq, ◌==◌}
use ghidra_svr_bridge.Prelude.Maps.{member}
use ghidra_svr_bridge.Prelude.Lists.{filter_map, fold, All}

-- Membership by recursion, for any goal.
abbrev pub In : {A : Type 0} → A → List A → Type 0
In x [] = ⊥
In x (y ∷ ys) = (y ≡ x) ⊎ In x ys

module _ {κ} {A : Type 0} {B : Type κ} where
  pub filter_map-nil :
      (f : A → Option B) (xs : List A) → ((x : A) → In x xs → f x ≡ none) → filter_map f xs ≡ []
  filter_map-nil f [] h = refl
  filter_map-nil f (x ∷ xs) h =
      rw (h x (inl refl), filter_map) (filter_map-nil f xs (λ y i. h y (inr i)))

  -- What every pushed element satisfies.
  pub filter_map-All {μ} :
      (P : B → Type μ) (f : A → Option B) (xs : List A)
      → ((x : A) (y : B) → In x xs → f x ≡ some y → P y)
      → All P (filter_map f xs)
  filter_map-All P f [] h = tt
  filter_map-All P f (x ∷ xs) h = elim (Option-cases (f x)) [
    | inl e ↦ rw (e, filter_map) (filter_map-All P f xs (λ z y i. h z y (inr i)))
    | inr (y, e) ↦
        rw (e, filter_map) (h x y (inl refl) e, filter_map-All P f xs (λ z w i. h z w (inr i)))
  ]

  -- A projection that the body leaves alone.
  pub fold-frame {μ} :
      {F : Type μ} (g : B → F) (f : B → A → B)
      → ((s : B) (a : A) → g (f s a) ≡ g s)
      → (s : B) (xs : List A) → g (fold f s xs) ≡ g s
  fold-frame g f h s [] = refl
  fold-frame g f h s (x ∷ xs) = fold-frame g f h (f s x) xs ∙ h s x

  -- An invariant of the body, for the elements at hand.
  pub fold-inv {μ ν} :
      (P : B → Type μ) (Q : A → Type ν) (f : B → A → B)
      → ((s : B) (a : A) → Q a → P s → P (f s a))
      → (s : B) (xs : List A) → All Q xs
      → P s
      → P (fold f s xs)
  fold-inv P Q f h s [] q p = p
  fold-inv P Q f h s (x ∷ xs) q p = fold-inv P Q f h (f s x) xs q.1 (h s x q.0 p)

  pub fold-append :
      (f : B → A → B) (s : B) (xs ys : List A) → fold f s (xs ++ ys) ≡ fold f (fold f s xs) ys
  fold-append f s [] ys = refl
  fold-append f s (x ∷ xs) ys = fold-append f (f s x) xs ys

module _ {κ} {A B : Type 0} {S : Type κ} (P : S → Type 0) (step : S → B → S)
    (f : A → Option B) where
  -- The pushed elements keep a property of the state.
  pub fold-keeps :
      (xs : List A)
      → ((x : A) (y : B) → In x xs → f x ≡ some y → (s : S) → P s → P (step s y))
      → (s : S) → P s
      → P (fold step s (filter_map f xs))
  fold-keeps xs keeps s p =
      fold-inv P (λ y. (s : S) → P s → P (step s y)) step (λ s y q p. q s p) s (filter_map f xs)
        (filter_map-All (λ y. (s : S) → P s → P (step s y)) f xs keeps) p

  -- One of them establishes it.
  pub fold-reaches :
      (xs : List A)
      → ((x : A) (y : B) → In x xs → f x ≡ some y → (s : S) → P s → P (step s y))
      → (x : A) (y : B) → In x xs
      → f x ≡ some y
      → ((s : S) → P (step s y))
      → (s : S) → P (fold step s (filter_map f xs))
  fold-reaches [] keeps x y i e r s = elim i [ ]
  fold-reaches (z ∷ zs) keeps x y (inl h) e r s =
      rw (ap f h ∙ e, filter_map) (fold-keeps zs (λ z w i. keeps z w (inr i)) (step s y) (r s))
  fold-reaches (z ∷ zs) keeps x y (inr i) e r s = elim (Option-cases (f z)) [
    | inl h ↦ rw (h, filter_map) (fold-reaches zs (λ z w i. keeps z w (inr i)) x y i e r s)
    | inr (w, h) ↦
        rw (h, filter_map) (fold-reaches zs (λ z w i. keeps z w (inr i)) x y i e r (step s w))
  ]

module _ {A : Type 0} ⦃e : Eq A⦄ where
  pub In-member : (x : A) (xs : List A) → In x xs → member x xs ≡ true
  unfolding member
  In-member x [] i = elim i [ ]
  In-member x (y ∷ ys) (inl h) = ground (arith, e.same_iff y x)
  In-member x (y ∷ ys) (inr i) = elim (Bool-cases (y == x)) [
    | inl h ↦ rw h
    | inr h ↦ rw h (In-member x ys i)
  ]

  pub member-In : (x : A) (xs : List A) → member x xs ≡ true → In x xs
  unfolding member
  member-In x [] h = cc
  member-In x (y ∷ ys) h = elim (Bool-cases (y == x)) [
    | inl k ↦ inl ((e.same_iff y x).0 k)
    | inr k ↦ inr (member-In x ys (ground (arith, h, k)))
  ]

-- Two loops over the same elements whose bodies keep a relation.
pub fold-sim {κ μ ν} :
    {A : Type 0} {S : Type κ} {T : Type μ} (R : S → T → Type ν) (f : S → A → S) (g : T → A → T)
    → ((s : S) (t : T) (x : A) → R s t → R (f s x) (g t x))
    → (s : S) (t : T) (xs : List A) → R s t
    → R (fold f s xs) (fold g t xs)
fold-sim R f g h s t [] r = r
fold-sim R f g h s t (x ∷ xs) r = fold-sim R f g h (f s x) (g t x) xs (h s t x r)
