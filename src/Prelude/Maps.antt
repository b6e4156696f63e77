-- ===== src/Prelude/Maps.antt =====
-- `std::unordered_map`, `std::map` as association lists, `std::unordered_set`, `std::set` as lists.
-- The order of a list is the order of an iteration, which the standard leaves open.
use mathlib.Core.Path.{◌≡◌, refl}
use mathlib.Core.Bool.{Bool, true, false, ◌||◌, not, ◌&&◌}
use mathlib.Core.List.{List, [], ◌∷◌}
use mathlib.Core.Option.{Option, none, some}
use native.Mathlib.Omega.{arith}
use ghidra_svr_bridge.Prelude.Tests.{if◌then◌else◌}
use ghidra_svr_bridge.Prelude.Equality.{Eq, ◌==◌}

abbrev pub Map {ℓ κ} : Type ℓ → Type κ → Type (ℓ ⊔ κ)
Map K V = List (K × V)

abbrev pub is_some {ℓ} : {A : Type ℓ} → Option A → Bool
is_some none = false
is_some (some a) = true

abbrev pub get_or {ℓ} : {A : Type ℓ} → Option A → A → A
get_or none d = d
get_or (some a) d = a

module _ {ℓ κ} {K : Type ℓ} {V : Type κ} ⦃e : Eq K⦄ where
  -- `m.find(k)`
  unfoldable pub lookup : K → Map K V → Option V
  lookup key [] = none
  lookup key ((k, v) ∷ rest) = if k == key then some v else lookup key rest

  -- `m[k] = v`
  unfoldable pub insert : K → V → Map K V → Map K V
  insert key v [] = (key, v) ∷ []
  insert key v ((k, old) ∷ rest) = if k == key then (k, v) ∷ rest else (k, old) ∷ insert key v rest

  -- `m.erase(k)`
  unfoldable pub erase : K → Map K V → Map K V
  erase key [] = []
  erase key ((k, v) ∷ rest) = if k == key then erase key rest else (k, v) ∷ erase key rest

  -- `m.count(k)`
  abbrev pub has : K → Map K V → Bool
  has k m = is_some (lookup k m)

  pub lookup-insert :
      (new key : K) (v : V) (m : Map K V)
      → lookup key (insert new v m) ≡ (if new == key then some v else lookup key m)
  unfolding insert lookup
  lookup-insert new key v [] = refl
  lookup-insert new key v ((k, w) ∷ rest) =
      ground (
        arith,
        e.same_iff new key,
        e.same_iff k new,
        e.same_iff k key,
        lookup-insert new key v rest,
      )

  pub lookup-erase :
      (old key : K) (m : Map K V)
      → lookup key (erase old m) ≡ (if old == key then none else lookup key m)
  unfolding erase lookup
  lookup-erase old key [] = ground arith
  lookup-erase old key ((k, w) ∷ rest) =
      ground
        (arith, e.same_iff old key, e.same_iff k old, e.same_iff k key, lookup-erase old key rest)

module _ {ℓ} {K : Type ℓ} ⦃e : Eq K⦄ where
  -- `s.count(k)`
  unfoldable pub member : K → List K → Bool
  member k [] = false
  member k (j ∷ s) = j == k || member k s

  -- `s.insert(k)`
  unfoldable pub add : K → List K → List K
  add k [] = k ∷ []
  add k (j ∷ s) = if j == k then j ∷ s else j ∷ add k s

  -- `s.erase(k)`
  unfoldable pub remove : K → List K → List K
  remove k [] = []
  remove k (j ∷ s) = if j == k then remove k s else j ∷ remove k s

  pub member-add : (k j : K) (s : List K) → member j (add k s) ≡ (k == j || member j s)
  unfolding member add
  member-add k j [] = refl
  member-add k j (i ∷ s) =
      ground (arith, e.same_iff k j, e.same_iff i k, e.same_iff i j, member-add k j s)

  pub member-remove : (k j : K) (s : List K) → member j (remove k s) ≡ (not (k == j) && member j s)
  unfolding member remove
  member-remove k j [] = ground arith
  member-remove k j (i ∷ s) =
      ground (arith, e.same_iff k j, e.same_iff i k, e.same_iff i j, member-remove k j s)
