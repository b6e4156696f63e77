-- ===== src/Prelude/Failure.antt =====
-- Code that may throw a `std::exception`, with the text of `what()`.
use mathlib.Core.Path.{◌≡◌, refl}
use mathlib.Core.Logic.{◌⊎◌, inl, inr}
use native.Mathlib.Omega.{arith}
use mathlib.Core.List.{List, [], ◌∷◌}
use ghidra_svr_bridge.Prelude.Equality.{Str}
use ghidra_svr_bridge.Prelude.Lists.{All}

pub data Exc {ℓ} (T : Type ℓ) : Type ℓ where
  throw : Str → Exc T
  ok : T → Exc T

infixl 5 ◌>>=◌
abbrev pub ◌>>=◌ {ℓ κ} : {T : Type ℓ} {U : Type κ} → Exc T → (T → Exc U) → Exc U
throw what >>= _ = throw what
ok result >>= rest = rest result

-- A loop over a container whose body may throw.
abbrev pub traverse {ℓ κ} : {A : Type ℓ} {B : Type κ} → (A → Exc B) → List A → Exc (List B)
traverse f [] = ok []
traverse f (x ∷ xs) = do y ← f x; ys ← traverse f xs; ok (y ∷ ys)

-- Both parts of a loop's step have a result, if the step has.
step-ok {ℓ} :
    {T : Type ℓ} (m : Exc T) (ms : Exc (List T)) (y : T) (ys : List T)
    → (do z ← m; zs ← ms; ok (z ∷ zs)) ≡ ok (y ∷ ys)
    → (m ≡ ok y) × (ms ≡ ok ys)
step-ok m ms y ys e = ground arith

step-cons {ℓ} :
    {T : Type ℓ} (m : Exc T) (ms : Exc (List T)) → ¬ ((do z ← m; zs ← ms; ok (z ∷ zs)) ≡ ok [])
step-cons m ms e = ground arith

-- What holds of every result of a loop that does not throw.
pub traverse-All {ℓ κ} :
    {S : Type ℓ} {T : Type κ} (P : T → Type 0) (f : S → Exc T)
    → ((x : S) (y : T) → f x ≡ ok y → P y)
    → (xs : List S) (ys : List T) → traverse f xs ≡ ok ys
    → All P ys
traverse-All P f h [] [] e = tt
traverse-All P f h [] (y ∷ ys) e = cc
traverse-All P f h (x ∷ xs) [] e = absurd (step-cons (f x) (traverse f xs) e)
traverse-All P f h (x ∷ xs) (y ∷ ys) e =
    let q = step-ok (f x) (traverse f xs) y ys e in (h x y q.0, traverse-All P f h xs ys q.1)

pub Exc-cases {ℓ} :
    {T : Type ℓ} (m : Exc T) → ((what : Str) × (m ≡ throw what)) ⊎ ((t : T) × (m ≡ ok t))
Exc-cases (throw what) = inl (what, refl)
Exc-cases (ok t) = inr (t, refl)
