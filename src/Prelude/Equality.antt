-- ===== src/Prelude/Equality.antt =====
-- Types whose values the program compares: numbers, signed integers, byte strings.
use Prim.Native.Nat.{ℕ}
use Prim.Native.Char.{code}
use Prim.Native.String.{String}
use mathlib.Core.Path.{◌≡◌, refl}
use mathlib.Core.Logic.{◌↔◌}
use mathlib.Core.Bool.{Bool, true, false, ◌&&◌}
use mathlib.Core.List.{List, [], ◌∷◌}
use native.Mathlib.Omega.{arith}
use ghidra_svr_bridge.Prelude.Tests.{nat_beq, nat_beq_iff}

pub record Eq {ℓ} (T : Type ℓ) : Type ℓ where
  pub same : T → T → Bool
  pub same_iff : (x y : T) → (same x y ≡ true) ↔ (x ≡ y)

instance abbrev pub nat_eq : Eq ℕ
nat_eq = record { same_iff = nat_beq_iff; same = nat_beq }

infix 50 ◌==◌
abbrev pub ◌==◌ {κ} : {K : Type κ} ⦃eq : Eq K⦄ → K → K → Bool
◌==◌ ⦃eq⦄ = eq.same

pub ==-refl {κ} : {K : Type κ} ⦃eq : Eq K⦄ (x : K) → (x == x) ≡ true
==-refl ⦃eq⦄ x = (eq.same_iff x x).1 refl

-- An `int` or an `int64_t`: `negsuc n` is -(n + 1).
pub data ℤ : Type 0 where
  pos : ℕ → ℤ
  negsuc : ℕ → ℤ

unfoldable pub int_beq : ℤ → ℤ → Bool
int_beq (pos a) (pos b) = nat_beq a b
int_beq (negsuc a) (negsuc b) = nat_beq a b
int_beq _ _ = false

pub int_beq_iff : (a b : ℤ) → (int_beq a b ≡ true) ↔ (a ≡ b)
unfolding int_beq
int_beq_iff (pos a) (pos b) = ground arith
int_beq_iff _ _ = ground arith

instance abbrev pub int_eq : Eq ℤ
int_eq = record { same = int_beq; same_iff = int_beq_iff }

-- A `std::string`: its bytes.
abbrev pub Str : Type 0
Str = List ℕ

-- The bytes of an ASCII literal.
abbrev pub codes : String → Str
codes (String.◌∷◌ first rest) = code first ∷ codes rest
codes String.[] = []

unfoldable pub str_beq : Str → Str → Bool
str_beq [] [] = true
str_beq (x ∷ a) (y ∷ b) = nat_beq x y && str_beq a b
str_beq _ _ = false

pub str_beq_iff : (a b : Str) → (str_beq a b ≡ true) ↔ (a ≡ b)
unfolding str_beq
str_beq_iff (x ∷ a) (y ∷ b) = ground (arith, str_beq_iff a b)
str_beq_iff _ _ = ground arith

instance abbrev pub str_eq : Eq Str
str_eq = record { same = str_beq; same_iff = str_beq_iff }
