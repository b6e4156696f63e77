-- ===== src/Names/Digits.antt =====
-- The digits that `std::to_string` writes, read back.
use ghidra_svr_bridge.Prelude.{
  ℕ, zero, suc, ◌+◌, ◌-◌, ◌*◌, ◌/◌, ◌%◌, ◌^◌, ◌<◌, ◌≤◌, [], ◌∷◌, ◌++◌, Str, ◌≡◌, ap, ◌∙◌, arith,
  inl, inr, Bool-cases, ltb, decimal_digits, decimal_prefix, All, All-append, refl, is_empty, false,
}

-- A decimal digit behind the digits of a text.
prefix-digit :
    (acc d : ℕ) (s : Str)
    → All (λ c. (48 ≤ c) × (c ≤ 57)) s
    → d < 10
    → decimal_prefix acc (s ++ (48 + d) ∷ []) ≡ decimal_prefix acc s * 10 + d
unfolding decimal_prefix
prefix-digit acc d [] a h = ground (arith, h)
prefix-digit acc d (c ∷ s) a h = ground (arith, a.0, prefix-digit (acc * 10 + (c - 48)) d s a.1 h)

-- Decimal digits.
abbrev pub IsNumeral : Str → Type 0
IsNumeral s = All (λ c. (48 ≤ c) × (c ≤ 57)) s

-- `10 ^ n`
ten : ℕ → ℕ
ten zero = 1
ten (suc n) = 10 * ten n

pub decimal_digits-IsNumeral : (fuel n : ℕ) → IsNumeral (decimal_digits fuel n)
unfolding decimal_digits
decimal_digits-IsNumeral zero n = tt
decimal_digits-IsNumeral (suc fuel) n = elim (Bool-cases (ltb n 10)) [
  | inl e ↦ rw (e, decimal_digits) ((ground (arith, e), ground (arith, e)), tt)
  | inr e ↦
      rw (e, decimal_digits)
        (All-append (λ c. (48 ≤ c) × (c ≤ 57)) (decimal_digits fuel (n / 10)) _
          (decimal_digits-IsNumeral fuel (n / 10)) ((omega arith, omega arith), tt))
]

digits-value : (fuel n : ℕ) → n < ten fuel → decimal_prefix 0 (decimal_digits fuel n) ≡ n
unfolding decimal_digits ten decimal_prefix
digits-value zero n h = omega (arith, h)
digits-value (suc fuel) n h = elim (Bool-cases (ltb n 10)) [
  | inl e ↦ rw (e, decimal_digits) (prefix-digit 0 n [] tt (ground (arith, e)) ∙ omega arith)
  | inr e ↦
      rw (e, decimal_digits)
        (prefix-digit 0 (n % 10) (decimal_digits fuel (n / 10))
            (decimal_digits-IsNumeral fuel (n / 10)) (omega arith)
          ∙ (ap (λ v. v * 10 + n % 10) (digits-value fuel (n / 10) (omega (arith, h)))
              ∙ omega arith))
]

pub is_empty-append : (s t : Str) (c : ℕ) → is_empty (s ++ c ∷ t) ≡ false
is_empty-append [] t c = refl
is_empty-append (d ∷ s) t c = refl

pub some_digits : (fuel n : ℕ) → is_empty (decimal_digits (suc fuel) n) ≡ false
unfolding decimal_digits
some_digits fuel n = elim (Bool-cases (ltb n 10)) [
  | inl e ↦ rw (e, decimal_digits) refl
  | inr e ↦ rw (e, decimal_digits) (is_empty-append (decimal_digits fuel (n / 10)) [] _)
]

ten-twenty : ten 20 ≡ 10 ^ 20
unfolding ten
ten-twenty = refl

-- The digits of a 64-bit number spell it.
pub decimal_digits-value : (n : ℕ) → n < 2 ^ 64 → decimal_prefix 0 (decimal_digits 20 n) ≡ n
decimal_digits-value n h = digits-value 20 n (below n h)
  where
    below : (n : ℕ) → n < 2 ^ 64 → n < ten 20
    below n h = omega (arith, h, ten-twenty)
