-- ===== src/Hex/RoundTrip.antt =====
-- Printing an address and reading it back.
use native.Mathlib.Nat.{pow-suc}
use ghidra_svr_bridge.Prelude.{
  ℕ, zero, suc, ◌+◌, ◌*◌, ◌/◌, ◌%◌, ◌^◌, ◌<◌, ◌≤◌, ◌≡◌, refl, ◌∙◌, false, ◌||◌, [], ◌∷◌, ◌++◌, inl,
  inr, some, Str, codes, All, All-append, length, length-append, arith, Bool-cases, ◌==◌, nat_eq,
}
use ghidra_svr_bridge.Hex.{
  word, hex_digit, hex_digits, to_hex, hex_value, read_digits, skip_space, skip_prefix, strtoull,
  parse_hex_addr, is_space, saturate,
}

abbrev IsHex : ℕ → Type 0
IsHex c = (d : ℕ) × (hex_value c ≡ some d)

hex_value-hex_digit : (d : ℕ) → d < 16 → hex_value (hex_digit d) ≡ some d
unfolding hex_digit hex_value
hex_value-hex_digit d h = ground arith

read_digits-concat :
    (acc : ℕ) (s : Str) (c d : ℕ)
    → All IsHex s
    → hex_value c ≡ some d
    → read_digits acc (s ++ c ∷ []) ≡ read_digits acc s * 16 + d
unfolding read_digits
read_digits-concat acc [] c d hs h = rw (h, read_digits)
read_digits-concat acc (x ∷ s) c d ((v, e), hs) h =
    rw (e, read_digits) (read_digits-concat (acc * 16 + v) s c d hs h)

hex_digits-IsHex : (fuel v : ℕ) → All IsHex (hex_digits fuel v)
unfolding hex_digits
hex_digits-IsHex zero v = tt
hex_digits-IsHex (suc fuel) v = elim (Bool-cases (v == 0)) [
  | inl e ↦ rw e tt
  | inr e ↦ rw e (
      All-append IsHex (hex_digits fuel (v / 16)) (hex_digit (v % 16) ∷ [])
        (hex_digits-IsHex fuel (v / 16)) ((v % 16, hex_value-hex_digit (v % 16) (omega arith)), tt))
]

read_digits-hex_digits : (fuel v : ℕ) → v < 16 ^ fuel → read_digits 0 (hex_digits fuel v) ≡ v
unfolding hex_digits
read_digits-hex_digits zero v h = unfold read_digits in omega arith
read_digits-hex_digits (suc fuel) v h = elim (Bool-cases (v == 0)) [
  | inl e ↦ rw e (unfold read_digits in ground arith)
  | inr e ↦ rw e (
      read_digits-concat 0 (hex_digits fuel (v / 16)) (hex_digit (v % 16)) (v % 16)
        (hex_digits-IsHex fuel (v / 16)) (hex_value-hex_digit (v % 16) (omega arith))
      ∙ omega (arith, read_digits-hex_digits fuel (v / 16) (omega (arith, pow-suc 16 fuel))))
]

hex_digits-length : (fuel v : ℕ) → length (hex_digits fuel v) ≤ fuel
unfolding hex_digits
hex_digits-length zero v = omega arith
hex_digits-length (suc fuel) v = elim (Bool-cases (v == 0)) [
  | inl e ↦ rw e (omega arith)
  | inr e ↦ rw e (
      omega (
        arith,
        length-append (hex_digits fuel (v / 16)) (hex_digit (v % 16) ∷ []),
        hex_digits-length fuel (v / 16),
      ))
]

-- The 20 bytes of `buf` hold the text and its terminator, so `snprintf` never truncates it.
pub to_hex-length : (v : ℕ) → length (to_hex v) < 20
unfolding to_hex
to_hex-length v = elim (Bool-cases (v == 0)) [
  | inl e ↦ rw e (omega arith)
  | inr e ↦ rw e (omega (arith, hex_digits-length 16 v))
]

saturate-lt : (v : ℕ) → v < word → saturate false v ≡ v
unfolding saturate
saturate-lt v h = ground arith

IsHex-plain :
    (c d : ℕ)
    → hex_value c ≡ some d
    → (is_space c ≡ false)
      × ((c == b'-') ≡ false)
      × ((c == b'+') ≡ false)
      × ((c == b'x' || c == b'X') ≡ false)
unfolding hex_value is_space
IsHex-plain c d e = ground arith

skip_prefix-IsHex : (s : Str) → All IsHex s → skip_prefix s ≡ s
unfolding skip_prefix
skip_prefix-IsHex [] hs = refl
skip_prefix-IsHex (c ∷ []) hs = refl
skip_prefix-IsHex (c ∷ c' ∷ s) (h, ((d, e), hs)) = ground (arith, IsHex-plain c' d e)

-- `strtoull` finds no space, sign or prefix in front of digits.
strtoull-IsHex : (s : Str) → All IsHex s → read_digits 0 s < word → strtoull s ≡ read_digits 0 s
unfolding strtoull read_digits skip_space
strtoull-IsHex [] hs h = refl
strtoull-IsHex (c ∷ s) ((d, e), hs) h =
    let plain = IsHex-plain c d e in
    rw (plain.0, plain.1, plain.2, skip_prefix-IsHex (c ∷ s) ((d, e), hs))
      (saturate-lt (read_digits 0 (c ∷ s)) h)

strtoull_zero : strtoull (codes "0") ≡ 0
unfolding strtoull skip_space is_space skip_prefix read_digits hex_value saturate
strtoull_zero = refl

pub parse_hex_addr-to_hex : (v : ℕ) → v < word → parse_hex_addr (to_hex v) ≡ v
unfolding parse_hex_addr to_hex
parse_hex_addr-to_hex v h = elim (Bool-cases (v == 0)) [
  | inl e ↦ rw (e, strtoull_zero) (ground arith)
  | inr e ↦
      let back = read_digits-hex_digits 16 v h in
      rw (e, strtoull-IsHex (hex_digits 16 v) (hex_digits-IsHex 16 v) (omega (arith, back))) back
]
