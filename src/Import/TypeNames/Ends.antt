-- ===== src/Import/TypeNames/Ends.antt =====
-- What `resolveTypeName` finds at the end of a name: blanks, brackets and a count.
use ghidra_svr_bridge.Prelude.{
  ℕ, zero, suc, ◌-◌, ◌^◌, ◌<◌, true, false, ◌&&◌, [], ◌∷◌, ◌++◌, none, some, Str, ◌≡◌, refl, ap,
  arith, length, is_empty, take, drop, nat_eq, decimal_prefix, length-append, Bool, if◌then◌else◌,
}
use ghidra_svr_bridge.Hex.{skip_space, is_space}
use ghidra_svr_bridge.Names.Text.{rtrim, rfind, is_blank}
use ghidra_svr_bridge.Names.Digits.{IsNumeral, is_empty-append}
use ghidra_svr_bridge.Import.TypeNames.{stoull, signed, unsigned}

unfoldable pub blanks : ℕ → Str
blanks zero = []
blanks (suc n) = b' ' ∷ blanks n

rtrim-blanks : (n : ℕ) → rtrim (blanks n) ≡ []
unfolding rtrim blanks
rtrim-blanks zero = refl
rtrim-blanks (suc n) = rw (rtrim-blanks n) refl

pub rtrim-padded : (s : Str) (n : ℕ) → rtrim (s ++ blanks n) ≡ rtrim s
unfolding rtrim
rtrim-padded [] n = rtrim-blanks n
rtrim-padded (c ∷ s) n = rw (rtrim-padded s n) refl

pub rtrim-end : (s : Str) (c : ℕ) → is_blank c ≡ false → rtrim (s ++ c ∷ []) ≡ s ++ c ∷ []
unfolding rtrim
rtrim-end [] c h = rw h refl
rtrim-end (d ∷ s) c h = rw (rtrim-end s c h, is_empty-append s [] c) (kept (is_blank d))
  where
    kept : (b : Bool) → (if b && false then [] else d ∷ (s ++ c ∷ [])) ≡ d ∷ (s ++ c ∷ [])
    kept true = refl
    kept false = refl

pub rfind-last : (c : ℕ) (s t : Str) → rfind c t ≡ none → rfind c (s ++ c ∷ t) ≡ some (length s)
unfolding rfind
rfind-last c [] t h = ground (arith, h)
rfind-last c (d ∷ s) t h = rw (rfind-last c s t h) refl

-- There is no bracket in what follows one.
pub rfind-numeral : (s : Str) → IsNumeral s → rfind b'[' (s ++ b']' ∷ []) ≡ none
unfolding rfind
rfind-numeral [] d = refl
rfind-numeral (c ∷ s) d = rw (rfind-numeral s d.1) (ground (arith, d.0))

pub take-front : (s t : Str) → take (length s) (s ++ t) ≡ s
take-front [] t = refl
take-front (c ∷ s) t = ap (◌∷◌ c) (take-front s t)

pub drop-front : (s t : Str) (c : ℕ) → drop (suc (length s)) (s ++ c ∷ t) ≡ t
drop-front [] t c = refl
drop-front (d ∷ s) t c = drop-front s t c

pub length-array : (s d : Str) → length (s ++ b'[' ∷ (d ++ b']' ∷ [])) - length s - 2 ≡ length d
length-array s d =
    omega (arith, length-append s (b'[' ∷ (d ++ b']' ∷ [])), length-append d (b']' ∷ []))

pub stoull-numeral :
    (n : ℕ) (s : Str)
    → IsNumeral s
    → is_empty s ≡ false
    → decimal_prefix 0 s ≡ n
    → n < 2 ^ 64
    → stoull s ≡ some n
unfolding stoull signed unsigned skip_space is_space
stoull-numeral n [] d e v h = ground (arith, e)
stoull-numeral n (c ∷ s) d e v h = ground (arith, d.0, v, h)
