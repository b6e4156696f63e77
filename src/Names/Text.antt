-- ===== src/Names/Text.antt =====
-- The operations of `std::string` that the tests on names make.
use ghidra_svr_bridge.Prelude.{
  ℕ, suc, ◌≤◌, ◌≡◌, refl, Bool, true, false, ◌&&◌, ◌||◌, [], ◌∷◌, ◌++◌, Option, none, some, Str,
  ◌==◌, nat_eq, if◌then◌else◌, length, is_empty, arith,
}

-- `s.rfind(p, 0) == 0`
abbrev pub starts_with : Str → Str → Bool
starts_with [] s = true
starts_with (c ∷ p) [] = false
starts_with (c ∷ p) (d ∷ s) = c == d && starts_with p s

-- `s.rfind(c)`, `s.find_last_of(c)`
unfoldable pub rfind : ℕ → Str → Option ℕ
rfind c [] = none
rfind c (d ∷ s) = elim (rfind c s) [
  | some i ↦ some (suc i)
  | none ↦ if d == c then some 0 else none
]

abbrev pub shift : Option ℕ → Option ℕ
shift none = none
shift (some i) = some (suc i)

-- `s.find(c)`
unfoldable pub find_char : ℕ → Str → Option ℕ
find_char c [] = none
find_char c (d ∷ s) = if d == c then some 0 else shift (find_char c s)

-- `s.back()` of a text that is not empty.
abbrev pub back : Str → ℕ
back [] = 0
back (c ∷ []) = c
back (c ∷ d ∷ s) = back (d ∷ s)

-- `s.pop_back()`
abbrev pub pop_back : Str → Str
pop_back [] = []
pop_back (c ∷ []) = []
pop_back (c ∷ d ∷ s) = c ∷ pop_back (d ∷ s)

unfoldable pub drop_while : (ℕ → Bool) → Str → Str
drop_while p [] = []
drop_while p (c ∷ s) = if p c then drop_while p s else c ∷ s

abbrev pub is_blank : ℕ → Bool
is_blank c = c == b' ' || c == b'\t'

-- `rtrim`, and the right half of a trim.
unfoldable pub rtrim : Str → Str
rtrim [] = []
rtrim (c ∷ s) = let rest = rtrim s in if is_blank c && is_empty rest then [] else c ∷ rest

unfoldable pub trim : Str → Str
trim s = rtrim (drop_while is_blank s)

pub back-concat : (s : Str) (c : ℕ) → back (s ++ c ∷ []) ≡ c
back-concat [] c = refl
back-concat (d ∷ []) c = refl
back-concat (d ∷ e ∷ s) c = back-concat (e ∷ s) c

pub pop_back-concat : (s : Str) (c : ℕ) → pop_back (s ++ c ∷ []) ≡ s
pop_back-concat [] c = refl
pop_back-concat (d ∷ []) c = refl
pop_back-concat (d ∷ e ∷ s) c = λ i. d ∷ pop_back-concat (e ∷ s) c i

pub length-rtrim : (s : Str) → length (rtrim s) ≤ length s
unfolding rtrim
length-rtrim [] = omega arith
length-rtrim (c ∷ s) = ground (arith, length-rtrim s)

pub length-drop_while : (p : ℕ → Bool) (s : Str) → length (drop_while p s) ≤ length s
unfolding drop_while
length-drop_while p [] = omega arith
length-drop_while p (c ∷ s) = ground (arith, length-drop_while p s)
