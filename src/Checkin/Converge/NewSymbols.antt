-- ===== src/Checkin/Converge/NewSymbols.antt =====
-- New symbols: what the loop over them leaves in the baseline.
use ghidra_svr_bridge.Prelude.{
  ℕ, Bool, true, false, ◌||◌, List, [], ◌∷◌, none, some, Str, Map, ◌≡◌, refl, sym, ap, ◌∙◌, inl,
  inr, arith, Bool-cases, Option-cases, ◌==◌, ==-refl, nat_eq, str_eq, nat_beq_iff, fold, All,
  All-mono, subst, lookup, insert, lookup-insert, has, member,
}
use ghidra_svr_bridge.Model.Preview.{NewSymbol}
use ghidra_svr_bridge.Model.Baseline.{CheckinState}
use ghidra_svr_bridge.Model.View.{BnSymbol}
use ghidra_svr_bridge.Collect.Symbols.{new_symbol_of, prepend, new_symbols_from}
use ghidra_svr_bridge.Checkin.Update.{update_new_symbol}

new_symbol_of-fields :
    (s : CheckinState) (y : BnSymbol) (n : NewSymbol)
    → new_symbol_of s y ≡ some n
    → (n.addr ≡ y.address) × (n.name ≡ y.full_name)
unfolding new_symbol_of
new_symbol_of-fields s y n h = (ground arith, ground arith)

-- The test reads the baseline at the symbol's address only.
new_symbol_of-cong :
    (s t : CheckinState) (y : BnSymbol)
    → lookup y.address t.addr_to_original_name ≡ lookup y.address s.addr_to_original_name
    → new_symbol_of s y ≡ none
    → new_symbol_of t y ≡ none
unfolding new_symbol_of
new_symbol_of-cong s t y e h = rw e h

new_symbol_of-recorded :
    (t : CheckinState) (y : BnSymbol)
    → lookup y.address t.addr_to_original_name ≡ some y.full_name
    → new_symbol_of t y ≡ none
unfolding new_symbol_of
new_symbol_of-recorded t y e = rw (e, ==-refl y.full_name) (ground arith)

-- An address outside a list of seen ones, and of no symbol that Ghidra knows.
abbrev IsOpen : CheckinState → List ℕ → ℕ → Type 0
IsOpen s seen a = (has a s.addr_to_key ≡ false) × (member a seen ≡ false)

IsOpen-tail :
    (s : CheckinState) (b : ℕ) (seen : List ℕ) (a : ℕ) → IsOpen s (b ∷ seen) a → IsOpen s seen a
unfolding member
IsOpen-tail s b seen a o = ground arith

IsOpen-ne :
    (s : CheckinState) (b : ℕ) (seen : List ℕ) (a : ℕ) → IsOpen s (b ∷ seen) a → (a == b) ≡ false
unfolding member
IsOpen-ne s b seen a o = ground (arith, nat_beq_iff b a)

-- The test that the loop makes first.
abbrev skipped : CheckinState → List ℕ → BnSymbol → Bool
skipped s seen y = has y.address s.addr_to_key || member y.address seen

not_skipped-IsOpen :
    (s : CheckinState) (seen : List ℕ) (y : BnSymbol)
    → skipped s seen y ≡ false
    → IsOpen s seen y.address
not_skipped-IsOpen s seen y e = (ground arith, ground arith)

IsOpen-prepend :
    (s : CheckinState) (seen : List ℕ) (y : BnSymbol) (ns : List NewSymbol)
    → IsOpen s seen y.address
    → All (λ n. IsOpen s seen n.addr) ns
    → All (λ n. IsOpen s seen n.addr) (prepend (new_symbol_of s y) ns)
IsOpen-prepend s seen y ns o all = elim (Option-cases (new_symbol_of s y)) [
  | inl e ↦ rw (e, prepend) all
  | inr (n, e) ↦
      rw (e, prepend) (subst (IsOpen s seen) (sym (new_symbol_of-fields s y n e).0) o, all)
]

new_symbols_from-IsOpen :
    (s : CheckinState) (seen : List ℕ) (ys : List BnSymbol)
    → All (λ n. IsOpen s seen n.addr) (new_symbols_from s seen ys)
unfolding new_symbols_from
new_symbols_from-IsOpen s seen [] = tt
new_symbols_from-IsOpen s seen (y ∷ ys) = elim (Bool-cases (skipped s seen y)) [
  | inl e ↦ rw e (new_symbols_from-IsOpen s seen ys)
  | inr e ↦ rw e (
      IsOpen-prepend s seen y _ (not_skipped-IsOpen s seen y e) (
        All-mono (λ n. IsOpen-tail s y.address seen n.addr) _
          (new_symbols_from-IsOpen s (y.address ∷ seen) ys)))
]

-- A name that no element of the loop is written for.
pub lookup-update_new_symbol :
    (a : ℕ) (ns : List NewSymbol) (m : Map ℕ Str)
    → All (λ n. (n.addr == a) ≡ false) ns
    → lookup a (fold update_new_symbol m ns) ≡ lookup a m
unfolding update_new_symbol
lookup-update_new_symbol a [] m h = refl
lookup-update_new_symbol a (n ∷ ns) m h =
    lookup-update_new_symbol a ns (insert n.addr n.name m) h.1
    ∙ lookup-insert n.addr a n.name m
    ∙ rw h.0

pub new_symbols-unknown :
    (s : CheckinState) (a : ℕ) (ys : List BnSymbol)
    → has a s.addr_to_key ≡ true
    → All (λ n. (n.addr == a) ≡ false) (new_symbols_from s [] ys)
new_symbols-unknown s a ys known =
    All-mono (λ n o. apart n.addr o.0) _ (new_symbols_from-IsOpen s [] ys)
  where
    apart : (b : ℕ) → has b s.addr_to_key ≡ false → (b == a) ≡ false
    apart b unknown = ground (arith, nat_beq_iff b a)

-- The state behind the loop; only the names matter.
module _ (s t : CheckinState) (keys : t.addr_to_key ≡ s.addr_to_key) where
  -- So far the names of the addresses to come are those of `s`.
  abbrev pub Untouched : List ℕ → Map ℕ Str → Type 0
  Untouched seen m = (a : ℕ) → IsOpen s seen a → lookup a m ≡ lookup a s.addr_to_original_name

  lookup-settled :
      (seen : List ℕ) (a : ℕ) (ys : List BnSymbol) (m : Map ℕ Str)
      → lookup a (fold update_new_symbol m (new_symbols_from s (a ∷ seen) ys)) ≡ lookup a m
  lookup-settled seen a ys m =
      lookup-update_new_symbol a _ m
        (All-mono (λ n. IsOpen-ne s a seen n.addr) _ (new_symbols_from-IsOpen s (a ∷ seen) ys))

  skipped-keys : (seen : List ℕ) (y : BnSymbol) → skipped t seen y ≡ skipped s seen y
  skipped-keys seen y = ap (λ ks. has y.address ks || member y.address seen) keys

  pass_skipped :
      (seen : List ℕ) (y : BnSymbol) (ys : List BnSymbol)
      → skipped s seen y ≡ true
      → new_symbols_from t seen (y ∷ ys) ≡ new_symbols_from t seen ys
  unfolding new_symbols_from
  pass_skipped seen y ys e = rw (skipped-keys seen y ∙ e)

  pass_unchanged :
      (seen : List ℕ) (y : BnSymbol) (ys : List BnSymbol)
      → skipped s seen y ≡ false
      → new_symbol_of t y ≡ none
      → new_symbols_from t seen (y ∷ ys) ≡ new_symbols_from t (y.address ∷ seen) ys
  unfolding new_symbols_from
  pass_unchanged seen y ys e f = rw (skipped-keys seen y ∙ e, f, prepend)

  Untouched-tail :
      (seen : List ℕ) (b : ℕ) (m : Map ℕ Str) → Untouched seen m → Untouched (b ∷ seen) m
  Untouched-tail seen b m u a o = u a (IsOpen-tail s b seen a o)

  Untouched-insert :
      (seen : List ℕ) (n : NewSymbol) (m : Map ℕ Str)
      → Untouched seen m
      → Untouched (n.addr ∷ seen) (update_new_symbol m n)
  unfolding update_new_symbol
  Untouched-insert seen n m u a o =
      lookup-insert n.addr a n.name m
      ∙ rw (ne_sym n.addr a (IsOpen-ne s n.addr seen a o)) (u a (IsOpen-tail s n.addr seen a o))
    where
      ne_sym : (b c : ℕ) → (c == b) ≡ false → (b == c) ≡ false
      ne_sym b c h = ground arith

  lookup-inserted :
      (n : NewSymbol) (m : Map ℕ Str) → lookup n.addr (update_new_symbol m n) ≡ some n.name
  unfolding update_new_symbol
  lookup-inserted n m = lookup-insert n.addr n.addr n.name m ∙ rw (==-refl n.addr)

  -- The loop finds nothing again, whatever addresses it has seen.
  pub settled :
      (ys : List BnSymbol) (seen : List ℕ) (m : Map ℕ Str)
      → Untouched seen m
      → t.addr_to_original_name ≡ fold update_new_symbol m (new_symbols_from s seen ys)
      → new_symbols_from t seen ys ≡ []
  unfolding new_symbols_from
  settled [] seen m u names = refl
  settled (y ∷ ys) seen m u names = elim (Bool-cases (skipped s seen y)) [
    | inl e ↦ pass_skipped seen y ys e ∙ settled ys seen m u (rw e at names)
    | inr e ↦ elim (Option-cases (new_symbol_of s y)) [
      | inl f ↦
          let left = rw (e, f, prepend) at names in
          pass_unchanged seen y ys e (
            new_symbol_of-cong s t y
              (ap (lookup y.address) left
                ∙ lookup-settled seen y.address ys m
                ∙ u y.address (not_skipped-IsOpen s seen y e))
              f)
          ∙ settled ys (y.address ∷ seen) m (Untouched-tail seen y.address m u) left
      | inr (n, f) ↦
          let left = rw (e, f, prepend) at names in
          let (here, name) = new_symbol_of-fields s y n f in
          pass_unchanged seen y ys e (
            new_symbol_of-recorded t y (
              ap (lookup y.address) left
              ∙ lookup-settled seen y.address ys (update_new_symbol m n)
              ∙ rw (← here, ← name) (lookup-inserted n m)))
          ∙ settled ys (y.address ∷ seen) (update_new_symbol m n)
              (subst (λ a. Untouched (a ∷ seen) (update_new_symbol m n)) here
                (Untouched-insert seen n m u))
              left
    ]
  ]
