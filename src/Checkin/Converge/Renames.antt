-- ===== src/Checkin/Converge/Renames.antt =====
-- Renamed symbols: what the loop over the renames leaves in the baseline.
use ghidra_svr_bridge.Prelude.{
  ℕ, true, List, [], ◌∷◌, none, some, Str, ℤ, Map, ◌≡◌, sym, ap, ◌∙◌, ◌⊎◌, inl, inr, arith,
  Bool-cases, Option-cases, ◌==◌, ==-refl, nat_eq, str_eq, str_beq_iff, nat_beq_iff, filter_map,
  fold, In, lookup, lookup-insert, has, get_or, is_some,
}
use ghidra_svr_bridge.Model.Preview.{SymbolRename}
use ghidra_svr_bridge.Model.Baseline.{CheckinState}
use ghidra_svr_bridge.Model.View.{BnSymbol, BnView}
use ghidra_svr_bridge.Collect.Symbols.{original_name, rename_of, collect_renames}
use ghidra_svr_bridge.Checkin.Update.{update_rename}

pub has-In : (m : Map ℕ ℤ) (a : ℕ) (k : ℤ) → In (a, k) m → has a m ≡ true
unfolding lookup
has-In ((b, v) ∷ m) a k (inl e) = ground (arith, nat_beq_iff b a)
has-In ((b, v) ∷ m) a k (inr i) = elim (Bool-cases (b == a)) [
  | inl e ↦ rw e
  | inr e ↦ rw e (has-In m a k i)
]
has-In [] a k i = elim i [ ]

pub rename_of-fields :
    (view : BnView) (s : CheckinState) (a : ℕ) (k : ℤ) (r : SymbolRename)
    → rename_of view s (a, k) ≡ some r
    → (r.addr ≡ a) × (is_some (view.symbol_at a) ≡ true)
unfolding rename_of
rename_of-fields view s a k r h = ground arith

rename_of-name :
    (view : BnView) (s : CheckinState) (a : ℕ) (k : ℤ) (r : SymbolRename) (y : BnSymbol)
    → view.symbol_at a ≡ some y
    → rename_of view s (a, k) ≡ some r
    → r.new_name ≡ y.full_name
unfolding rename_of
rename_of-name view s a k r y e h = ground arith

rename_of-unchanged :
    (view : BnView) (s : CheckinState) (a : ℕ) (k : ℤ) (y : BnSymbol)
    → view.symbol_at a ≡ some y
    → rename_of view s (a, k) ≡ none
    → original_name s a ≡ y.full_name
unfolding rename_of
rename_of-unchanged view s a k y e h = ground (arith, str_beq_iff y.full_name (original_name s a))

pub rename_of-nil :
    (view : BnView) (s : CheckinState) (a : ℕ) (k : ℤ)
    → ((y : BnSymbol) → view.symbol_at a ≡ some y → original_name s a ≡ y.full_name)
    → rename_of view s (a, k) ≡ none
unfolding rename_of
rename_of-nil view s a k h = elim (Option-cases (view.symbol_at a)) [
  | inl e ↦ rw (e, rename_of)
  | inr (y, e) ↦ rw (e, rename_of, h y e, ==-refl y.full_name)
]

pub left_of {ℓ κ} : {P : Type ℓ} {Q : Type κ} → P ⊎ Q → (Q → ⊥) → P
left_of (inl p) no_q = p
left_of (inr q) no_q = absurd (no_q q)

-- One address `a`, with a symbol `y` there.
module _ (view : BnView) (s : CheckinState) (a : ℕ) (y : BnSymbol)
    (at : view.symbol_at a ≡ some y) where
  abbrev pub Holds : Map ℕ Str → Type 0
  Holds m = get_or (lookup a m) [] ≡ y.full_name

  rename-Holds :
      (m : Map ℕ Str) (b : ℕ) (k : ℤ) (r : SymbolRename)
      → rename_of view s (b, k) ≡ some r
      → Holds m ⊎ (b ≡ a)
      → Holds (update_rename m r)
  unfolding update_rename
  rename-Holds m b k r h p = elim (Bool-cases (r.addr == a)) [
    | inl e ↦
        let here : b ≡ a = sym (rename_of-fields view s b k r h).0 ∙ (nat_beq_iff r.addr a).0 e in
        rw (lookup-insert r.addr a r.new_name m, e)
          (rename_of-name view s b k r y (ap view.symbol_at here ∙ at) h)
    | inr e ↦
        rw (lookup-insert r.addr a r.new_name m, e)
          (left_of p
            (λ here. cc (e, (nat_beq_iff r.addr a).1 ((rename_of-fields view s b k r h).0 ∙ here))))
  ]

  -- `a` is still to be renamed, by a later element.
  abbrev Pending : List (ℕ × ℤ) → Type 0
  Pending es = (k : ℤ) × In (a, k) es × (is_some (rename_of view s (a, k)) ≡ true)

  Pending-none :
      (m : Map ℕ Str) (b : ℕ) (k : ℤ) (es : List (ℕ × ℤ))
      → rename_of view s (b, k) ≡ none
      → Holds m ⊎ Pending ((b, k) ∷ es)
      → Holds m ⊎ Pending es
  Pending-none m b k es e (inl h) = inl h
  Pending-none m b k es e (inr (k', inl q, h)) = absurd (cc (e, ap (rename_of view s) q, h))
  Pending-none m b k es e (inr (k', inr i, h)) = inr (k', i, h)

  Pending-some :
      (m : Map ℕ Str) (b : ℕ) (k : ℤ) (es : List (ℕ × ℤ)) (r : SymbolRename)
      → rename_of view s (b, k) ≡ some r
      → Holds m ⊎ Pending ((b, k) ∷ es)
      → Holds (update_rename m r) ⊎ Pending es
  Pending-some m b k es r e (inl h) = inl (rename-Holds m b k r e (inl h))
  Pending-some m b k es r e (inr (k', inl q, h)) =
      inl (rename-Holds m b k r e (inr (ap (λ (x : ℕ × ℤ). x.0) q)))
  Pending-some m b k es r e (inr (k', inr i, h)) = inr (k', i, h)

  renames-Holds :
      (es : List (ℕ × ℤ)) (m : Map ℕ Str)
      → Holds m ⊎ Pending es
      → Holds (fold update_rename m (filter_map (rename_of view s) es))
  renames-Holds [] m (inl h) = h
  renames-Holds [] m (inr (k, i, h)) = elim i [ ]
  renames-Holds ((b, k) ∷ es) m p = elim (Option-cases (rename_of view s (b, k))) [
    | inl e ↦ rw (e, filter_map) (renames-Holds es m (Pending-none m b k es e p))
    | inr (r, e) ↦
        rw (e, filter_map) (renames-Holds es (update_rename m r) (Pending-some m b k es r e p))
  ]

  -- Behind the loop over the renames the baseline has the name that the view shows.
  pub renamed-Holds :
      (k : ℤ)
      → In (a, k) s.addr_to_key
      → Holds (fold update_rename s.addr_to_original_name (collect_renames view s))
  unfolding collect_renames
  renamed-Holds k i =
      renames-Holds s.addr_to_key s.addr_to_original_name
        (elim (Option-cases (rename_of view s (a, k))) [
          | inl e ↦ inl (rename_of-unchanged view s a k y at e)
          | inr (r, e) ↦ inr (k, i, ap is_some e)
        ])
