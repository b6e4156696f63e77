-- ===== src/Import/TypeNames/Aliases.antt =====
-- `resolveTypeName` and `canonicalTypeName`: the names that the check-in takes for one type.
use ghidra_svr_bridge.Prelude.{
  false, [], ◌∷◌, Option, none, some, Str, ℤ, ◌≡◌, refl, sym, ap, ◌∙◌, subst, arith, inl, inr,
  Bool-cases, Map, lookup, All, Eq, ◌==◌, nat_eq, str_eq, str_beq,
}
use ghidra_svr_bridge.Names.{
  canonical_type_name, canonical, canonical_step, base_name, strip_loop, strip_round, fold_alias,
}
use ghidra_svr_bridge.Names.Text.{rtrim, rfind, trim, drop_while}
use ghidra_svr_bridge.Import.Api.{BnApi}
use ghidra_svr_bridge.Import.TypeNames.{
  PrimEntry, prims, prim_type, or_hinted, named, array_at, resolve_step, resolve, resolve_type_name,
}

-- What holds of every key of a map holds of a key that is found in it.
lookup-All {ℓ κ μ} :
    {K : Type ℓ} {V : Type κ} ⦃e : Eq K⦄ (P : K → Type μ) (k : K) (v : V) (m : Map K V)
    → All (λ (row : K × V). P row.0) m
    → lookup k m ≡ some v
    → P k
unfolding lookup
lookup-All ⦃e⦄ P k v [] p h = cc
lookup-All ⦃e⦄ P k v ((j, w) ∷ m) p h = elim (Bool-cases (j == k)) [
  | inl q ↦ subst P ((e.same_iff j k).0 q) p.0
  | inr q ↦ lookup-All P k v m p.1 (later q)
]
  where
    later : (j == k) ≡ false → lookup k m ≡ some v
    later q = ground (arith, h, q)

module _ (api : BnApi) (view : api.View) (hint : ℤ) where
  -- The type of a name in the table is that of its canonical spelling there.
  abbrev Folds : Str → Type 0
  Folds s =
      (resolve_type_name api view s hint ≡ named api view s hint)
      × (or_hinted api s hint (lookup s prims)
          ≡ or_hinted api (canonical_type_name s) hint (lookup (canonical_type_name s) prims))

  table-Folds : All (λ (r : Str × PrimEntry). Folds r.0) prims
  unfolding resolve_type_name resolve resolve_step array_at or_hinted prim_type rtrim rfind lookup
      str_beq canonical_type_name canonical canonical_step base_name strip_loop strip_round trim
      drop_while fold_alias
  table-Folds = (
    (refl, refl),
    (
      (refl, refl),
      (
        (refl, refl),
        (
          (refl, refl),
          (
            (refl, refl),
            (
              (refl, refl),
              (
                (refl, refl),
                (
                  (refl, refl),
                  (
                    (refl, refl),
                    (
                      (refl, refl),
                      (
                        (refl, refl),
                        (
                          (refl, refl),
                          (
                            (refl, refl),
                            (
                              (refl, refl),
                              (
                                (refl, refl),
                                (
                                  (refl, refl),
                                  (
                                    (refl, refl),
                                    (
                                      (refl, refl),
                                      (
                                        (refl, refl),
                                        (
                                          (refl, refl),
                                          (
                                            (refl, refl),
                                            (
                                              (refl, refl),
                                              (
                                                (refl, refl),
                                                (
                                                  (refl, refl),
                                                  (
                                                    (refl, refl),
                                                    (
                                                      (refl, refl),
                                                      (
                                                        (refl, refl),
                                                        ((refl, refl), ((refl, refl), tt)),
                                                      ),
                                                    ),
                                                  ),
                                                ),
                                              ),
                                            ),
                                          ),
                                        ),
                                      ),
                                    ),
                                  ),
                                ),
                              ),
                            ),
                          ),
                        ),
                      ),
                    ),
                  ),
                ),
              ),
            ),
          ),
        ),
      ),
    ),
  )

  by_table :
      (a : Str) (p : PrimEntry)
      → lookup a prims ≡ some p
      → api.type_by_name view a ≡ none
      → resolve_type_name api view a hint
        ≡ or_hinted api (canonical_type_name a) hint (lookup (canonical_type_name a) prims)
  unfolding named
  by_table a p e n =
      let row : Folds a = lookup-All Folds a p prims table-Folds e in
      row.0 ∙ (undefined (api.type_by_name view a) n ∙ row.1)
    where
      undefined :
          (o : Option api.handles.TypeRef)
          → o ≡ none
          → elim o [ some t ↦ some t | none ↦ or_hinted api a hint (lookup a prims) ]
            ≡ or_hinted api a hint (lookup a prims)
      undefined none k = refl
      undefined (some t) k = cc

  -- Two names of the table of primitive types that the check-in takes for one type, and that the
  -- view has no type of its own for, are imported as one type.
  pub same_canonical-same_type :
      (a b : Str) (p q : PrimEntry)
      → lookup a prims ≡ some p
      → lookup b prims ≡ some q
      → api.type_by_name view a ≡ none
      → api.type_by_name view b ≡ none
      → canonical_type_name a ≡ canonical_type_name b
      → resolve_type_name api view a hint ≡ resolve_type_name api view b hint
  same_canonical-same_type a b p q e f m n same =
      by_table a p e m
      ∙ (ap (λ s. or_hinted api s hint (lookup s prims)) same ∙ sym (by_table b q f n))
