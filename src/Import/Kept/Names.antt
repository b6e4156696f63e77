-- ===== src/Import/Kept/Names.antt =====
-- `applyToView` and the names that a view has already.
use ghidra_svr_bridge.Prelude.{
  ℕ, Bool, true, false, some, ◌≡◌, ◌≢◌, refl, sym, ap, subst, ◌∙◌, arith, inl, inr, Bool-cases,
  is_empty, nat_eq, str_eq, ◌==◌, Str,
}
use ghidra_svr_bridge.Names.{is_auto_gen_name}
use ghidra_svr_bridge.Model.Export.{GhidraSymbol, GhidraDbExport}
use ghidra_svr_bridge.Model.View.{BnSymbolType}
use ghidra_svr_bridge.Import.Api.{BnApi, BnHandles, Edit, define_user_symbol}
use ghidra_svr_bridge.Import.Symbols.{apply_name, bn_type}
use ghidra_svr_bridge.Import.Apply.{apply_export}
use ghidra_svr_bridge.Import.Stable.{is_quiet}
use ghidra_svr_bridge.Import.Steps.{KeepsEdits, export-keeps}

unfoldable pub is_naming : {h : BnHandles} → Edit h → Bool
is_naming (define_user_symbol _ _ _) = true
is_naming _ = false

-- The names of symbols: one is as it was defined, and no other call changes one that is not empty.
pub record NameLaws (api : BnApi) : Type 0 where
  pub defined :
      (t : BnSymbolType) (n : Str) (a : ℕ) (v : api.View)
      → api.symbol_name_at (api.perform (define_user_symbol t n a) v) a ≡ some n
  pub elsewhere :
      (t : BnSymbolType) (n : Str) (a b : ℕ) (v : api.View)
      → a ≢ b
      → api.symbol_name_at (api.perform (define_user_symbol t n a) v) b ≡ api.symbol_name_at v b
  pub untouched :
      (e : Edit api.handles) (a : ℕ) (n : Str) (v : api.View)
      → is_naming e ≡ false
      → is_empty n ≡ false
      → api.symbol_name_at v a ≡ some n
      → api.symbol_name_at (api.perform e v) a ≡ some n

-- A name that someone chose.
pub record IsChosen (n : Str) : Type 0 where
  pub filled : is_empty n ≡ false
  pub not_made_up : is_auto_gen_name n ≡ false

pub quiet-naming : {h : BnHandles} (e : Edit h) → is_quiet e ≡ true → is_naming e ≡ false
unfolding is_quiet is_naming
quiet-naming (define_user_symbol _ _ _) q = cc
quiet-naming _ q = refl

-- Over a chosen name only the same name is applied.
apply_name-same : (n name : Str) → IsChosen n → apply_name (some n) name ≡ true → n ≡ name
unfolding apply_name
apply_name-same n name h e = ground (arith, str_eq.same_iff n name, h.filled, h.not_made_up, e)

module _ (api : BnApi) (laws : NameLaws api) (a : ℕ) (n : Str) (chosen : IsChosen n) where
  abbrev Named : api.View → Type 0
  Named v = api.symbol_name_at v a ≡ some n

  other-Named :
      (e : Edit api.handles) (v : api.View)
      → is_naming e ≡ false
      → Named v
      → Named (api.perform e v)
  other-Named e v q h = laws.untouched e a n v q chosen.filled h

  defined-Named :
      (addr : ℕ) (y : GhidraSymbol) (v : api.View)
      → apply_name (api.symbol_name_at v addr) y.name ≡ true
      → Named v
      → Named (api.perform (define_user_symbol (bn_type y) y.name addr) v)
  defined-Named addr y v w h = elim (Bool-cases (addr == a)) [
    | inl e ↦
        let same : addr ≡ a = (nat_eq.same_iff addr a).0 e in
        let named : n ≡ y.name =
          apply_name-same n y.name chosen
            (subst (λ o. apply_name o y.name ≡ true) (ap (api.symbol_name_at v) same ∙ h) w) in
        subst
          (λ k.
            api.symbol_name_at (api.perform (define_user_symbol (bn_type y) y.name k) v) a ≡ some n)
          (sym same) (laws.defined (bn_type y) y.name a v ∙ ap some (sym named))
    | inr e ↦
        laws.elsewhere (bn_type y) y.name addr a v
          (λ s. ground (arith, e, s, nat_eq.same_iff addr a))
        ∙ h
  ]

  pub edits-Named : KeepsEdits api Named
  unfolding is_naming
  edits-Named = record {
    quiet = λ e q v h. other-Named e v (quiet-naming e q) h;
    naming = λ addr y v w h. defined-Named addr y v w h;
    making = λ plat addr v h. other-Named _ v refl h;
    writing = λ caddr text v w h. other-Named _ v refl h;
  }

-- Where the API's calls name symbols as documented, a name that someone chose is the same behind an
-- import of any export: an analysis did not make it up, and it is not empty.
pub names-kept :
    (api : BnApi) (laws : NameLaws api) (view : api.View) (e : GhidraDbExport) (a : ℕ) (n : Str)
    → IsChosen n
    → api.symbol_name_at view a ≡ some n
    → api.symbol_name_at (apply_export api view e).0 a ≡ some n
names-kept api laws view e a n chosen h =
    export-keeps api (λ v. api.symbol_name_at v a ≡ some n) (edits-Named api laws a n chosen) view e
      h
