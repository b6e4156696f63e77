-- ===== src/Import/Kept/Functions.antt =====
-- `applyToView` and the functions of Ghidra that the view lacks.
use ghidra_svr_bridge.Prelude.{
  ℕ, true, List, [], ◌∷◌, some, ◌≡◌, refl, sym, ap, subst, ◌∙◌, inl, inr, Bool-cases, is_some,
  nat_eq, int_eq, fold, In,
}
use ghidra_svr_bridge.Address.{apply_rebase, rebase_of}
use ghidra_svr_bridge.Model.Export.{GhidraSymbol, GhidraDbExport}
use ghidra_svr_bridge.Import.Api.{BnApi, Edit, create_user_function}
use ghidra_svr_bridge.Import.Progress.{Progress, function_starting}
use ghidra_svr_bridge.Import.Symbols.{is_function, define_name, create_function, apply_symbol}
use ghidra_svr_bridge.Import.Apply.{apply_symbols, apply_export}
use ghidra_svr_bridge.Import.Stable.{after_each}
use ghidra_svr_bridge.Import.Steps.{KeepsEdits, symbol-keeps, behind_symbols}

-- The functions of a view: one starts where it was made, and no call takes one away.
pub record FunctionLaws (api : BnApi) : Type 0 where
  pub made :
      (plat : api.handles.Platform) (a : ℕ) (v : api.View)
      → is_some (function_starting api (api.perform (create_user_function plat a) v) a) ≡ true
  pub kept :
      (e : Edit api.handles) (a : ℕ) (v : api.View)
      → is_some (function_starting api v a) ≡ true
      → is_some (function_starting api (api.perform e v) a) ≡ true

module _ (api : BnApi) (laws : FunctionLaws api) (a : ℕ) where
  abbrev Starts : api.View → Type 0
  Starts v = is_some (function_starting api v a) ≡ true

  edits-Starts : KeepsEdits api Starts
  edits-Starts = record {
    quiet = λ e q v h. laws.kept e a v h;
    naming = λ addr y v w h. laws.kept _ a v h;
    making = λ plat addr v h. laws.kept _ a v h;
    writing = λ caddr text v w h. laws.kept _ a v h;
  }

  -- The body of the loop, for a function's symbol.
  create-Starts :
      (plat : api.handles.Platform) (y : GhidraSymbol) (p : Progress api.View)
      → is_function y ≡ true
      → Starts (create_function api (some plat) a y p).view
  unfolding create_function
  create-Starts plat y p f = elim (Bool-cases (is_some (function_starting api p.view a))) [
    | inl e ↦ rw (f, e) e
    | inr e ↦ rw (f, e) (laws.made plat a p.view)
  ]

  loop-Starts :
      (plat : api.handles.Platform) (rebase : ℕ) (y : GhidraSymbol) (ys : List GhidraSymbol)
      (p : Progress api.View)
      → In y ys
      → is_function y ≡ true
      → apply_rebase rebase y.addr ≡ a
      → Starts (fold (apply_symbol api (some plat) rebase) p ys).view
  unfolding apply_symbol
  loop-Starts plat rebase y [] p i f e = elim i [ ]
  loop-Starts plat rebase y (x ∷ xs) p (inr i) f e = loop-Starts plat rebase y xs _ i f e
  loop-Starts plat rebase y (x ∷ xs) p (inl i) f e =
      after_each (λ (q : Progress api.View). Starts q.view) (apply_symbol api (some plat) rebase)
        (symbol-keeps api Starts edits-Starts (some plat) rebase) _ xs
        (subst
          (λ k.
            Starts
              (create_function api (some plat) k x
                (record p { view = define_name api k x p.view })).view)
          (sym (ap (λ (z : GhidraSymbol). apply_rebase rebase z.addr) i ∙ e))
          (create-Starts plat x _ (ap (λ (z : GhidraSymbol). is_function z) i ∙ f)))

-- Where the API makes functions as documented, and the view has a default platform, a function of
-- the view starts at the address of every function's symbol of the export behind an import.
pub functions-made :
    (api : BnApi) (laws : FunctionLaws api) (view : api.View) (e : GhidraDbExport)
    (plat : api.handles.Platform) (y : GhidraSymbol)
    → api.default_platform view ≡ some plat
    → In y e.symbols
    → is_function y ≡ true
    → is_some (
        function_starting api
          (apply_export api view e).0
          (apply_rebase (rebase_of (api.start view) e.image_base) y.addr))
      ≡ true
unfolding apply_symbols
functions-made api laws view e plat y d i f =
    let rebase = rebase_of (api.start view) e.image_base in
    let a = apply_rebase rebase y.addr in
    behind_symbols api (Starts api laws a) (edits-Starts api laws a) view e
      (rw d (loop-Starts api laws a plat rebase y e.symbols _ i f refl))
