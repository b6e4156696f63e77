-- ===== src/Import/Kept/Duplicates.antt =====
-- `applyToView` and two symbols of an export at one address.
use ghidra_svr_bridge.Prelude.{
  ℕ, Bool, true, false, not, ◌&&◌, ◌||◌, List, [], ◌∷◌, ◌++◌, Option, none, some, ◌≡◌, ◌≢◌, refl,
  sym, subst, arith, inl, inr, Bool-cases, is_empty, is_some, nat_eq, str_eq, Str, fold,
  fold-append, All,
}
use ghidra_svr_bridge.Address.{apply_rebase, rebase_of}
use ghidra_svr_bridge.Names.{is_auto_gen_name}
use ghidra_svr_bridge.Model.Export.{GhidraSymbol, GhidraDbExport}
use ghidra_svr_bridge.Import.Api.{BnApi, Edit, define_user_symbol}
use ghidra_svr_bridge.Import.Progress.{Progress, function_starting}
use ghidra_svr_bridge.Import.Blocks.{apply_block}
use ghidra_svr_bridge.Import.Symbols.{
  is_function, apply_name, bn_type, define_name, create_function, apply_symbol,
}
use ghidra_svr_bridge.Import.Apply.{begun, apply_symbols, apply_export}
use ghidra_svr_bridge.Import.Stable.{after_each, block-keeps}
use ghidra_svr_bridge.Import.Steps.{create-keeps, symbol-keeps, behind_symbols}
use ghidra_svr_bridge.Import.Kept.Names.{is_naming, NameLaws, IsChosen, edits-Named, quiet-naming}

-- The import may write over the name that an address has, if it has one: it is empty, or of a form
-- that the import's `isAutoGenName` takes for an analysis's, one of five prefixes and hexadecimal
-- digits. The names that an analysis gives to thunks (`j_` and the target's name) and to data
-- (`data_`) are of no such form, and are not free.
unfoldable pub is_free : Option Str → Bool
is_free none = true
is_free (some n) = is_empty n || is_auto_gen_name n

-- At an address, the calls of the API that name no symbol leave a free name free, as they do where
-- the analysis that they set off finds no thunk there and no data to name.
abbrev pub LeavesFree : BnApi → ℕ → Type 0
LeavesFree api a =
    (e : Edit api.handles) (v : api.View)
    → is_naming e ≡ false
    → is_free (api.symbol_name_at v a) ≡ true
    → is_free (api.symbol_name_at (api.perform e v) a) ≡ true

free-apply_name : (o : Option Str) (name : Str) → is_free o ≡ true → apply_name o name ≡ true
unfolding is_free apply_name
free-apply_name none name h = refl
free-apply_name (some n) name h = ground (arith, h)

module _ (api : BnApi) (laws : NameLaws api) (a : ℕ) (leaves : LeavesFree api a) where
  abbrev Free : api.View → Type 0
  Free v = is_free (api.symbol_name_at v a) ≡ true

  define-Free :
      (addr : ℕ) (x : GhidraSymbol) (v : api.View)
      → addr ≢ a
      → Free v
      → Free (define_name api addr x v)
  unfolding define_name
  define-Free addr x v n h = elim (Bool-cases (apply_name (api.symbol_name_at v addr) x.name)) [
    | inl e ↦
        rw e (subst (λ o. is_free o ≡ true) (sym (laws.elsewhere (bn_type x) x.name addr a v n)) h)
    | inr e ↦ rw e h
  ]

  create-Free :
      (o : Option api.handles.Platform) (addr : ℕ) (x : GhidraSymbol) (q : Progress api.View)
      → Free q.view
      → Free (create_function api o addr x q).view
  unfolding create_function is_naming
  create-Free none addr x q h = h
  create-Free (some plat) addr x q h =
      elim (Bool-cases (is_function x && not (is_some (function_starting api q.view addr)))) [
        | inl e ↦ rw e (leaves _ q.view refl h)
        | inr e ↦ rw e h
      ]

  -- A symbol of another address leaves the address free.
  other-Free :
      (plat : Option api.handles.Platform) (rebase : ℕ) (x : GhidraSymbol) (p : Progress api.View)
      → apply_rebase rebase x.addr ≢ a
      → Free p.view
      → Free (apply_symbol api plat rebase p x).view
  unfolding apply_symbol
  other-Free plat rebase x p n h =
      let addr = apply_rebase rebase x.addr in
      create-Free plat addr x _ (define-Free addr x p.view n h)

  front-Free :
      (plat : Option api.handles.Platform) (rebase : ℕ) (xs : List GhidraSymbol)
      (p : Progress api.View)
      → All (λ x. apply_rebase rebase x.addr ≢ a) xs
      → Free p.view
      → Free (fold (apply_symbol api plat rebase) p xs).view
  front-Free plat rebase [] p n h = h
  front-Free plat rebase (x ∷ xs) p n h =
      front-Free plat rebase xs _ n.1 (other-Free plat rebase x p n.0 h)

  define-first :
      (k : ℕ) (y : GhidraSymbol) (v : api.View)
      → k ≡ a
      → Free v
      → api.symbol_name_at (define_name api k y v) a ≡ some y.name
  unfolding define_name
  define-first k y v q h =
      rw
        (free-apply_name (api.symbol_name_at v k) y.name
          (subst (λ b. is_free (api.symbol_name_at v b) ≡ true) (sym q) h))
        (subst
          (λ b.
            api.symbol_name_at (api.perform (define_user_symbol (bn_type y) y.name k) v) b
            ≡ some y.name)
          q (laws.defined (bn_type y) y.name k v))

  -- The first symbol of the address names it.
  first-Named :
      (plat : Option api.handles.Platform) (rebase : ℕ) (y : GhidraSymbol) (p : Progress api.View)
      → IsChosen y.name
      → apply_rebase rebase y.addr ≡ a
      → Free p.view
      → api.symbol_name_at (apply_symbol api plat rebase p y).view a ≡ some y.name
  unfolding apply_symbol
  first-Named plat rebase y p c e h =
      create-keeps api (λ v. api.symbol_name_at v a ≡ some y.name) (edits-Named api laws a y.name c)
        plat (apply_rebase rebase y.addr) y _
        (define-first (apply_rebase rebase y.addr) y p.view e h)

  blocks-Free :
      (rebase : ℕ) (view : api.View) (e : GhidraDbExport)
      → Free view
      → Free (fold (apply_block api rebase) (begun api view e) e.memory_blocks).view
  blocks-Free rebase view e h =
      after_each (λ (p : Progress api.View). Free p.view) (apply_block api rebase)
        (block-keeps api Free (λ d q v k. leaves d v (quiet-naming d q) k) rebase) _ e.memory_blocks
        h

-- Where the API names symbols as documented, the name of an address in a view is absent, empty or of
-- a form that the import's test takes for an analysis's, and the API's other calls leave it so: the address has, behind an import, the name of the export's first symbol there, if that
-- name is not empty and of none of those forms.
pub first_symbol-named :
    (api : BnApi) (laws : NameLaws api) (view : api.View) (e : GhidraDbExport)
    (front rest : List GhidraSymbol) (y : GhidraSymbol)
    (leaves : LeavesFree api (apply_rebase (rebase_of (api.start view) e.image_base) y.addr))
    → e.symbols ≡ front ++ y ∷ rest
    → All
        (λ x.
          apply_rebase (rebase_of (api.start view) e.image_base) x.addr
          ≢ apply_rebase (rebase_of (api.start view) e.image_base) y.addr)
        front
    → is_free
        (api.symbol_name_at view (apply_rebase (rebase_of (api.start view) e.image_base) y.addr))
      ≡ true
    → IsChosen y.name
    → api.symbol_name_at
        (apply_export api view e).0
        (apply_rebase (rebase_of (api.start view) e.image_base) y.addr)
      ≡ some y.name
unfolding apply_symbols
first_symbol-named api laws view e front rest y leaves s n h c =
    let rebase = rebase_of (api.start view) e.image_base in
    let plat = api.default_platform view in
    let a = apply_rebase rebase y.addr in
    let blocks = fold (apply_block api rebase) (begun api view e) e.memory_blocks in
    let P : api.View → Type 0 = λ v. api.symbol_name_at v a ≡ some y.name in
    let edits = edits-Named api laws a y.name c in
    behind_symbols api P edits view e (
      subst (λ ys. P (fold (apply_symbol api plat rebase) blocks ys).view) (sym s)
        (subst (λ (p : Progress api.View). P p.view)
          (sym (fold-append (apply_symbol api plat rebase) blocks front (y ∷ rest)))
          (after_each (λ (p : Progress api.View). P p.view) (apply_symbol api plat rebase)
            (symbol-keeps api P edits plat rebase) _ rest
            (first-Named api laws a leaves plat rebase y _ c refl (
              front-Free api laws a leaves plat rebase front blocks n
                (blocks-Free api laws a leaves rebase view e h))))))
