-- ===== src/Import/Steps.antt =====
-- What an import as a whole keeps of a view: a property that the quiet calls keep, and the calls
-- that name a symbol, make a function or write a comment where the import makes them.
use ghidra_svr_bridge.Prelude.{
  ℕ, true, not, ◌&&◌, Option, none, some, ◌≡◌, refl, inl, inr, Bool-cases, Option-cases, is_empty,
  is_some, nat_eq, int_eq, str_eq, fold, Str,
}
use ghidra_svr_bridge.Address.{apply_rebase, rebase_of}
use ghidra_svr_bridge.Model.Export.{GhidraSymbol, GhidraComment, GhidraDbExport}
use ghidra_svr_bridge.Sync.Comments.{Merged, merge_parts}
use ghidra_svr_bridge.Import.Api.{
  BnApi, Edit, define_user_symbol, create_user_function, set_comment_for_address,
}
use ghidra_svr_bridge.Import.Progress.{Progress, function_starting}
use ghidra_svr_bridge.Import.Symbols.{
  is_function, apply_name, bn_type, define_name, create_function, apply_symbol,
}
use ghidra_svr_bridge.Import.Blocks.{apply_block}
use ghidra_svr_bridge.Import.Comments.{
  may_write, apply_text, apply_plate_to, apply_plate, apply_comment,
}
use ghidra_svr_bridge.Import.Marks.{FlagTags, no_tags, apply_flags}
use ghidra_svr_bridge.Import.Apply.{begun, apply_symbols, apply_names, apply_export}
use ghidra_svr_bridge.Import.Stable.{is_quiet, after_each, block-keeps, flags-keeps, types-keeps}

module _ (api : BnApi) (P : api.View → Type 0) where
  -- The calls that are not quiet, where the import makes them.
  pub record KeepsEdits : Type 0 where
    pub quiet :
        (e : Edit api.handles) → is_quiet e ≡ true → (v : api.View) → P v → P (api.perform e v)
    pub naming :
        (addr : ℕ) (y : GhidraSymbol) (v : api.View)
        → apply_name (api.symbol_name_at v addr) y.name ≡ true
        → P v
        → P (api.perform (define_user_symbol (bn_type y) y.name addr) v)
    pub making :
        (plat : api.handles.Platform) (addr : ℕ) (v : api.View)
        → P v
        → P (api.perform (create_user_function plat addr) v)
    pub writing :
        (caddr : ℕ) (text : Str) (v : api.View)
        → may_write (api.comment_at v caddr) text ≡ true
        → P v
        → P (api.perform (set_comment_for_address caddr text) v)

module _ (api : BnApi) (P : api.View → Type 0) (keeps : KeepsEdits api P) where
  pub name-keeps : (addr : ℕ) (y : GhidraSymbol) (v : api.View) → P v → P (define_name api addr y v)
  unfolding define_name
  name-keeps addr y v h = elim (Bool-cases (apply_name (api.symbol_name_at v addr) y.name)) [
    | inl e ↦ rw e (keeps.naming addr y v e h)
    | inr e ↦ rw e h
  ]

  pub create-keeps :
      (plat : Option api.handles.Platform) (addr : ℕ) (y : GhidraSymbol) (p : Progress api.View)
      → P p.view
      → P (create_function api plat addr y p).view
  unfolding create_function
  create-keeps none addr y p h = h
  create-keeps (some plat) addr y p h =
      elim (Bool-cases (is_function y && not (is_some (function_starting api p.view addr)))) [
        | inl e ↦ rw e (keeps.making plat addr p.view h)
        | inr e ↦ rw e h
      ]

  pub symbol-keeps :
      (plat : Option api.handles.Platform) (rebase : ℕ) (p : Progress api.View) (y : GhidraSymbol)
      → P p.view
      → P (apply_symbol api plat rebase p y).view
  unfolding apply_symbol
  symbol-keeps plat rebase p y h =
      let addr = apply_rebase rebase y.addr in
      create-keeps plat addr y _ (name-keeps addr y p.view h)

  text-keeps :
      (caddr : ℕ) (m : Merged) (p : Progress api.View)
      → P p.view
      → P (apply_text api caddr m p).view
  unfolding apply_text
  text-keeps caddr m p h = elim (Bool-cases (is_empty m.text)) [
    | inl e ↦ rw e h
    | inr e ↦ elim (Bool-cases (may_write (api.comment_at p.view caddr) m.text)) [
      | inl w ↦ rw (e, w) (keeps.writing caddr m.text p.view w h)
      | inr w ↦ rw (e, w) h
    ]
  ]

  plate-keeps :
      (caddr : ℕ) (m : GhidraComment) (p : Progress api.View)
      → P p.view
      → P (apply_plate api caddr m p).view
  unfolding apply_plate apply_plate_to is_quiet
  plate-keeps caddr m p h = elim (Bool-cases (is_empty m.plate)) [
    | inl e ↦ rw e h
    | inr e ↦ elim (Option-cases (function_starting api p.view caddr)) [
      | inl k ↦ rw (e, k) h
      | inr (f, k) ↦ elim (Bool-cases (may_write (api.function_comment p.view f) m.plate)) [
        | inl w ↦ rw (e, k, w) (keeps.quiet _ refl p.view h)
        | inr w ↦ rw (e, k, w) h
      ]
    ]
  ]

  pub comment-keeps :
      (rebase : ℕ) (p : Progress api.View) (m : GhidraComment)
      → P p.view
      → P (apply_comment api rebase p m).view
  unfolding apply_comment
  comment-keeps rebase p m h =
      let caddr = apply_rebase rebase m.addr in
      plate-keeps caddr m _ (text-keeps caddr (merge_parts m) _ h)

  -- The loops behind the one over the symbols.
  pub rest-keeps :
      (rebase : ℕ) (p : Progress api.View) (e : GhidraDbExport)
      → P p.view
      → P
          (fold
            (apply_flags api)
            (fold (apply_comment api rebase) p e.comments, no_tags api.handles.TagType)
            e.func_flags).0.view
  rest-keeps rebase p e h =
      after_each (λ (s : Progress api.View × FlagTags api.handles.TagType). P s.0.view)
        (apply_flags api) (flags-keeps api P keeps.quiet) _ e.func_flags
        (after_each (λ (q : Progress api.View). P q.view) (apply_comment api rebase)
          (comment-keeps rebase) p e.comments h)

  -- The import as a whole, where the loop over the symbols leaves the property.
  pub behind_symbols :
      (view : api.View) (e : GhidraDbExport)
      → P (apply_symbols api (rebase_of (api.start view) e.image_base) view e).view
      → P (apply_export api view e).0
  unfolding apply_export apply_names is_quiet
  behind_symbols view e h =
      let rebase = rebase_of (api.start view) e.image_base in
      keeps.quiet _ refl _ (types-keeps api P keeps.quiet rebase _ e (rest-keeps rebase _ e h))

  pub blocks-keeps :
      (rebase : ℕ) (view : api.View) (e : GhidraDbExport)
      → P view
      → P (fold (apply_block api rebase) (begun api view e) e.memory_blocks).view
  blocks-keeps rebase view e h =
      after_each (λ (p : Progress api.View). P p.view) (apply_block api rebase)
        (block-keeps api P keeps.quiet rebase) (begun api view e) e.memory_blocks h

  pub export-keeps : (view : api.View) (e : GhidraDbExport) → P view → P (apply_export api view e).0
  unfolding apply_symbols
  export-keeps view e h =
      let rebase = rebase_of (api.start view) e.image_base in
      behind_symbols view e (
        after_each (λ (p : Progress api.View). P p.view)
          (apply_symbol api (api.default_platform view) rebase)
          (symbol-keeps (api.default_platform view) rebase) _ e.symbols
          (blocks-keeps rebase view e h))
