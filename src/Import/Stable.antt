-- ===== src/Import/Stable.antt =====
-- What an import keeps of a view: a property that every call of a loop keeps is kept by the loop.
use ghidra_svr_bridge.Prelude.{
  ℕ, Bool, true, false, not, ◌&&◌, ◌||◌, List, [], ◌∷◌, Option, none, some, ◌≡◌, refl, inl, inr,
  Bool-cases, Option-cases, if◌then◌else◌, is_empty, nat_eq, int_eq, str_eq, ◌==◌, fold, lookup,
  Map, ℤ, Str, codes, find,
}
use ghidra_svr_bridge.Address.{apply_rebase}
use ghidra_svr_bridge.Model.Export.{
  GhidraDbExport, GhidraMemoryBlock, GhidraFuncFlags, GhidraEquate, GhidraBookmark, GhidraParameter,
  GhidraDataType, GhidraDataItem, GhidraFuncSig,
}
use ghidra_svr_bridge.Model.View.{BnVariable}
use ghidra_svr_bridge.Import.Api.{
  BnApi, BnHandles, Edit, define_user_symbol, create_user_function, set_comment_for_address,
  define_type,
}
use ghidra_svr_bridge.Import.Progress.{Progress, function_starting, get_or_create_tag_type}
use ghidra_svr_bridge.Import.Blocks.{apply_segment, apply_section, apply_block}
use ghidra_svr_bridge.Import.Marks.{
  FlagTags, cached_tag_type, tag_if, tag_flags, apply_flags_to, apply_flags, show_equate_in,
  show_equate, show_equates, apply_equate, apply_bookmark,
}
use ghidra_svr_bridge.Import.Variables.{
  at_ordinal, is_at, rename_variable, apply_parameter, apply_local, apply_variable_of,
  apply_variable,
}
use ghidra_svr_bridge.Import.Types.{
  apply_type, define_item, item_type, apply_item, set_convention, set_return, apply_sig_to,
  apply_sig,
}
use ghidra_svr_bridge.Import.Apply.{apply_types}

-- A call that neither names a symbol, nor makes a function, nor writes the comment of an address.
unfoldable pub is_quiet : {h : BnHandles} → Edit h → Bool
is_quiet (define_user_symbol _ _ _) = false
is_quiet (create_user_function _ _) = false
is_quiet (set_comment_for_address _ _) = false
is_quiet _ = true

-- A property that holds behind a loop's body whenever it holds before.
pub after_each {κ μ} :
    {A : Type 0} {S : Type κ} (P : S → Type μ) (f : S → A → S)
    → ((s : S) (x : A) → P s → P (f s x))
    → (s : S) (xs : List A) → P s
    → P (fold f s xs)
after_each P f h s [] p = p
after_each P f h s (x ∷ xs) p = after_each P f h (f s x) xs (h s x p)

module _ (api : BnApi) (P : api.View → Type 0)
    (keeps : (e : Edit api.handles)
      → is_quiet e ≡ true
      → (v : api.View) → P v
      → P (api.perform e v)) where
  pub block-keeps :
      (rebase : ℕ) (p : Progress api.View) (mb : GhidraMemoryBlock)
      → P p.view
      → P (apply_block api rebase p mb).view
  unfolding apply_block apply_section apply_segment is_quiet
  block-keeps rebase p mb h = elim (Bool-cases (mb.size == 0 || mb.overlay)) [
    | inl e ↦ rw e h
    | inr e ↦ elim (Bool-cases (api.has_segment_at p.view (apply_rebase rebase mb.addr))) [
      | inl k ↦ rw (e, k) (keeps _ refl _ h)
      | inr k ↦ rw (e, k) (keeps _ refl _ (keeps _ refl _ h))
    ]
  ]

  get_or_create-keeps : (v : api.View) (name : Str) → P v → P (get_or_create_tag_type api v name).0
  unfolding get_or_create_tag_type is_quiet
  get_or_create-keeps v name h = elim (Option-cases (api.tag_type v name)) [
    | inl e ↦ rw e (keeps _ refl _ h)
    | inr (t, e) ↦ rw e h
  ]

  tag_if-keeps :
      (b : Bool) (name : Str) (func : api.handles.Function) (cache : Option api.handles.TagType)
      (v : api.View)
      → P v
      → P (tag_if api b name func cache v).0
  unfolding tag_if cached_tag_type is_quiet
  tag_if-keeps false name func cache v h = h
  tag_if-keeps true name func (some t) v h = keeps _ refl _ h
  tag_if-keeps true name func none v h = keeps _ refl _ (get_or_create-keeps v name h)

  pub flags-keeps :
      (s : Progress api.View × FlagTags api.handles.TagType) (ff : GhidraFuncFlags)
      → P s.0.view
      → P (apply_flags api s ff).0.view
  unfolding apply_flags apply_flags_to tag_flags
  flags-keeps (p, tags) ff h = elim (Option-cases (lookup ff.key p.key_to_addr)) [
    | inl e ↦ rw (e, apply_flags) h
    | inr (addr, e) ↦ elim (Option-cases (function_starting api p.view addr)) [
      | inl k ↦ rw (e, k, apply_flags) h
      | inr (f, k) ↦
          rw (e, k, apply_flags)
            (tag_if-keeps ff.is_inline _ f _ _
              (tag_if-keeps ff.no_return _ f _ _ (tag_if-keeps ff.is_thunk _ f _ _ h)))
    ]
  ]

  equate-keeps :
      (rebase : ℕ) (v : api.View) (eq : GhidraEquate) → P v → P (apply_equate api rebase v eq)
  unfolding apply_equate show_equates show_equate show_equate_in is_quiet
  equate-keeps rebase v eq h = elim (Bool-cases (is_empty eq.name || is_empty eq.refs)) [
    | inl e ↦ rw e h
    | inr e ↦ rw e (shown _ _ (keeps _ refl _ h))
  ]
    where
      shown :
          (t : Option api.handles.TypeRef) (w : api.View) → P w → P (show_equates api rebase eq t w)
      shown none w k = k
      shown (some t) w k =
          after_each P (show_equate api rebase eq t)
            (λ u ref m.
              after_each P (show_equate_in api eq ref (apply_rebase rebase ref.addr) t)
                (λ x f n. keeps _ refl _ n) u
                (api.functions_containing u (apply_rebase rebase ref.addr)) m)
            w eq.refs k

  bookmark-keeps :
      (rebase : ℕ) (v : api.View) (bm : GhidraBookmark) → P v → P (apply_bookmark api rebase v bm)
  unfolding apply_bookmark is_quiet
  bookmark-keeps rebase v bm h = keeps _ refl _ (get_or_create-keeps v _ h)

  renamed-keeps :
      (f : api.handles.Function) (param : GhidraParameter) (x : BnVariable)
      (t : Option api.handles.TypeRef) (b : Bool) (v : api.View)
      → P v
      → P (if b then rename_variable api f param x t v else v)
  unfolding rename_variable is_quiet
  renamed-keeps f param x t true v h = keeps _ refl _ h
  renamed-keeps f param x t false v h = h

  parameter-keeps :
      (f : api.handles.Function) (param : GhidraParameter) (o : Option BnVariable) (v : api.View)
      → P v
      → P (apply_parameter api f param o v)
  unfolding apply_parameter
  parameter-keeps f param none v h = h
  parameter-keeps f param (some x) v h = renamed-keeps f param x _ _ v h

  local-keeps :
      (f : api.handles.Function) (param : GhidraParameter)
      (o : Option (BnVariable × Str × Option api.handles.TypeRef)) (v : api.View)
      → P v
      → P (apply_local api f param o v)
  unfolding apply_local
  local-keeps f param none v h = h
  local-keeps f param (some (x, n, t)) v h = renamed-keeps f param x t _ v h

  if-keeps : (b : Bool) (v w : api.View) → P v → P w → P (if b then v else w)
  if-keeps true v w h k = h
  if-keeps false v w h k = k

  variable-keeps :
      (rebase : ℕ) (v : api.View) (param : GhidraParameter)
      → P v
      → P (apply_variable api rebase v param)
  unfolding apply_variable apply_variable_of
  variable-keeps rebase v param h =
      elim (Option-cases (function_starting api v (apply_rebase rebase param.func_addr))) [
        | inl e ↦ rw e h
        | inr (f, e) ↦
            let x = at_ordinal (api.parameter_variables v f) param.ordinal in
            let y = find (is_at api param.ordinal) (api.variables v f) in
            rw e (
              if-keeps param.is_param (apply_parameter api f param x v)
                (apply_local api f param y v) (parameter-keeps f param x v h)
                (local-keeps f param y v h))
      ]

  defined-keeps :
      (i n : Str) (t : api.handles.TypeRef) (v : api.View)
      → P v
      → P (api.perform (define_type i n t) v)
  unfolding is_quiet
  defined-keeps i n t v h = keeps _ refl _ h

  type-keeps : (v : api.View) (dt : GhidraDataType) → P v → P (apply_type api v dt)
  unfolding apply_type
  type-keeps v dt h = elim (Bool-cases (is_empty dt.name)) [
    | inl a ↦ rw a h
    | inr a ↦ elim (Bool-cases (dt.kind == codes "struct" || dt.kind == codes "union")) [
      | inl b ↦ rw (a, b) (defined-keeps _ _ _ v h)
      | inr b ↦ elim (Bool-cases (dt.kind == codes "enum")) [
        | inl c ↦ rw (a, b, c) (defined-keeps _ _ _ v h)
        | inr c ↦
            rw (a, b, c)
              (if-keeps (dt.kind == codes "typedef" && not (is_empty dt.underlying_type_name)) _ v
                (defined-keeps _ _ _ v h) h)
      ]
    ]
  ]

  item-keeps :
      (rebase : ℕ) (types : Map Str api.handles.TypeRef) (dts : List GhidraDataType) (v : api.View)
      (item : GhidraDataItem)
      → P v
      → P (apply_item api rebase types dts v item)
  unfolding apply_item define_item is_quiet
  item-keeps rebase types dts v item h = elim (Option-cases (item_type api types dts item)) [
    | inl e ↦ rw e h
    | inr (t, e) ↦ rw e (keeps _ refl _ h)
  ]

  convention-keeps :
      (f : api.handles.Function) (o : Option api.handles.Convention) (v : api.View)
      → P v
      → P (set_convention api f o v)
  unfolding set_convention is_quiet
  convention-keeps f none v h = h
  convention-keeps f (some cc) v h = keeps _ refl _ h

  return-keeps :
      (f : api.handles.Function) (o : Option api.handles.TypeRef) (v : api.View)
      → P v
      → P (set_return api f o v)
  unfolding set_return is_quiet
  return-keeps f none v h = h
  return-keeps f (some t) v h = keeps _ refl _ h

  sig-keeps :
      (keys : Map ℤ ℕ) (v : api.View) (sig : GhidraFuncSig) → P v → P (apply_sig api keys v sig)
  unfolding apply_sig apply_sig_to
  sig-keeps keys v sig h = elim (Option-cases (lookup sig.key keys)) [
    | inl e ↦ rw (e, apply_sig) h
    | inr (addr, e) ↦ elim (Option-cases (function_starting api v addr)) [
      | inl k ↦ rw (e, k, apply_sig) h
      | inr (f, k) ↦ rw (e, k, apply_sig) (return-keeps f _ _ (convention-keeps f _ v h))
    ]
  ]

  pub types-keeps :
      (rebase : ℕ) (p : Progress api.View) (e : GhidraDbExport)
      → P p.view
      → P (apply_types api rebase p e)
  unfolding apply_types
  types-keeps rebase p e h =
      after_each P (apply_sig api p.key_to_addr) (sig-keeps p.key_to_addr) _ e.func_sigs (
        after_each P _ (item-keeps rebase _ e.data_types) _ e.data_items (
          after_each P (apply_type api) type-keeps _ e.data_types (
            after_each P (apply_variable api rebase) (variable-keeps rebase) _ e.parameters (
              after_each P (apply_bookmark api rebase) (bookmark-keeps rebase) _ e.bookmarks
                (after_each P (apply_equate api rebase) (equate-keeps rebase) _ e.equates h)))))
