-- ===== src/Import/Marks.antt =====
-- `applyToView`: function flags and bookmarks as tags, equates as enumerations.
use ghidra_svr_bridge.Prelude.{
  ℕ, suc, Bool, true, false, ◌||◌, [], ◌∷◌, ◌++◌, Option, none, some, Str, codes, nat_eq, int_eq,
  if◌then◌else◌, is_empty, lookup, fold, int_to_string,
}
use ghidra_svr_bridge.Address.{apply_rebase}
use ghidra_svr_bridge.Model.Export.{GhidraFuncFlags, GhidraEquate, GhidraEquateRef, GhidraBookmark}
use ghidra_svr_bridge.Sync.Tags.{tag_type_name, tag_data}
use ghidra_svr_bridge.Import.Api.{
  BnApi, create_user_function_tag, create_user_data_tag, define_type, set_enumeration_display,
}
use ghidra_svr_bridge.Import.Progress.{Progress, to_u64, function_starting, get_or_create_tag_type}

-- `ttThunk`, `ttNoRet` and `ttInline`.
pub record FlagTags (T : Type 0) : Type 0 where
  pub thunk : Option T
  pub no_return : Option T
  pub is_inline : Option T

abbrev pub no_tags : (T : Type 0) → FlagTags T
no_tags T = record { thunk = none; no_return = none; is_inline = none }

module _ (api : BnApi) where
  abbrev Function : Type 0
  Function = api.handles.Function

  abbrev TagType : Type 0
  TagType = api.handles.TagType

  -- The tag type of a flag: looked up once, and kept.
  unfoldable pub cached_tag_type : Str → Option TagType → api.View → api.View × TagType
  cached_tag_type name (some tt) view = (view, tt)
  cached_tag_type name none view = get_or_create_tag_type api view name

  -- The tag of one flag, if it is set.
  unfoldable pub tag_if :
      Bool → Str → Function → Option TagType → api.View → api.View × Option TagType
  tag_if false name func cache view = (view, cache)
  tag_if true name func cache view =
      let (found, tt) = cached_tag_type name cache view in
      (api.perform (create_user_function_tag func tt []) found, some tt)

  unfoldable pub tag_flags :
      Function → GhidraFuncFlags → FlagTags TagType → api.View → api.View × FlagTags TagType
  tag_flags func ff tags view =
      let (v1, t1) = tag_if ff.is_thunk (codes "Ghidra: Thunk") func tags.thunk view in
      let (v2, t2) = tag_if ff.no_return (codes "Ghidra: NoReturn") func tags.no_return v1 in
      let (v3, t3) = tag_if ff.is_inline (codes "Ghidra: Inline") func tags.is_inline v2 in
      (v3, record { thunk = t1; no_return = t2; is_inline = t3 })

  -- The body of the loop, behind the two look-ups.
  unfoldable pub apply_flags_to :
      Option Function
      → GhidraFuncFlags
      → Progress api.View × FlagTags TagType
      → Progress api.View × FlagTags TagType
  apply_flags_to none ff s = s
  apply_flags_to (some func) ff (p, tags) =
      let (view, found) = tag_flags func ff tags p.view in
      (
        record p {
          view = view;
          result = record p.result { flags_applied = suc p.result.flags_applied };
        },
        found,
      )

  unfoldable pub apply_flags :
      Progress api.View × FlagTags TagType → GhidraFuncFlags → Progress api.View × FlagTags TagType
  apply_flags (p, tags) ff = elim (lookup ff.key p.key_to_addr) [
    | none ↦ (p, tags)
    | some addr ↦ apply_flags_to (function_starting api p.view addr) ff (p, tags)
  ]

  -- Equates: the type id by which the check-in finds the type back.
  unfoldable pub equate_type_id : GhidraEquate → Str
  equate_type_id eq = codes "ghidra_eq_" ++ int_to_string eq.id

  unfoldable pub show_equate_in :
      GhidraEquate → GhidraEquateRef → ℕ → api.handles.TypeRef → api.View → Function → api.View
  show_equate_in eq ref addr bn_type view func =
      api.perform
        (set_enumeration_display func (api.architecture func) addr (to_u64 eq.value)
          (to_u64 ref.op_index) bn_type)
        view

  -- The display at a reference, in every function that holds it.
  unfoldable pub show_equate :
      ℕ → GhidraEquate → api.handles.TypeRef → api.View → GhidraEquateRef → api.View
  show_equate rebase eq bn_type view ref =
      let addr = apply_rebase rebase ref.addr in
      fold (show_equate_in eq ref addr bn_type) view (api.functions_containing view addr)

  unfoldable pub show_equates : ℕ → GhidraEquate → Option api.handles.TypeRef → api.View → api.View
  show_equates rebase eq none view = view
  show_equates rebase eq (some bn_type) view = fold (show_equate rebase eq bn_type) view eq.refs

  -- The body of the loop.
  unfoldable pub apply_equate : ℕ → api.View → GhidraEquate → api.View
  apply_equate rebase view eq =
      let enum_type = api.enumeration_type ((eq.name, to_u64 eq.value) ∷ []) 4 false in
      let typed = api.perform (define_type (equate_type_id eq) eq.name enum_type) view in
      if is_empty eq.name || is_empty eq.refs
      then view
      else show_equates rebase eq (api.type_by_id typed (equate_type_id eq)) typed

  -- Bookmarks: the body of the loop.
  unfoldable pub apply_bookmark : ℕ → api.View → GhidraBookmark → api.View
  apply_bookmark rebase view bm =
      let (found, tt) = get_or_create_tag_type api view (tag_type_name bm.bm_type) in
      api.perform
        (create_user_data_tag (apply_rebase rebase bm.addr) tt (tag_data bm.category bm.comment)
          false)
        found
