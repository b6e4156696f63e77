-- ===== src/Import/Types.antt =====
-- `applyToView`: data types, typed variables, and the signatures of functions.
use ghidra_svr_bridge.Prelude.{
  ℕ, false, not, ◌&&◌, ◌||◌, List, [], map, Option, none, some, Str, codes, ℤ, pos, negsuc, ltb,
  ◌==◌, nat_eq, int_eq, str_eq, if◌then◌else◌, is_empty, filter_map, fold, find, Map, lookup,
  insert,
}
use ghidra_svr_bridge.Address.{apply_rebase}
use ghidra_svr_bridge.Model.Export.{
  GhidraDataType, GhidraDataTypeMember, GhidraEnumValue, GhidraDataItem, GhidraFuncSig,
}
use ghidra_svr_bridge.Import.Api.{
  BnApi, define_type, define_user_data_variable, set_calling_convention, set_return_type,
}
use ghidra_svr_bridge.Import.TypeNames.{resolve_type_name}
use ghidra_svr_bridge.Import.Progress.{to_u64, function_starting}

-- `n > 0 ? n : d`
abbrev pub positive_or : ℤ → ℕ → ℕ
positive_or (pos n) d = if ltb 0 n then n else d
positive_or (negsuc n) d = d

module _ (api : BnApi) where
  abbrev TypeRef : Type 0
  TypeRef = api.handles.TypeRef

  abbrev Function : Type 0
  Function = api.handles.Function

  -- `memberType`
  unfoldable pub member_type : ℤ → Option TypeRef → TypeRef
  member_type size (some t) = t
  member_type (pos n) none = if ltb 0 n then api.integer_type n false else api.void_type
  member_type (negsuc n) none = api.void_type

  -- A member with a name, as `AddMemberAtOffset` takes it.
  unfoldable pub member_at : api.View → GhidraDataTypeMember → Option (TypeRef × Str × ℕ)
  member_at view m =
      if is_empty m.name
      then none
      else some (
        member_type m.size (resolve_type_name api view m.type_name m.size),
        m.name,
        to_u64 m.offset,
      )

  abbrev define_named : GhidraDataType → TypeRef → api.View → api.View
  define_named dt t view =
      api.perform (define_type (api.auto_type_id (codes "ghidra") dt.name) dt.name t) view

  abbrev value_at : GhidraEnumValue → Str × ℕ
  value_at v = (v.name, to_u64 v.value)

  -- The body of the loop over the types.
  unfoldable pub apply_type : api.View → GhidraDataType → api.View
  apply_type view dt =
      if is_empty dt.name
      then view
      else if dt.kind == codes "struct" || dt.kind == codes "union"
      then define_named dt
          (api.structure_type (dt.kind == codes "union") (filter_map (member_at view) dt.members))
          view
      else if dt.kind == codes "enum"
      then define_named dt
          (api.enumeration_type (map value_at dt.values) (positive_or dt.size 4) false) view
      else if dt.kind == codes "typedef" && not (is_empty dt.underlying_type_name)
      then define_named dt (api.typedef_type dt.underlying_type_name (positive_or dt.size 0)) view
      else view

  -- `typeById`, which is keyed by names.
  unfoldable pub remember_type : api.View → Map Str TypeRef → GhidraDataType → Map Str TypeRef
  remember_type view types dt =
      if is_empty dt.name
      then types
      else elim (api.type_by_name view dt.name) [ none ↦ types | some t ↦ insert dt.name t types ]

  unfoldable pub types_by_name : api.View → List GhidraDataType → Map Str TypeRef
  types_by_name view dts = fold (remember_type view) [] dts

  -- The type of an item: that of the first data type with the item's id and a name.
  unfoldable pub item_type : Map Str TypeRef → List GhidraDataType → GhidraDataItem → Option TypeRef
  item_type types dts item =
      elim (find (λ dt. dt.id == item.type_id && not (is_empty dt.name)) dts) [
        | none ↦ none
        | some dt ↦ lookup dt.name types
      ]

  unfoldable pub define_item : ℕ → Option TypeRef → api.View → api.View
  define_item addr none view = view
  define_item addr (some t) view = api.perform (define_user_data_variable addr t 128) view

  -- The body of the loop over the items.
  unfoldable pub apply_item :
      ℕ → Map Str TypeRef → List GhidraDataType → api.View → GhidraDataItem → api.View
  apply_item rebase types dts view item =
      define_item (apply_rebase rebase item.addr) (item_type types dts item) view

  -- Signatures: the convention by its name on the architecture, where there is one.
  abbrev convention_of : Option api.handles.Architecture → Str → Option api.handles.Convention
  convention_of none name = none
  convention_of (some arch) name = if is_empty name then none else api.convention_by_name arch name

  unfoldable pub set_convention : Function → Option api.handles.Convention → api.View → api.View
  set_convention func none view = view
  set_convention func (some cc) view = api.perform (set_calling_convention func cc 128) view

  unfoldable pub set_return : Function → Option TypeRef → api.View → api.View
  set_return func none view = view
  set_return func (some t) view = api.perform (set_return_type func t 128) view

  unfoldable pub apply_sig_to : GhidraFuncSig → Option Function → api.View → api.View
  apply_sig_to sig none view = view
  apply_sig_to sig (some func) view =
      let called =
        set_convention func (convention_of (api.architecture func) sig.calling_convention) view in
      set_return func
        (if is_empty sig.return_type_name
          then none
          else resolve_type_name api called sig.return_type_name (pos 0))
        called

  -- The body of the loop over the signatures; `keys` is `keyToAddr`.
  unfoldable pub apply_sig : Map ℤ ℕ → api.View → GhidraFuncSig → api.View
  apply_sig keys view sig = elim (lookup sig.key keys) [
    | none ↦ view
    | some addr ↦ apply_sig_to sig (function_starting api view addr) view
  ]
