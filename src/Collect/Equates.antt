-- ===== src/Collect/Equates.antt =====
-- `collectCheckinChanges`, lines on equates: renamed ones, and new references.
use ghidra_svr_bridge.Prelude.{
  ℕ, Bool, false, not, List, [], ◌∷◌, ◌++◌, Option, none, some, Str, codes, ℤ, pos, ◌==◌, str_eq,
  int_eq, if◌then◌else◌, filter_map, concat_map, lookup, member, get_or, int_to_string,
}
use ghidra_svr_bridge.Address.{ghidra_va}
use ghidra_svr_bridge.Model.Preview.{EquateRename, NewEquateRef}
use ghidra_svr_bridge.Model.Baseline.{CheckinState, EquateRefKey, equate_ref_eq}
use ghidra_svr_bridge.Model.View.{CodeRef, BnView}

-- `"ghidra_eq_" + std::to_string(id)`
unfoldable pub equate_type_id : ℤ → Str
equate_type_id id = codes "ghidra_eq_" ++ int_to_string id

-- The label of an equate's enumeration, if the view has one with a member.
unfoldable pub current_label : BnView → ℤ → Option Str
current_label view id = elim (view.type_by_id (equate_type_id id)) [
  | none ↦ none
  | some enumeration ↦ elim enumeration [
    | none ↦ none
    | some labels ↦ elim labels [ [] ↦ none | label ∷ _ ↦ some label ]
  ]
]

unfoldable pub equate_rename_of : BnView → ℤ × Str → Option EquateRename
equate_rename_of view (i, original) = elim (current_label view i) [
  | none ↦ none
  | some label ↦ if label == original then none else some (record { id = i; name = label })
]

unfoldable pub collect_equate_renames : BnView → CheckinState → List EquateRename
collect_equate_renames view s = filter_map (equate_rename_of view) s.equate_original_name_by_id

-- Whether an operand shows the value by this very enumeration.
abbrev pub shows_equate : Option (Option Str) → Str → Bool
shows_equate none type_id = false
shows_equate (some none) type_id = false
shows_equate (some (some id)) type_id = id == type_id

-- One of the four probes at a reference.
unfoldable pub probe : CheckinState → ℕ → ℤ → ℤ → CodeRef → ℕ → Option NewEquateRef
probe s rebase i value ref op =
    let known = get_or (lookup i s.equate_refs_by_equate_id) [] in
    let here : EquateRefKey = record { addr = ghidra_va rebase ref.addr; op_index = pos op } in
    if not (ref.display value op)
    then none
    else if not (shows_equate (ref.display_enum value op) (equate_type_id i))
    then none
    else if member here known
    then none
    else some (record { equate_id = i; addr = ref.addr; op_index = pos op })

unfoldable pub probes_of : CheckinState → ℕ → ℤ → ℤ → CodeRef → List NewEquateRef
probes_of s rebase id value ref =
    if not ref.is_whole then [] else filter_map (probe s rebase id value ref) (0 ∷ 1 ∷ 2 ∷ 3 ∷ [])

unfoldable pub new_equate_refs_of : BnView → CheckinState → ℕ → ℤ × Str → List NewEquateRef
new_equate_refs_of view s rebase (id, original) =
    let value = get_or (lookup id s.equate_value_by_id) (pos 0) in
    elim (view.type_by_id (equate_type_id id)) [
      | none ↦ []
      | some _ ↦ concat_map (probes_of s rebase id value) (view.code_refs original)
    ]

unfoldable pub collect_new_equate_refs : BnView → CheckinState → ℕ → List NewEquateRef
collect_new_equate_refs view s rebase =
    concat_map (new_equate_refs_of view s rebase) s.equate_original_name_by_id
