-- ===== src/Collect/Types.antt =====
-- `collectCheckinChanges`, lines on data types.
use ghidra_svr_bridge.Prelude.{
  Bool, true, false, not, ◌||◌, ◌&&◌, List, [], ◌∷◌, ◌++◌, map, Option, none, some, Str, codes, ℤ,
  pos, ◌==◌, str_eq, int_eq, to_int, if◌then◌else◌, is_empty, filter_map, fold, any, lookup, has,
  member, get_or,
}
use ghidra_svr_bridge.Names.{canonical_type_name}
use ghidra_svr_bridge.Names.Text.{starts_with}
use ghidra_svr_bridge.Model.Export.{GhidraDataType, GhidraDataTypeMember, GhidraEnumValue}
use ghidra_svr_bridge.Model.Preview.{DataTypeChange, TypeMember, TypeValue}
use ghidra_svr_bridge.Model.Baseline.{CheckinState}
use ghidra_svr_bridge.Model.View.{BnMember, BnType, BnView}

abbrev pub member_of : BnMember → TypeMember
member_of m = record {
  name = m.name;
  offset = to_int m.offset;
  size = to_int m.width;
  type_name = m.type_name;
}

abbrev pub value_of : Str × ℤ → TypeValue
value_of (n, v) = record { name = n; value = v }

abbrev pub change_of : Str → Str → ℤ → Str → List TypeMember → List TypeValue → DataTypeChange
change_of k n w u ms vs = record {
  op = [];
  kind = k;
  name = n;
  ghidra_id = pos 0;
  size = to_int w;
  underlying_type_name = u;
  members = ms;
  values = vs;
}

-- The change as it is built from the view's type; `none` where the loop goes on with the next type.
unfoldable pub described_type : Str → BnType → Option DataTypeChange
described_type name (BnType.structure width is_union members) =
    if is_empty members
    then none
    else some (
        change_of (if is_union then codes "union" else codes "struct") name width []
          (map member_of members) [])
described_type name (BnType.enumeration width values) =
    if is_empty values
    then none
    else some (change_of (codes "enum") name width [] [] (map value_of values))
described_type name (BnType.typedef width target) =
    if is_empty (get_or target [])
    then none
    else some (change_of (codes "typedef") name width (get_or target []) [] [])
described_type name BnType.other_type = none

abbrev pub member_differs : TypeMember → GhidraDataTypeMember → Bool
member_differs m b =
    not (m.name == b.name)
    || not (m.offset == b.offset)
    || not (canonical_type_name m.type_name == canonical_type_name b.type_name)

-- The sizes are compared first, and then the members one by one.
unfoldable pub members_differ : List TypeMember → List GhidraDataTypeMember → Bool
members_differ [] [] = false
members_differ (m ∷ ms) (b ∷ bs) = member_differs m b || members_differ ms bs
members_differ _ _ = true

abbrev pub value_differs : TypeValue → GhidraEnumValue → Bool
value_differs v b = not (v.name == b.name) || not (v.value == b.value)

unfoldable pub values_differ : List TypeValue → List GhidraEnumValue → Bool
values_differ [] [] = false
values_differ (v ∷ vs) (b ∷ bs) = value_differs v b || values_differ vs bs
values_differ _ _ = true

-- What is compared depends on the class of the view's type.
unfoldable pub type_differs : BnType → DataTypeChange → GhidraDataType → Bool
type_differs (BnType.structure _ _ _) c base = members_differ c.members base.members
type_differs (BnType.enumeration _ _) c base = values_differ c.values base.values
type_differs _ c base =
    not
      (canonical_type_name c.underlying_type_name == canonical_type_name base.underlying_type_name)

-- A type that is not in the baseline is added, one that differs from it is updated.
unfoldable pub against_baseline :
    BnType → DataTypeChange → Option GhidraDataType → Option DataTypeChange
against_baseline t c none = some (record c { op = codes "add"; ghidra_id = pos 0 })
against_baseline t c (some base) =
    if type_differs t c base
    then some (record c { op = codes "update"; ghidra_id = base.id })
    else none

-- The body of the loop over `GetTypes()`.
unfoldable pub type_change_of : BnView → CheckinState → Str × BnType → Option DataTypeChange
type_change_of view s (name, t) =
    if is_empty name || starts_with (codes "__") name
    then none
    else if not (member name view.user_type_names) && not (has name s.ghidra_types_by_name)
    then none
    else elim (described_type name t) [
      | none ↦ none
      | some c ↦ against_baseline t c (lookup name s.ghidra_types_by_name)
    ]

abbrev pub deletion_of : Str → GhidraDataType → DataTypeChange
deletion_of n base = record {
  op = codes "delete";
  kind = base.kind;
  name = n;
  ghidra_id = base.id;
  size = pos 0;
  underlying_type_name = [];
  members = [];
  values = [];
}

-- The body of the loop over the baseline; `changes` is `preview.dataTypeChanges` so far.
unfoldable pub add_deletion :
    List Str → List DataTypeChange → Str × GhidraDataType → List DataTypeChange
add_deletion current changes (n, base) =
    if member n current
    then changes
    else if any (λ c. c.name == n) changes
    then changes
    else changes ++ deletion_of n base ∷ []

unfoldable pub collect_type_changes : BnView → CheckinState → List DataTypeChange
collect_type_changes view s =
    let current = map (λ (t : Str × BnType). t.0) view.types in
    fold (add_deletion current) (filter_map (type_change_of view s) view.types)
      s.ghidra_types_by_name
