-- ===== src/Checkin/Update.antt =====
-- `checkin`, the lines behind a successful answer: what the next preview is compared with.
use ghidra_svr_bridge.Prelude.{
  ℕ, List, [], map, Option, none, some, Str, codes, ℤ, pos, Map, ◌==◌, nat_eq, str_eq, int_eq,
  if◌then◌else◌, is_empty, fold, lookup, insert, erase, has, add, remove, get_or,
}
use ghidra_svr_bridge.Address.{ghidra_va}
use ghidra_svr_bridge.Sync.Tags.{tag_type_name, tag_data}
use ghidra_svr_bridge.Model.Export.{GhidraDataType, GhidraDataTypeMember, GhidraEnumValue}
use ghidra_svr_bridge.Model.Preview.{
  SymbolRename, NewSymbol, CommentChange, DataTypeChange, TypeMember, TypeValue, ParamRename,
  NewParam, EquateRename, NewEquateRef, BookmarkChange, DataItemChange, FuncSigChange,
  GhidraCheckinPreview,
}
use ghidra_svr_bridge.Model.Baseline.{CheckinState, BookmarkKey, bookmark_eq}
use ghidra_svr_bridge.Checkin.Store.{insert_nested, add_equate_ref}

-- The loop over `added_type_ids`; `none` is a value that is no number.
unfoldable pub record_added_id : CheckinState → Str × Option ℤ → CheckinState
record_added_id s (type_name, none) = s
record_added_id s (type_name, some i) = elim (lookup type_name s.ghidra_types_by_name) [
  | none ↦ s
  | some t ↦ record s {
    ghidra_types_by_name = insert type_name (record t { id = i }) s.ghidra_types_by_name;
  }
]

unfoldable pub record_added_ids : CheckinState → List (Str × Option ℤ) → CheckinState
record_added_ids s ids = fold record_added_id s ids

unfoldable pub update_rename : Map ℕ Str → SymbolRename → Map ℕ Str
update_rename names r = insert r.addr r.new_name names

unfoldable pub update_new_symbol : Map ℕ Str → NewSymbol → Map ℕ Str
update_new_symbol names n = insert n.addr n.name names

unfoldable pub update_names : Map ℕ Str → GhidraCheckinPreview → Map ℕ Str
update_names names p = fold update_new_symbol (fold update_rename names p.renames) p.new_symbols

unfoldable pub update_comment : CheckinState → CommentChange → CheckinState
update_comment s c =
    if has c.addr s.addr_to_original_comment
    then record s { addr_to_original_comment = insert c.addr c.text s.addr_to_original_comment }
    else if has c.addr s.addr_to_original_func_comment
    then record s {
      addr_to_original_func_comment = insert c.addr c.text s.addr_to_original_func_comment;
    }
    else record s {
      addr_to_original_comment = insert c.addr c.text s.addr_to_original_comment;
      addr_to_comment_field = insert c.addr (codes "eol") s.addr_to_comment_field;
    }

-- A baseline entry that `operator[]` makes.
abbrev pub fresh_data_type : GhidraDataType
fresh_data_type = record {
  id = pos 0;
  kind = [];
  name = [];
  comment = [];
  size = pos 0;
  underlying_type_id = pos 0;
  underlying_type_name = [];
  members = [];
  values = [];
}

abbrev pub stored_member : TypeMember → GhidraDataTypeMember
stored_member m = record {
  offset = m.offset;
  type_id = pos 0;
  name = m.name;
  comment = [];
  size = m.size;
  ordinal = pos 0;
  type_name = m.type_name;
}

abbrev pub stored_value : TypeValue → GhidraEnumValue
stored_value v = record { name = v.name; value = v.value; comment = [] }

unfoldable pub stored_type : GhidraDataType → DataTypeChange → GhidraDataType
stored_type old dt = record old {
  name = dt.name;
  kind = dt.kind;
  size = dt.size;
  id = if dt.ghidra_id == pos 0 then old.id else dt.ghidra_id;
  underlying_type_name = dt.underlying_type_name;
  members = map stored_member dt.members;
  values = map stored_value dt.values;
}

unfoldable pub update_type : Map Str GhidraDataType → DataTypeChange → Map Str GhidraDataType
update_type types dt =
    if dt.op == codes "delete"
    then erase dt.name types
    else insert dt.name (stored_type (get_or (lookup dt.name types) fresh_data_type) dt) types

unfoldable pub update_param : CheckinState → ParamRename → CheckinState
update_param s r = record s {
  param_original_name_by_key = insert r.key r.name s.param_original_name_by_key;
  param_original_type_by_key =
      if is_empty r.type_name
      then s.param_original_type_by_key
      else insert r.key r.type_name s.param_original_type_by_key;
}

unfoldable pub update_new_param : ℕ → CheckinState → NewParam → CheckinState
update_new_param rebase s p =
    let addr = ghidra_va rebase p.func_addr in
    if p.is_local
    then record s {
      new_reg_local_baseline = insert_nested addr p.ordinal p.name s.new_reg_local_baseline;
    }
    else record s { new_param_baseline = insert_nested addr p.ordinal p.name s.new_param_baseline }

unfoldable pub update_equate_rename : Map ℤ Str → EquateRename → Map ℤ Str
update_equate_rename names r = insert r.id r.name names

unfoldable pub update_equate_ref : ℕ → CheckinState → NewEquateRef → CheckinState
update_equate_ref rebase s r = record s {
  equate_refs_by_equate_id =
      add_equate_ref r.equate_id (ghidra_va rebase r.addr) r.op_index s.equate_refs_by_equate_id;
}

abbrev pub key_of_change : ℕ → BookmarkChange → BookmarkKey
key_of_change rebase b = record {
  addr = ghidra_va rebase b.addr;
  tag_type_name = tag_type_name b.bm_type;
  tag_data = tag_data b.category b.comment;
}

unfoldable pub update_bookmark : ℕ → List BookmarkKey → BookmarkChange → List BookmarkKey
update_bookmark rebase keys b =
    if b.op == codes "add"
    then add (key_of_change rebase b) keys
    else remove (key_of_change rebase b) keys

unfoldable pub update_data_item : ℕ → List ℕ → DataItemChange → List ℕ
update_data_item rebase addrs di =
    if di.op == codes "add"
    then add (ghidra_va rebase di.addr) addrs
    else remove (ghidra_va rebase di.addr) addrs

unfoldable pub update_func_sig : CheckinState → FuncSigChange → CheckinState
update_func_sig s fs = record s {
  func_original_cc =
      if is_empty fs.calling_convention
      then s.func_original_cc
      else insert fs.key fs.calling_convention s.func_original_cc;
  func_original_ret_type =
      if is_empty fs.return_type_name
      then s.func_original_ret_type
      else insert fs.key fs.return_type_name s.func_original_ret_type;
}

-- The loops in the code's order.
unfoldable pub update_symbols : CheckinState → GhidraCheckinPreview → CheckinState
update_symbols s p = record s { addr_to_original_name = update_names s.addr_to_original_name p }

unfoldable pub update_types : CheckinState → GhidraCheckinPreview → CheckinState
update_types s p = record s {
  ghidra_types_by_name = fold update_type s.ghidra_types_by_name p.data_type_changes;
}

unfoldable pub update_equates : ℕ → CheckinState → GhidraCheckinPreview → CheckinState
update_equates rebase s p =
    let renamed : CheckinState = record s {
      equate_original_name_by_id =
          fold update_equate_rename s.equate_original_name_by_id p.equate_renames;
    } in
    fold (update_equate_ref rebase) renamed p.new_equate_refs

unfoldable pub update_marks : ℕ → CheckinState → GhidraCheckinPreview → CheckinState
update_marks rebase s p = record s {
  ghidra_bookmark_keys = fold (update_bookmark rebase) s.ghidra_bookmark_keys p.bookmark_changes;
  ghidra_data_item_addrs =
      fold (update_data_item rebase) s.ghidra_data_item_addrs p.data_item_changes;
}

unfoldable pub update_baseline :
    ℕ → CheckinState → List (Str × Option ℤ) → GhidraCheckinPreview → CheckinState
update_baseline rebase s added p =
    let named = update_symbols (record_added_ids s added) p in
    let commented = fold update_comment named p.comments in
    let typed = update_types commented p in
    let placed =
      fold (update_new_param rebase) (fold update_param typed p.param_renames) p.new_params in
    let marked = update_marks rebase (update_equates rebase placed p) p in
    fold update_func_sig marked p.func_sig_changes
