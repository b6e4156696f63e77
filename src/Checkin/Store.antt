-- ===== src/Checkin/Store.antt =====
-- `storeCheckinState` and `clearCheckinState`.
use ghidra_svr_bridge.Prelude.{
  ℕ, List, [], Str, ℤ, Map, if◌then◌else◌, is_empty, insert, add, lookup, get_or, fold, nat_eq,
  int_eq, str_eq,
}
use ghidra_svr_bridge.Model.Export.{
  GhidraDataType, GhidraParameter, GhidraBookmark, GhidraDataItem, GhidraEquate, GhidraEquateRef,
  GhidraFuncSig,
}
use ghidra_svr_bridge.Model.Baseline.{
  CheckinState, BookmarkKey, bookmark_eq, EquateRefKey, equate_ref_eq,
}
use ghidra_svr_bridge.Sync.Result.{SyncResult}
use ghidra_svr_bridge.Sync.Tags.{tag_type_name, tag_data}

-- `m[k][j] = v`
unfoldable pub insert_nested {ℓ} : {V : Type ℓ} → ℕ → ℤ → V → Map ℕ (Map ℤ V) → Map ℕ (Map ℤ V)
insert_nested k j v m = insert k (insert j v (get_or (lookup k m) [])) m

abbrev pub empty_state : CheckinState
empty_state = record {
  addr_to_key = [];
  addr_to_original_name = [];
  addr_to_comment_key = [];
  addr_to_original_comment = [];
  addr_to_original_func_comment = [];
  addr_to_comment_field = [];
  ghidra_types_by_name = [];
  param_original_name_by_key = [];
  param_original_type_by_key = [];
  param_key_by_addr_ordinal = [];
  local_key_by_addr_offset = [];
  new_param_baseline = [];
  new_reg_local_baseline = [];
  ghidra_bookmark_keys = [];
  ghidra_tag_type_names = [];
  ghidra_data_item_addrs = [];
  equate_original_name_by_id = [];
  equate_value_by_id = [];
  equate_refs_by_equate_id = [];
  func_original_cc = [];
  func_original_ret_type = [];
  func_return_type_id = [];
  image_base = 0;
  checkin_repo = [];
  checkin_folder = [];
  checkin_item = [];
}

unfoldable pub clear_checkin_state : CheckinState → CheckinState
clear_checkin_state s = record s {
  addr_to_key = [];
  addr_to_original_name = [];
  addr_to_comment_key = [];
  addr_to_original_comment = [];
  addr_to_original_func_comment = [];
  addr_to_comment_field = [];
  ghidra_types_by_name = [];
  param_original_name_by_key = [];
  param_original_type_by_key = [];
  param_key_by_addr_ordinal = [];
  local_key_by_addr_offset = [];
  new_param_baseline = [];
  new_reg_local_baseline = [];
  ghidra_bookmark_keys = [];
  ghidra_tag_type_names = [];
  ghidra_data_item_addrs = [];
  equate_original_name_by_id = [];
  equate_value_by_id = [];
  equate_refs_by_equate_id = [];
  func_original_cc = [];
  func_original_ret_type = [];
  func_return_type_id = [];
  image_base = 0;
  checkin_repo = [];
  checkin_folder = [];
  checkin_item = [];
}

abbrev pub store_data_type : CheckinState → GhidraDataType → CheckinState
store_data_type s dt = record s { ghidra_types_by_name = insert dt.name dt s.ghidra_types_by_name }

-- The key of a parameter or of a stack local, by its place.
abbrev store_place : CheckinState → GhidraParameter → CheckinState
store_place s p =
    if p.is_param
    then record s {
      param_key_by_addr_ordinal =
          insert_nested p.func_addr p.ordinal p.key s.param_key_by_addr_ordinal;
    }
    else record s {
      local_key_by_addr_offset =
          insert_nested p.func_addr p.ordinal p.key s.local_key_by_addr_offset;
    }

unfoldable pub store_parameter : CheckinState → GhidraParameter → CheckinState
store_parameter s p =
    let placed = store_place s p in
    record placed {
      param_original_name_by_key = insert p.key p.name s.param_original_name_by_key;
      param_original_type_by_key =
          if is_empty p.type_name
          then s.param_original_type_by_key
          else insert p.key p.type_name s.param_original_type_by_key;
    }

abbrev pub key_of_bookmark : GhidraBookmark → BookmarkKey
key_of_bookmark bm = record {
  addr = bm.addr;
  tag_type_name = tag_type_name bm.bm_type;
  tag_data = tag_data bm.category bm.comment;
}

unfoldable pub store_bookmark : CheckinState → GhidraBookmark → CheckinState
store_bookmark s bm = record s {
  ghidra_bookmark_keys = add (key_of_bookmark bm) s.ghidra_bookmark_keys;
  ghidra_tag_type_names = add (tag_type_name bm.bm_type) s.ghidra_tag_type_names;
}

abbrev store_data_item : CheckinState → GhidraDataItem → CheckinState
store_data_item s item = record s {
  ghidra_data_item_addrs = add item.addr s.ghidra_data_item_addrs;
}

unfoldable pub add_equate_ref : ℤ → ℕ → ℤ → Map ℤ (List EquateRefKey) → Map ℤ (List EquateRefKey)
add_equate_ref id addr op_index m =
    insert id (add (record { addr = addr; op_index = op_index }) (get_or (lookup id m) [])) m

abbrev store_equate : CheckinState → GhidraEquate → CheckinState
store_equate s eq = record s {
  equate_original_name_by_id = insert eq.id eq.name s.equate_original_name_by_id;
  equate_value_by_id = insert eq.id eq.value s.equate_value_by_id;
  equate_refs_by_equate_id =
      fold (λ m (r : GhidraEquateRef). add_equate_ref eq.id r.addr r.op_index m)
        s.equate_refs_by_equate_id eq.refs;
}

unfoldable pub store_func_sig : CheckinState → GhidraFuncSig → CheckinState
store_func_sig s sig = record s {
  func_original_cc =
      if is_empty sig.calling_convention
      then s.func_original_cc
      else insert sig.key sig.calling_convention s.func_original_cc;
  func_original_ret_type =
      if is_empty sig.return_type_name
      then s.func_original_ret_type
      else insert sig.key sig.return_type_name s.func_original_ret_type;
  func_return_type_id = insert sig.key sig.return_type_id s.func_return_type_id;
}

-- The steps of `storeCheckinState`, each with the clears that stand before its loop.
unfoldable pub store_maps : CheckinState → SyncResult → CheckinState
store_maps s r =
    let mapped : CheckinState = record s {
      addr_to_key = r.addr_to_key;
      addr_to_original_name = r.addr_to_original_name;
      addr_to_comment_key = r.addr_to_comment_key;
      addr_to_original_comment = r.addr_to_original_comment;
      addr_to_original_func_comment = r.addr_to_original_func_comment;
      addr_to_comment_field = r.addr_to_comment_field;
      ghidra_types_by_name = [];
    } in
    fold store_data_type mapped r.ghidra_data_types

unfoldable pub store_parameters : CheckinState → List GhidraParameter → CheckinState
store_parameters s parameters =
    let cleared : CheckinState = record s {
      param_original_name_by_key = [];
      param_original_type_by_key = [];
      param_key_by_addr_ordinal = [];
      local_key_by_addr_offset = [];
      new_param_baseline = [];
      new_reg_local_baseline = [];
    } in
    fold store_parameter cleared parameters

unfoldable pub store_bookmarks : CheckinState → List GhidraBookmark → CheckinState
store_bookmarks s bookmarks =
    let cleared : CheckinState = record s {
      ghidra_bookmark_keys = [];
      ghidra_tag_type_names = [];
    } in
    fold store_bookmark cleared bookmarks

unfoldable pub store_data_items : CheckinState → List GhidraDataItem → CheckinState
store_data_items s items =
    let cleared : CheckinState = record s { ghidra_data_item_addrs = [] } in
    fold store_data_item cleared items

unfoldable pub store_equates : CheckinState → List GhidraEquate → CheckinState
store_equates s equates =
    let cleared : CheckinState = record s {
      equate_original_name_by_id = [];
      equate_value_by_id = [];
      equate_refs_by_equate_id = [];
    } in
    fold store_equate cleared equates

unfoldable pub store_func_sigs : CheckinState → List GhidraFuncSig → CheckinState
store_func_sigs s sigs =
    let cleared : CheckinState = record s {
      func_original_cc = [];
      func_original_ret_type = [];
      func_return_type_id = [];
    } in
    fold store_func_sig cleared sigs

-- The arguments of the call are the fields of a `SyncResult`.
unfoldable pub store_checkin_state : CheckinState → SyncResult → Str → Str → Str → CheckinState
store_checkin_state s r repo folder item =
    let placed = store_parameters (store_maps s r) r.parameters in
    let itemed = store_data_items (store_bookmarks placed r.bookmarks) r.data_items in
    let signed = store_func_sigs (store_equates itemed r.equates) r.func_sigs in
    record signed {
      image_base = r.image_base;
      checkin_repo = repo;
      checkin_folder = folder;
      checkin_item = item;
    }
