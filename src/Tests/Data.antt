-- ===== src/Tests/Data.antt =====
-- A program of one function and one variable, as Ghidra keeps it and as a view shows it.
use ghidra_svr_bridge.Prelude.{
  false, [], ◌∷◌, none, some, codes, pos, nat_beq, if◌then◌else◌, nat_eq, str_eq, int_eq,
}
use ghidra_svr_bridge.Model.Baseline.{CheckinState, BookmarkKey}
use ghidra_svr_bridge.Model.View.{
  BnSymbol, function_symbol, data_symbol, DataVar, TagRef, BnFunction, BnView,
}
use ghidra_svr_bridge.Model.Export.{GhidraDataType}
use ghidra_svr_bridge.Model.Preview.{DataTypeChange, GhidraCheckinPreview, empty_preview}
use ghidra_svr_bridge.Checkin.Store.{empty_state}

abbrev pub main_symbol : BnSymbol
main_symbol = record { address = 4096; full_name = codes "main"; symbol_type = function_symbol }

abbrev pub table_symbol : BnSymbol
table_symbol = record { address = 8192; full_name = codes "table"; symbol_type = data_symbol }

abbrev pub table_variable : DataVar
table_variable = record { auto_discovered = false; type_text = some (codes "int32_t[4]") }

abbrev pub main_function : BnFunction
main_function = record {
  start = 4096;
  comment = codes "entry";
  parameter_variables = [];
  variables = [];
  variable_name = λ v. [];
  variable_type = λ v. none;
  has_user_type = false;
  calling_convention = none;
  return_type = none;
  default_calling_convention = none;
}

abbrev pub note_tag : TagRef
note_tag = record { addr = 4096; tag = some (some (codes "Ghidra: Note"), codes "[todo] check") }

abbrev pub shown_view : BnView
shown_view = record {
  start = 4096;
  symbol_at = λ a. if nat_beq a 4096 then some main_symbol else none;
  symbols = main_symbol ∷ table_symbol ∷ [];
  commented_addresses = 4096 ∷ [];
  comment_at = λ a. if nat_beq a 4096 then codes "start" else [];
  functions = main_function ∷ [];
  functions_at = λ a. if nat_beq a 4096 then main_function ∷ [] else [];
  user_type_names = [];
  types = [];
  register_names = [];
  tag_refs = note_tag ∷ [];
  data_variables = (8192, table_variable) ∷ [];
  type_by_id = λ n. none;
  code_refs = λ n. [];
}

abbrev pub old_note : BookmarkKey
old_note = record { addr = 0; tag_type_name = codes "Ghidra: Note"; tag_data = codes "[done] old" }

abbrev pub new_note : BookmarkKey
new_note = record {
  addr = 0;
  tag_type_name = codes "Ghidra: Note";
  tag_data = codes "[todo] check";
}

abbrev pub kept_state : CheckinState
kept_state = record empty_state {
  addr_to_key = (4096, pos 7) ∷ [];
  addr_to_original_name = (4096, codes "FUN_00001000") ∷ [];
  ghidra_bookmark_keys = old_note ∷ [];
  ghidra_data_item_addrs = 16 ∷ [];
  checkin_item = codes "a.out";
}

abbrev pub new_point : DataTypeChange
new_point = record {
  op = codes "add";
  kind = codes "typedef";
  name = codes "Point";
  ghidra_id = pos 0;
  size = pos 8;
  underlying_type_name = codes "int64_t";
  members = [];
  values = [];
}

abbrev pub point_preview : GhidraCheckinPreview
point_preview = record empty_preview { data_type_changes = new_point ∷ [] }

abbrev pub stored_point : GhidraDataType
stored_point = record {
  id = pos 0;
  kind = codes "typedef";
  name = codes "Point";
  comment = [];
  size = pos 8;
  underlying_type_id = pos 0;
  underlying_type_name = codes "int64_t";
  members = [];
  values = [];
}

-- Ghidra has a comment of the function, and none at its address.
abbrev pub plate_state : CheckinState
plate_state = record kept_state {
  addr_to_original_func_comment = (4096, codes "Entry point.") ∷ [];
}
