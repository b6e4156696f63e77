-- ===== src/Sync/Result.antt =====
-- plugin/include/SyncEngine.h, `SyncResult`.
use ghidra_svr_bridge.Prelude.{ℕ, ◌-◌, List, [], Str, ℤ, Map}
use ghidra_svr_bridge.Hex.{word}
use ghidra_svr_bridge.Model.Export.{
  GhidraDataType, GhidraParameter, GhidraBookmark, GhidraDataItem, GhidraEquate, GhidraFuncSig,
}

-- The counters are `int`s; a program database has fewer than 2 ^ 31 elements of a kind.
pub record SyncResult : Type 0 where
  pub symbols_applied : ℕ
  pub comments_applied : ℕ
  pub flags_applied : ℕ
  pub functions_created : ℕ
  pub sections_added : ℕ
  pub segments_added : ℕ
  pub addr_min : ℕ
  pub addr_max : ℕ
  pub sample_symbol : Str
  pub addr_to_key : Map ℕ ℤ
  pub addr_to_original_name : Map ℕ Str
  pub addr_to_comment_key : Map ℕ Str
  pub addr_to_original_comment : Map ℕ Str
  pub addr_to_original_func_comment : Map ℕ Str
  pub addr_to_comment_field : Map ℕ Str
  pub ghidra_data_types : List GhidraDataType
  pub parameters : List GhidraParameter
  pub bookmarks : List GhidraBookmark
  pub data_items : List GhidraDataItem
  pub equates : List GhidraEquate
  pub func_sigs : List GhidraFuncSig
  pub image_base : ℕ

abbrev pub initial_result : SyncResult
initial_result = record {
  symbols_applied = 0;
  comments_applied = 0;
  flags_applied = 0;
  functions_created = 0;
  sections_added = 0;
  segments_added = 0;
  addr_min = word - 1;
  addr_max = 0;
  sample_symbol = [];
  addr_to_key = [];
  addr_to_original_name = [];
  addr_to_comment_key = [];
  addr_to_original_comment = [];
  addr_to_original_func_comment = [];
  addr_to_comment_field = [];
  ghidra_data_types = [];
  parameters = [];
  bookmarks = [];
  data_items = [];
  equates = [];
  func_sigs = [];
  image_base = 0;
}
