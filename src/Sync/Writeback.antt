-- ===== src/Sync/Writeback.antt =====
-- `SyncEngine::buildWritebackMaps`: the maps of an import, with no change to the view.
pub mod Columns
use ghidra_svr_bridge.Prelude.{
  ℕ, Option, none, some, ltb, if◌then◌else◌, is_empty, insert, fold, nat_eq,
}
use ghidra_svr_bridge.Address.{rebase_of, apply_rebase}
use ghidra_svr_bridge.Model.Export.{GhidraSymbol, GhidraComment, GhidraDbExport}
use ghidra_svr_bridge.Sync.Comments.{Merged, merge_parts, merged_field}
use ghidra_svr_bridge.Sync.Result.{SyncResult, initial_result}

-- The body of the loop over the symbols.
unfoldable pub record_symbol : ℕ → SyncResult → GhidraSymbol → SyncResult
record_symbol rebase r sym =
    let addr = apply_rebase rebase sym.addr in
    record r {
      addr_to_key = insert addr sym.key r.addr_to_key;
      addr_to_original_name = insert addr sym.name r.addr_to_original_name;
      addr_min = if ltb addr r.addr_min then addr else r.addr_min;
      addr_max = if ltb r.addr_max addr then addr else r.addr_max;
    }

-- The body of the loop over the comments, in its three steps.
unfoldable pub record_comment_key : ℕ → SyncResult → GhidraComment → SyncResult
record_comment_key caddr r comm =
    if is_empty comm.encoded_key
    then r
    else record r { addr_to_comment_key = insert caddr comm.encoded_key r.addr_to_comment_key }

unfoldable pub record_text : ℕ → SyncResult → Merged → SyncResult
record_text caddr r m = if is_empty m.text then r else record r {
  addr_to_comment_field = insert caddr (merged_field m) r.addr_to_comment_field;
  addr_to_original_comment = insert caddr m.text r.addr_to_original_comment;
}

unfoldable pub record_plate : ℕ → SyncResult → GhidraComment → SyncResult
record_plate caddr r comm = if is_empty comm.plate then r else record r {
  addr_to_original_func_comment = insert caddr comm.plate r.addr_to_original_func_comment;
}

unfoldable pub record_comment : ℕ → SyncResult → GhidraComment → SyncResult
record_comment rebase r comm =
    let caddr = apply_rebase rebase comm.addr in
    record_plate caddr (record_text caddr (record_comment_key caddr r comm) (merge_parts comm)) comm

-- The lists that both functions copy at the end.
unfoldable pub copy_lists : SyncResult → GhidraDbExport → SyncResult
copy_lists r e = record r {
  ghidra_data_types = e.data_types;
  parameters = e.parameters;
  bookmarks = e.bookmarks;
  data_items = e.data_items;
  equates = e.equates;
  func_sigs = e.func_sigs;
}

-- `none` is a null view; a view enters by its start address alone.
unfoldable pub build_writeback_maps : Option ℕ → GhidraDbExport → SyncResult
build_writeback_maps none e = initial_result
build_writeback_maps (some bn_base) e =
    let rebase = rebase_of bn_base e.image_base in
    let begun = record initial_result { image_base = e.image_base } in
    let named = fold (record_symbol rebase) begun e.symbols in
    copy_lists (fold (record_comment rebase) named e.comments) e
