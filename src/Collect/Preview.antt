-- ===== src/Collect/Preview.antt =====
-- `collectCheckinChanges` as a whole.
use ghidra_svr_bridge.Prelude.{◌++◌, Option, none, some, if◌then◌else◌, is_empty}
use ghidra_svr_bridge.Address.{rebase_of}
use ghidra_svr_bridge.Model.Preview.{GhidraCheckinPreview, empty_preview}
use ghidra_svr_bridge.Model.Baseline.{CheckinState}
use ghidra_svr_bridge.Model.View.{BnView}
use ghidra_svr_bridge.Collect.Symbols.{collect_renames, collect_new_symbols}
use ghidra_svr_bridge.Collect.Comments.{collect_comments}
use ghidra_svr_bridge.Collect.Types.{collect_type_changes}
use ghidra_svr_bridge.Collect.Variables.{
  collect_param_renames, collect_new_params, collect_new_register_locals,
}
use ghidra_svr_bridge.Collect.Bookmarks.{collect_bookmark_changes, collect_data_item_changes}
use ghidra_svr_bridge.Collect.Signatures.{collect_func_sig_changes}
use ghidra_svr_bridge.Collect.Equates.{collect_equate_renames, collect_new_equate_refs}

unfoldable pub collect_preview : BnView → CheckinState → GhidraCheckinPreview
collect_preview view s =
    let rebase = rebase_of view.start s.image_base in
    record {
      renames = collect_renames view s;
      comments = collect_comments view s;
      equate_renames = collect_equate_renames view s;
      bookmark_changes = collect_bookmark_changes view s rebase;
      param_renames = collect_param_renames view s rebase;
      data_type_changes = collect_type_changes view s;
      data_item_changes = collect_data_item_changes view s rebase;
      func_sig_changes = collect_func_sig_changes view s;
      new_symbols = collect_new_symbols view s;
      new_params = collect_new_params view s rebase ++ collect_new_register_locals view s rebase;
      new_equate_refs = collect_new_equate_refs view s rebase;
    }

-- `none` is a null view; with no item checked out there is nothing to collect.
unfoldable pub collect_checkin_changes : Option BnView → CheckinState → GhidraCheckinPreview
collect_checkin_changes none s = empty_preview
collect_checkin_changes (some view) s =
    if is_empty s.checkin_item then empty_preview else collect_preview view s
