-- ===== src/Import/Apply.antt =====
-- `applyToView` as a whole.
use ghidra_svr_bridge.Prelude.{ℕ, [], Option, none, some, fold}
use ghidra_svr_bridge.Address.{rebase_of}
use ghidra_svr_bridge.Model.Export.{GhidraDbExport}
use ghidra_svr_bridge.Sync.Result.{SyncResult, initial_result}
use ghidra_svr_bridge.Sync.Writeback.{copy_lists}
use ghidra_svr_bridge.Import.Api.{BnApi, update_analysis}
use ghidra_svr_bridge.Import.Progress.{Progress}
use ghidra_svr_bridge.Import.Blocks.{apply_block}
use ghidra_svr_bridge.Import.Symbols.{apply_symbol}
use ghidra_svr_bridge.Import.Comments.{apply_comment}
use ghidra_svr_bridge.Import.Marks.{no_tags, apply_flags, apply_equate, apply_bookmark}
use ghidra_svr_bridge.Import.Variables.{apply_variable}
use ghidra_svr_bridge.Import.Types.{apply_type, types_by_name, apply_item, apply_sig}

module _ (api : BnApi) where
  abbrev pub begun : api.View → GhidraDbExport → Progress api.View
  begun view e = record {
    view = view;
    result = record initial_result { image_base = e.image_base };
    key_to_addr = [];
  }

  -- The loops over the blocks and the symbols.
  unfoldable pub apply_symbols : ℕ → api.View → GhidraDbExport → Progress api.View
  apply_symbols rebase view e =
      fold (apply_symbol api (api.default_platform view) rebase)
        (fold (apply_block api rebase) (begun view e) e.memory_blocks) e.symbols

  -- The loop over the comments behind them.
  unfoldable pub apply_names : ℕ → api.View → GhidraDbExport → Progress api.View
  apply_names rebase view e =
      fold (apply_comment api rebase) (apply_symbols rebase view e) e.comments

  -- The loops from the equates on, which change the view alone.
  unfoldable pub apply_types : ℕ → Progress api.View → GhidraDbExport → api.View
  apply_types rebase p e =
      let shown = fold (apply_equate api rebase) p.view e.equates in
      let marked = fold (apply_bookmark api rebase) shown e.bookmarks in
      let renamed = fold (apply_variable api rebase) marked e.parameters in
      let typed = fold (apply_type api) renamed e.data_types in
      let defined =
        fold (apply_item api rebase (types_by_name api typed e.data_types) e.data_types) typed
          e.data_items in
      fold (apply_sig api p.key_to_addr) defined e.func_sigs

  -- A view that is not null.
  unfoldable pub apply_export : api.View → GhidraDbExport → api.View × SyncResult
  apply_export view e =
      let rebase = rebase_of (api.start view) e.image_base in
      let flagged =
        (fold (apply_flags api) (apply_names rebase view e, no_tags api.handles.TagType)
          e.func_flags).0 in
      (api.perform update_analysis (apply_types rebase flagged e), copy_lists flagged.result e)

  -- `none` is a null view.
  unfoldable pub apply_to_view : Option api.View → GhidraDbExport → Option api.View × SyncResult
  apply_to_view none e = (none, initial_result)
  apply_to_view (some view) e = let (after, result) = apply_export view e in (some after, result)
