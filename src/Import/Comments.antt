-- ===== src/Import/Comments.antt =====
-- `applyToView`: Ghidra's comments as comments of addresses and of functions.
use ghidra_svr_bridge.Prelude.{
  ℕ, suc, Bool, ◌||◌, Option, none, some, Str, ◌==◌, nat_eq, str_eq, if◌then◌else◌, is_empty,
  insert,
}
use ghidra_svr_bridge.Address.{apply_rebase}
use ghidra_svr_bridge.Model.Export.{GhidraComment}
use ghidra_svr_bridge.Sync.Comments.{Merged, merge_parts, merged_field}
use ghidra_svr_bridge.Sync.Result.{SyncResult}
use ghidra_svr_bridge.Import.Api.{BnApi, set_comment_for_address, set_function_comment}
use ghidra_svr_bridge.Import.Progress.{Progress, function_starting}

-- `addrToCommentKey`
unfoldable pub note_key : ℕ → GhidraComment → SyncResult → SyncResult
note_key caddr comm r =
    if is_empty comm.encoded_key
    then r
    else record r { addr_to_comment_key = insert caddr comm.encoded_key r.addr_to_comment_key }

-- Whether Ghidra's text may be written over the one that is there.
abbrev pub may_write : Str → Str → Bool
may_write existing text = is_empty existing || existing == text

module _ (api : BnApi) where
  -- The merged text: always the baseline, and a comment of the view where that has no other.
  unfoldable pub apply_text : ℕ → Merged → Progress api.View → Progress api.View
  apply_text caddr m p =
      if is_empty m.text
      then p
      else (let r = record p.result {
        addr_to_comment_field = insert caddr (merged_field m) p.result.addr_to_comment_field;
        addr_to_original_comment = insert caddr m.text p.result.addr_to_original_comment;
      } in
          if may_write (api.comment_at p.view caddr) m.text
          then record p {
            view = api.perform (set_comment_for_address caddr m.text) p.view;
            result = record r { comments_applied = suc r.comments_applied };
          }
          else record p { result = r })

  -- The plate comment of the function that starts at the address.
  unfoldable pub apply_plate_to :
      ℕ → GhidraComment → Option api.handles.Function → Progress api.View → Progress api.View
  apply_plate_to caddr comm none p = p
  apply_plate_to caddr comm (some func) p = record p {
    result = record p.result {
      addr_to_original_func_comment =
          insert caddr comm.plate p.result.addr_to_original_func_comment;
    };
    view =
        if may_write (api.function_comment p.view func) comm.plate
        then api.perform (set_function_comment func comm.plate) p.view
        else p.view;
  }

  unfoldable pub apply_plate : ℕ → GhidraComment → Progress api.View → Progress api.View
  apply_plate caddr comm p =
      if is_empty comm.plate
      then p
      else apply_plate_to caddr comm (function_starting api p.view caddr) p

  -- The body of the loop.
  unfoldable pub apply_comment : ℕ → Progress api.View → GhidraComment → Progress api.View
  apply_comment rebase p comm =
      let caddr = apply_rebase rebase comm.addr in
      apply_plate caddr comm
        (apply_text caddr (merge_parts comm) (record p { result = note_key caddr comm p.result }))
