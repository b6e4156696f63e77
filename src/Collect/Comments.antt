-- ===== src/Collect/Comments.antt =====
-- `collectCheckinChanges`, lines on comments: those at addresses, then those of functions.
use ghidra_svr_bridge.Prelude.{
  ℕ, Bool, List, [], ◌∷◌, ◌++◌, Option, none, some, Str, ◌==◌, nat_eq, str_eq, if◌then◌else◌,
  is_empty, filter_map, fold, any, lookup, get_or,
}
use ghidra_svr_bridge.Model.Preview.{CommentChange}
use ghidra_svr_bridge.Model.Baseline.{CheckinState}
use ghidra_svr_bridge.Model.View.{BnFunction, BnView}

abbrev pub comment_change : CheckinState → ℕ → Str → CommentChange
comment_change s a t = record {
  addr = a;
  text = t;
  encoded_key = get_or (lookup a s.addr_to_comment_key) [];
}

unfoldable pub address_comment_of : BnView → CheckinState → ℕ → Option CommentChange
address_comment_of view s addr =
    let text = view.comment_at addr in
    if is_empty text
    then none
    else if text == get_or (lookup addr s.addr_to_original_comment) []
    then none
    else some (comment_change s addr text)

unfoldable pub collect_address_comments : BnView → CheckinState → List CommentChange
collect_address_comments view s = filter_map (address_comment_of view s) view.commented_addresses

abbrev pub is_captured : ℕ → List CommentChange → Bool
is_captured addr comments = any (λ c. c.addr == addr) comments

-- The body of the loop over the functions; `comments` is `preview.comments` so far.
unfoldable pub add_func_comment :
    CheckinState → List CommentChange → BnFunction → List CommentChange
add_func_comment s comments func =
    if is_empty func.comment
    then comments
    else if is_captured func.start comments
    then comments
    else if func.comment == get_or (lookup func.start s.addr_to_original_func_comment) []
    then comments
    else comments ++ comment_change s func.start func.comment ∷ []

unfoldable pub collect_comments : BnView → CheckinState → List CommentChange
collect_comments view s = fold (add_func_comment s) (collect_address_comments view s) view.functions
