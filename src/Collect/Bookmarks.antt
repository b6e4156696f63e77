-- ===== src/Collect/Bookmarks.antt =====
-- `collectCheckinChanges`, lines on bookmarks and on data items.
use ghidra_svr_bridge.Prelude.{
  ℕ, Bool, false, not, List, [], ◌++◌, Option, none, some, codes, nat_eq, if◌then◌else◌, is_empty,
  filter_map, fold, keep, map, lookup, member, add, get_or, drop,
}
use ghidra_svr_bridge.Address.{ghidra_va, apply_rebase}
use ghidra_svr_bridge.Names.Text.{starts_with}
use ghidra_svr_bridge.Sync.Tags.{tag_prefix, read_tag_data}
use ghidra_svr_bridge.Model.Preview.{BookmarkChange, DataItemChange}
use ghidra_svr_bridge.Model.Baseline.{CheckinState, BookmarkKey, bookmark_eq}
use ghidra_svr_bridge.Model.View.{TagRef, DataVar, BnView}

-- The key of a tag that stands for a bookmark.
unfoldable pub key_of_tag : ℕ → TagRef → Option BookmarkKey
key_of_tag rebase ref = elim ref.tag [
  | none ↦ none
  | some (type_name, text) ↦ elim type_name [
    | none ↦ none
    | some n ↦
        if starts_with tag_prefix n
        then some (record { addr = ghidra_va rebase ref.addr; tag_type_name = n; tag_data = text })
        else none
  ]
]

-- The set `currentKeys`.
unfoldable pub current_keys : BnView → ℕ → List BookmarkKey
current_keys view rebase =
    fold (λ keys k. add k keys) [] (filter_map (key_of_tag rebase) view.tag_refs)

unfoldable pub bookmark_addition : ℕ → BookmarkKey → BookmarkChange
bookmark_addition rebase k =
    let (cat, text) = read_tag_data k.tag_data in
    record {
      op = codes "add";
      bm_type = drop 8 k.tag_type_name;
      addr = apply_rebase rebase k.addr;
      category = cat;
      comment = text;
    }

unfoldable pub bookmark_deletion : ℕ → BookmarkKey → BookmarkChange
bookmark_deletion rebase k = record {
  op = codes "delete";
  bm_type = drop 8 k.tag_type_name;
  addr = apply_rebase rebase k.addr;
  category = [];
  comment = [];
}

unfoldable pub collect_bookmark_changes : BnView → CheckinState → ℕ → List BookmarkChange
collect_bookmark_changes view s rebase =
    map (bookmark_addition rebase)
      (keep (λ k. not (member k s.ghidra_bookmark_keys)) (current_keys view rebase))
    ++ map (bookmark_deletion rebase)
        (keep (λ k. not (member k (current_keys view rebase))) s.ghidra_bookmark_keys)

unfoldable pub data_addition_of : CheckinState → ℕ → ℕ × DataVar → Option DataItemChange
data_addition_of s rebase (bn_addr, dv) =
    if dv.auto_discovered
    then none
    else if member (ghidra_va rebase bn_addr) s.ghidra_data_item_addrs
    then none
    else if is_empty (get_or dv.type_text [])
    then none
    else some (record { op = codes "add"; addr = bn_addr; type_name = get_or dv.type_text [] })

-- `stillPresent`
abbrev pub is_still_present : BnView → ℕ → Bool
is_still_present view bn_addr = elim (lookup bn_addr view.data_variables) [
  | none ↦ false
  | some dv ↦ not dv.auto_discovered
]

unfoldable pub data_deletion_of : BnView → ℕ → ℕ → Option DataItemChange
data_deletion_of view rebase addr =
    if is_still_present view (apply_rebase rebase addr)
    then none
    else some (record { op = codes "delete"; addr = apply_rebase rebase addr; type_name = [] })

unfoldable pub collect_data_item_changes : BnView → CheckinState → ℕ → List DataItemChange
collect_data_item_changes view s rebase =
    filter_map (data_addition_of s rebase) view.data_variables
    ++ filter_map (data_deletion_of view rebase) s.ghidra_data_item_addrs
