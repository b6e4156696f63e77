-- ===== src/Tests/Syncs.antt =====
-- The theorems on a check-in, at work.
use ghidra_svr_bridge.Prelude.{
  str_eq, ℕ, ◌<◌, true, false, [], some, codes, ◌≡◌, refl, subst, inl, inr, arith, nat_eq,
  nat_beq_iff, str_beq, In, lookup, member, add, List, ◌∷◌, Str, Option, ℤ, pos, insert, int_beq,
}
use ghidra_svr_bridge.Hex.{word}
use ghidra_svr_bridge.Address.{rebase_of, ghidra_va}
use ghidra_svr_bridge.Sync.Tags.{tag_data, read_tag_data}
use ghidra_svr_bridge.Sync.Tags.RoundTrip.{IsReadable, filed, read_tag_data-tag_data}
use ghidra_svr_bridge.Model.Baseline.{bookmark_eq, bookmark_beq}
use ghidra_svr_bridge.Model.View.{DataVar}
use ghidra_svr_bridge.Collect.Symbols.{collect_renames, collect_new_symbols}
use ghidra_svr_bridge.Collect.Bookmarks.{current_keys, key_of_tag, bookmark_deletion}
use ghidra_svr_bridge.Collect.Preview.{collect_preview}
use ghidra_svr_bridge.Checkin.Update.{
  update_baseline, update_symbols, update_types, update_type, record_added_ids, record_added_id,
  update_equates, update_marks, update_names, stored_type,
}
use ghidra_svr_bridge.Checkin.Converge.Symbols
use ghidra_svr_bridge.Checkin.Converge.TypeIds
use ghidra_svr_bridge.Checkin.Converge.Comments
use ghidra_svr_bridge.Collect.Comments.{comment_change, collect_address_comments}
use ghidra_svr_bridge.Checkin.Converge.DataItems
use ghidra_svr_bridge.Checkin.Converge.Bookmarks
use ghidra_svr_bridge.Tests.Data.{
  plate_state, point_preview, stored_point, shown_view, kept_state, old_note, new_note,
}

symbols_settle_example :
    (collect_renames shown_view (Symbols.after_checkin shown_view kept_state 0 []) ≡ [])
    × (collect_new_symbols shown_view (Symbols.after_checkin shown_view kept_state 0 []) ≡ [])
symbols_settle_example = Symbols.symbols_settle shown_view kept_state 0 []

kept_items : (g : ℕ) → member g kept_state.ghidra_data_item_addrs ≡ true → g < word
unfolding member
kept_items g h = ground (arith, nat_beq_iff 16 g)

shown_variables :
    (a : ℕ) (dv : DataVar)
    → In (a, dv) shown_view.data_variables
    → (a < word) × (lookup a shown_view.data_variables ≡ some dv)
unfolding lookup
shown_variables a dv (inl e) =
    subst (λ (x : ℕ × DataVar). (x.0 < word) × (lookup x.0 shown_view.data_variables ≡ some x.1)) e
      (omega arith, refl)
shown_variables a dv (inr i) = elim i [ ]

data_items_settle_example :
    (collect_preview shown_view (
      DataItems.after_checkin shown_view kept_state kept_items shown_variables
        [])).data_item_changes
    ≡ []
data_items_settle_example =
    DataItems.data_items_settle shown_view kept_state kept_items shown_variables []

old_note-gone : member old_note (current_keys shown_view 4096) ≡ false
unfolding current_keys key_of_tag add ghidra_va member bookmark_beq str_beq
old_note-gone = refl

new_note-shown : member new_note (current_keys shown_view 4096) ≡ true
unfolding current_keys key_of_tag add ghidra_va member bookmark_beq str_beq
new_note-shown = refl

old_note-kept : member old_note kept_state.ghidra_bookmark_keys ≡ true
unfolding member bookmark_beq str_beq
old_note-kept = refl

new_note-tagged : new_note.tag_data ≡ tag_data (codes "todo") (codes "check")
unfolding tag_data
new_note-tagged = refl

new_note-IsReadable : IsReadable (codes "todo") (codes "check")
unfolding member
new_note-IsReadable = filed (codes "todo") (codes "check") (λ e. cc) refl

deletion_returns_example :
    In (bookmark_deletion 4096 old_note) (collect_preview shown_view kept_state).bookmark_changes
    × In
        (bookmark_deletion 4096 old_note)
        (collect_preview shown_view
          (Bookmarks.after_checkin shown_view kept_state [])).bookmark_changes
unfolding rebase_of
deletion_returns_example =
    Bookmarks.deletion_returns shown_view kept_state [] old_note (λ e. cc) old_note-kept
      old_note-gone

addition_settles_example :
    member new_note (Bookmarks.after_checkin shown_view kept_state []).ghidra_bookmark_keys ≡ true
unfolding rebase_of
addition_settles_example =
    Bookmarks.addition_settles shown_view kept_state [] new_note (λ e. cc) new_note-IsReadable
      new_note-tagged new_note-shown

read_tag_data-tag_data_example :
    read_tag_data (tag_data (codes "todo") (codes "check")) ≡ (codes "todo", codes "check")
read_tag_data-tag_data_example = read_tag_data-tag_data new_note-IsReadable

-- The bridge has given the new type the id 42.
abbrev answered_ids : List (Str × Option ℤ)
answered_ids = (codes "Point", some (pos 42)) ∷ []

point-stored :
    lookup
      (codes "Point")
      (update_baseline 0 kept_state answered_ids point_preview).ghidra_types_by_name
    ≡ some stored_point
unfolding update_baseline update_symbols update_types update_type record_added_ids record_added_id
    update_equates update_marks update_names lookup insert stored_type str_beq int_beq
point-stored = refl

added_ids-lost_example : stored_point.id ≡ pos 0
unfolding lookup
added_ids-lost_example =
    TypeIds.added_ids-lost 0 kept_state answered_ids point_preview (codes "Point") stored_point refl
      ((λ e. refl), tt) point-stored

comment_returns_example :
    In
      (comment_change plate_state 4096 (codes "start"))
      (collect_address_comments shown_view plate_state)
    × In
        (comment_change (Comments.after_checkin shown_view plate_state []) 4096 (codes "start"))
        (collect_address_comments shown_view (Comments.after_checkin shown_view plate_state []))
unfolding lookup
comment_returns_example =
    Comments.comment_returns shown_view plate_state [] 4096 (inl refl) refl refl refl
