-- ===== src/Sync/Tags.antt =====
-- The text of the tag that stands for a Ghidra bookmark in a view. `applyToView` of
-- plugin/src/SyncEngine.cpp writes it; `storeCheckinState`, `checkin` and `collectCheckinChanges`
-- of plugin/src/GhidraConnection.cpp write it too and take it apart.
pub mod RoundTrip
use ghidra_svr_bridge.Prelude.{
  ℕ, suc, ◌+◌, ◌-◌, [], ◌∷◌, ◌++◌, Option, none, some, Str, codes, ◌==◌, nat_eq, if◌then◌else◌,
  is_empty, length, take, drop, ltb,
}
use ghidra_svr_bridge.Names.Text.{find_char}

abbrev pub tag_prefix : Str
tag_prefix = codes "Ghidra: "

-- `"Ghidra: " + bm.type`
unfoldable pub tag_type_name : Str → Str
tag_type_name bm_type = tag_prefix ++ bm_type

-- `"[" + category + "] " + comment`, or the comment alone.
unfoldable pub tag_data : Str → Str → Str
tag_data category comment =
    if is_empty category then comment else b'[' ∷ (category ++ (codes "] " ++ comment))

-- The category and the comment that `collectCheckinChanges` reads off a tag.
split_at_bracket : Str → Option ℕ → Str × Str
split_at_bracket data' none = ([], [])
split_at_bracket data' (some close) = (
  take (close - 1) (drop 1 data'),
  if ltb (close + 2) (length data') then drop (close + 2) data' else [],
)

unfoldable pub read_tag_data : Str → Str × Str
unfolding split_at_bracket
read_tag_data [] = ([], [])
read_tag_data (c ∷ cs) =
    if c == b'[' then split_at_bracket (c ∷ cs) (find_char b']' (c ∷ cs)) else ([], c ∷ cs)
