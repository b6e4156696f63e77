-- ===== src/Sync/Comments.antt =====
-- The merge of Ghidra's comment columns into one comment (`applyToView`, `buildWritebackMaps`).
use ghidra_svr_bridge.Prelude.{
  ℕ, suc, List, [], ◌∷◌, ◌++◌, Str, codes, ◌==◌, nat_eq, if◌then◌else◌, is_empty, fold,
}
use ghidra_svr_bridge.Model.Export.{GhidraComment}

-- `text`, `fieldCount` and `soloField` of the loop.
pub record Merged : Type 0 where
  pub text : Str
  pub field_count : ℕ
  pub solo_field : Str

abbrev pub no_parts : Merged
no_parts = record { text = []; field_count = 0; solo_field = [] }

unfoldable pub add_part : Merged → Str × Str → Merged
add_part m (part, field) = if is_empty part then m else record {
  text = (if is_empty m.text then [] else m.text ++ b'\n' ∷ []) ++ part;
  field_count = suc m.field_count;
  solo_field = if m.field_count == 0 then field else m.solo_field;
}

-- `commParts`, in its order.
abbrev pub comm_parts : GhidraComment → List (Str × Str)
comm_parts c =
    (c.eol, codes "eol") ∷ (c.rep, codes "rep") ∷ (c.pre, codes "pre") ∷ (c.post, codes "post") ∷ []

unfoldable pub merge_parts : GhidraComment → Merged
merge_parts c = fold add_part no_parts (comm_parts c)

-- The column that the merged comment is written back to.
unfoldable pub merged_field : Merged → Str
merged_field m = if m.field_count == 1 then m.solo_field else codes "eol"
