-- ===== src/Import/Blocks.antt =====
-- `applyToView`: Ghidra's memory blocks as segments and sections.
use ghidra_svr_bridge.Prelude.{
  ℕ, suc, not, ◌||◌, ◌++◌, codes, Str, ◌==◌, nat_eq, if◌then◌else◌, is_empty, nat_to_string,
}
use ghidra_svr_bridge.Address.{apply_rebase}
use ghidra_svr_bridge.Model.Export.{GhidraMemoryBlock}
use ghidra_svr_bridge.Import.Api.{
  BnApi, SegmentFlags, SectionSemantics, read_only_code, read_write_data, read_only_data,
  add_user_segment, add_user_section,
}
use ghidra_svr_bridge.Import.Progress.{Progress}

-- `flags`
unfoldable pub segment_flags : GhidraMemoryBlock → SegmentFlags
segment_flags mb = record {
  readable = mb.read;
  writable = mb.write;
  executable = mb.execute;
  contains_code = mb.execute;
  contains_data = not mb.execute;
}

-- `sem`
unfoldable pub section_semantics : GhidraMemoryBlock → SectionSemantics
section_semantics mb =
    if mb.execute then read_only_code else if mb.write then read_write_data else read_only_data

unfoldable pub section_name : GhidraMemoryBlock → ℕ → Str
section_name mb start = if is_empty mb.name then codes "ghidra_" ++ nat_to_string start else mb.name

module _ (api : BnApi) where
  -- The segment, where the view maps nothing at `start`.
  unfoldable pub apply_segment : ℕ → Progress api.View → GhidraMemoryBlock → Progress api.View
  apply_segment start p mb = if api.has_segment_at p.view start then p else record p {
    view = api.perform (add_user_segment start mb.size (segment_flags mb)) p.view;
    result = record p.result { segments_added = suc p.result.segments_added };
  }

  unfoldable pub apply_section : ℕ → Progress api.View → GhidraMemoryBlock → Progress api.View
  apply_section start p mb = record p {
    view =
        api.perform (add_user_section (section_name mb start) start mb.size (section_semantics mb))
          p.view;
    result = record p.result { sections_added = suc p.result.sections_added };
  }

  -- The body of the loop: an empty block or an overlay is passed over.
  unfoldable pub apply_block : ℕ → Progress api.View → GhidraMemoryBlock → Progress api.View
  apply_block rebase p mb =
      let start = apply_rebase rebase mb.addr in
      if mb.size == 0 || mb.overlay then p else apply_section start (apply_segment start p mb) mb
