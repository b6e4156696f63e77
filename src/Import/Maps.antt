-- ===== src/Import/Maps.antt =====
-- The two ways to the maps of an import: `applyToView`, and `buildWritebackMaps` behind a restart.
use ghidra_svr_bridge.Prelude.{
  ℕ, not, ◌&&◌, ◌||◌, [], Option, none, some, ◌≡◌, refl, ap, ◌∙◌, inl, inr, Bool-cases,
  Option-cases, is_empty, is_some, nat_eq, int_eq, ◌==◌, fold, fold-frame, fold-sim, lookup, insert,
}
use ghidra_svr_bridge.Address.{apply_rebase, rebase_of}
use ghidra_svr_bridge.Model.Export.{
  GhidraMemoryBlock, GhidraSymbol, GhidraComment, GhidraFuncFlags, GhidraDbExport,
}
use ghidra_svr_bridge.Sync.Comments.{Merged, merge_parts, merged_field}
use ghidra_svr_bridge.Sync.Result.{SyncResult}
use ghidra_svr_bridge.Sync.Writeback.{
  record_symbol, record_comment_key, record_text, record_plate, record_comment, copy_lists,
  build_writeback_maps,
}
use ghidra_svr_bridge.Import.Api.{BnApi}
use ghidra_svr_bridge.Import.Progress.{Progress, function_starting}
use ghidra_svr_bridge.Import.Blocks.{apply_segment, apply_section, apply_block}
use ghidra_svr_bridge.Import.Symbols.{is_function, create_function, note_symbol, apply_symbol}
use ghidra_svr_bridge.Import.Comments.{
  note_key, may_write, apply_text, apply_plate_to, apply_plate, apply_comment,
}
use ghidra_svr_bridge.Import.Marks.{FlagTags, apply_flags_to, apply_flags}
use ghidra_svr_bridge.Import.Apply.{begun, apply_symbols, apply_names, apply_export, apply_to_view}

-- A result without its counters, its sample, and the comments of functions.
unfoldable pub writeback_part : SyncResult → SyncResult
writeback_part r = record r {
  symbols_applied = 0;
  comments_applied = 0;
  flags_applied = 0;
  functions_created = 0;
  sections_added = 0;
  segments_added = 0;
  sample_symbol = [];
  addr_to_original_func_comment = [];
}

-- The two maps with the merged text of an address.
abbrev with_text : ℕ → Merged → SyncResult → SyncResult
with_text caddr m q = record q {
  addr_to_comment_field = insert caddr (merged_field m) q.addr_to_comment_field;
  addr_to_original_comment = insert caddr m.text q.addr_to_original_comment;
}

module _ (api : BnApi) where
  -- The import in progress has what the other function's result has.
  abbrev Agree : Progress api.View → SyncResult → Type 0
  Agree p r = writeback_part p.result ≡ writeback_part r

  segment-Agree :
      (start : ℕ) (p : Progress api.View) (mb : GhidraMemoryBlock)
      → writeback_part (apply_segment api start p mb).result ≡ writeback_part p.result
  unfolding apply_segment writeback_part
  segment-Agree start p mb = elim (Bool-cases (api.has_segment_at p.view start)) [
    | inl e ↦ rw e refl
    | inr e ↦ rw e refl
  ]

  block-Agree :
      (rebase : ℕ) (p : Progress api.View) (mb : GhidraMemoryBlock)
      → writeback_part (apply_block api rebase p mb).result ≡ writeback_part p.result
  unfolding apply_block apply_section writeback_part
  block-Agree rebase p mb = elim (Bool-cases (mb.size == 0 || mb.overlay)) [
    | inl e ↦ rw e refl
    | inr e ↦ rw e (segment-Agree (apply_rebase rebase mb.addr) p mb)
  ]

  create-Agree :
      (plat : Option api.handles.Platform) (addr : ℕ) (y : GhidraSymbol) (p : Progress api.View)
      → writeback_part (create_function api plat addr y p).result ≡ writeback_part p.result
  unfolding create_function writeback_part
  create-Agree none addr y p = refl
  create-Agree (some plat) addr y p =
      elim (Bool-cases (is_function y && not (is_some (function_starting api p.view addr)))) [
        | inl e ↦ rw e refl
        | inr e ↦ rw e refl
      ]

  symbol-Agree :
      (plat : Option api.handles.Platform) (rebase : ℕ) (p : Progress api.View) (r : SyncResult)
      (y : GhidraSymbol)
      → Agree p r
      → Agree (apply_symbol api plat rebase p y) (record_symbol rebase r y)
  unfolding apply_symbol note_symbol record_symbol writeback_part
  symbol-Agree plat rebase p r y h =
      ap (λ (q : SyncResult). writeback_part (record_symbol rebase q y))
        (create-Agree plat (apply_rebase rebase y.addr) y _ ∙ h)

  key-Agree :
      (caddr : ℕ) (p : Progress api.View) (r : SyncResult) (c : GhidraComment)
      → Agree p r
      → writeback_part (note_key caddr c p.result) ≡ writeback_part (record_comment_key caddr r c)
  unfolding note_key record_comment_key writeback_part
  key-Agree caddr p r c h = elim (Bool-cases (is_empty c.encoded_key)) [
    | inl e ↦ rw e h
    | inr e ↦ rw e (
        ap
          (λ (q : SyncResult).
            writeback_part
              (record q { addr_to_comment_key = insert caddr c.encoded_key q.addr_to_comment_key }))
          h)
  ]

  text-Agree :
      (caddr : ℕ) (p : Progress api.View) (r : SyncResult) (m : Merged)
      → Agree p r
      → Agree (apply_text api caddr m p) (record_text caddr r m)
  unfolding apply_text record_text writeback_part
  text-Agree caddr p r m h = elim (Bool-cases (is_empty m.text)) [
    | inl e ↦ rw e h
    | inr e ↦ elim (Bool-cases (may_write (api.comment_at p.view caddr) m.text)) [
      | inl k ↦ rw (e, k) noted
      | inr k ↦ rw (e, k) noted
    ]
  ]
    where
      noted : writeback_part (with_text caddr m p.result) ≡ writeback_part (with_text caddr m r)
      noted = ap (λ (q : SyncResult). writeback_part (with_text caddr m q)) h

  plate-Agree :
      (caddr : ℕ) (p : Progress api.View) (r : SyncResult) (c : GhidraComment)
      → Agree p r
      → Agree (apply_plate api caddr c p) (record_plate caddr r c)
  unfolding apply_plate apply_plate_to record_plate writeback_part
  plate-Agree caddr p r c h = elim (Bool-cases (is_empty c.plate)) [
    | inl e ↦ rw e h
    | inr e ↦ elim (Option-cases (function_starting api p.view caddr)) [
      | inl k ↦ rw (e, k) h
      | inr (f, k) ↦ rw (e, k) h
    ]
  ]

  comment-Agree :
      (rebase : ℕ) (p : Progress api.View) (r : SyncResult) (c : GhidraComment)
      → Agree p r
      → Agree (apply_comment api rebase p c) (record_comment rebase r c)
  unfolding apply_comment record_comment
  comment-Agree rebase p r c h =
      let caddr = apply_rebase rebase c.addr in
      plate-Agree caddr _ _ c (text-Agree caddr _ _ (merge_parts c) (key-Agree caddr p r c h))

  flags-Agree :
      (s : Progress api.View × FlagTags api.handles.TagType) (ff : GhidraFuncFlags)
      → writeback_part (apply_flags api s ff).0.result ≡ writeback_part s.0.result
  unfolding apply_flags apply_flags_to writeback_part
  flags-Agree (p, tags) ff = elim (Option-cases (lookup ff.key p.key_to_addr)) [
    | inl e ↦ rw (e, apply_flags) refl
    | inr (addr, e) ↦ elim (Option-cases (function_starting api p.view addr)) [
      | inl k ↦ rw (e, k, apply_flags) refl
      | inr (f, k) ↦ rw (e, k, apply_flags) refl
    ]
  ]

  names-Agree :
      (view : api.View) (e : GhidraDbExport)
      → Agree (apply_names api (rebase_of (api.start view) e.image_base) view e) (
          fold
            (record_comment (rebase_of (api.start view) e.image_base))
            (fold
              (record_symbol (rebase_of (api.start view) e.image_base))
              (begun api view e).result
              e.symbols)
            e.comments)
  unfolding apply_names apply_symbols
  names-Agree view e =
      let rebase = rebase_of (api.start view) e.image_base in
      fold-sim Agree (apply_comment api rebase) (record_comment rebase)
        (λ p r c h. comment-Agree rebase p r c h) _ _ e.comments
        (fold-sim Agree (apply_symbol api (api.default_platform view) rebase) (record_symbol rebase)
          (λ p r y h. symbol-Agree (api.default_platform view) rebase p r y h) _ _ e.symbols
          (fold-frame (λ (p : Progress api.View). writeback_part p.result) (apply_block api rebase)
            (λ p mb. block-Agree rebase p mb) (begun api view e) e.memory_blocks))

  abbrev start_of : Option api.View → Option ℕ
  start_of none = none
  start_of (some view) = some (api.start view)

  -- An import into a view and the map-only import of the same export for that view's start agree on
  -- the keys, names, comments and columns at every address, on the range of addresses and on the
  -- lists of the export.
  pub apply_to_view-writeback :
      (view : Option api.View) (e : GhidraDbExport)
      → writeback_part (apply_to_view api view e).1
        ≡ writeback_part (build_writeback_maps (start_of view) e)
  unfolding apply_to_view build_writeback_maps apply_export copy_lists writeback_part
  apply_to_view-writeback none e = refl
  apply_to_view-writeback (some view) e =
      ap (λ (q : SyncResult). writeback_part (copy_lists q e))
        (fold-frame
            (λ (s : Progress api.View × FlagTags api.handles.TagType). writeback_part s.0.result)
            (apply_flags api) (λ s ff. flags-Agree s ff) _ e.func_flags
          ∙ names-Agree view e)
