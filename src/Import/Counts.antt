-- ===== src/Import/Counts.antt =====
-- The counters of an import.
use ghidra_svr_bridge.Prelude.{
  ℕ, true, false, is_empty, is_some, str_eq, Option, some, ◌≡◌, refl, arith, nat_eq, int_eq, fold,
  length,
}
use ghidra_svr_bridge.Address.{apply_rebase, rebase_of}
use ghidra_svr_bridge.Model.Export.{GhidraDbExport}
use ghidra_svr_bridge.Sync.Writeback.{copy_lists}
use ghidra_svr_bridge.Import.Api.{BnApi}
use ghidra_svr_bridge.Import.Progress.{Progress, function_starting}
use ghidra_svr_bridge.Import.Blocks.{apply_block}
use ghidra_svr_bridge.Import.Symbols.{define_name, apply_symbol}
use ghidra_svr_bridge.Import.Comments.{apply_comment}
use ghidra_svr_bridge.Import.Marks.{FlagTags, no_tags, apply_flags}
use ghidra_svr_bridge.Import.Stable.{after_each, block-keeps}
use ghidra_svr_bridge.Import.Steps.{
  KeepsEdits, name-keeps, symbol-keeps, comment-keeps, blocks-keeps,
}
use ghidra_svr_bridge.Import.Kept.Comments.{CommentLaws, edits-Says}
use ghidra_svr_bridge.Import.Kept.Functions.{FunctionLaws}
use ghidra_svr_bridge.Import.Apply.{begun, apply_symbols, apply_names, apply_export, apply_to_view}
use ghidra_svr_bridge.Import.Tally.{
  fold-rest, count, SegmentLaws, is_laid, is_unmapped, is_missing, has_room, IsCounted, Bounds,
  Within, block-Within, create-Within, comment-Within, flags-Within,
}

-- What the view had before an import it has still: segments, functions, and comments.
module _ (api : BnApi) (segments : SegmentLaws api) (functions : FunctionLaws api)
    (comments : CommentLaws api) (view : api.View) where
  abbrev Mapped : api.View → Type 0
  Mapped v = (a : ℕ) → api.has_segment_at view a ≡ true → api.has_segment_at v a ≡ true

  abbrev Started : api.View → Type 0
  Started v =
      (a : ℕ)
      → is_some (function_starting api view a) ≡ true
      → is_some (function_starting api v a) ≡ true

  abbrev Commented : api.View → Type 0
  Commented v =
      (a : ℕ)
      → is_empty (api.comment_at view a) ≡ false
      → api.comment_at v a ≡ api.comment_at view a

  edits-Started : KeepsEdits api Started
  edits-Started = record {
    quiet = λ e q v h a s. functions.kept e a v (h a s);
    naming = λ addr y v w h a s. functions.kept _ a v (h a s);
    making = λ plat addr v h a s. functions.kept _ a v (h a s);
    writing = λ caddr text v w h a s. functions.kept _ a v (h a s);
  }

  edits-Commented : KeepsEdits api Commented
  edits-Commented =
      let edits : (a : ℕ)
          → is_empty (api.comment_at view a) ≡ false
          → KeepsEdits api (λ v. api.comment_at v a ≡ api.comment_at view a) =
        λ a n. edits-Says api comments a (api.comment_at view a) n in
      record {
        quiet = λ e q v h a n. (edits a n).quiet e q v (h a n);
        naming = λ addr y v w h a n. (edits a n).naming addr y v w (h a n);
        making = λ plat addr v h a n. (edits a n).making plat addr v (h a n);
        writing = λ caddr text v w h a n. (edits a n).writing caddr text v w (h a n);
      }

  module _ (rebase : ℕ) (e : GhidraDbExport) where
    abbrev b : Bounds
    b = record {
      sections = count is_laid e.memory_blocks;
      segments = count (is_unmapped api view rebase) e.memory_blocks;
      symbols = length e.symbols;
      functions = count (is_missing api view rebase) e.symbols;
      comments = count (has_room api view rebase) e.comments;
      flags = length e.func_flags;
    }

    abbrev plat : Option api.handles.Platform
    plat = api.default_platform view

    abbrev laid : Progress api.View
    laid = fold (apply_block api rebase) (begun api view e) e.memory_blocks

    abbrev commented : Progress api.View
    commented = apply_names api rebase view e

    blocks-Within : Within b 0 0 b.symbols b.functions b.comments b.flags laid.result
    unfolding Within
    blocks-Within =
        (fold-rest
          (λ rest (p : Progress api.View).
            Mapped p.view
            × Within b (count is_laid rest) (count (is_unmapped api view rebase) rest) b.symbols
                b.functions b.comments b.flags p.result)
          (apply_block api rebase)
          (λ p mb rest k. (
            block-keeps api Mapped (λ d q v m a s. segments.kept d a v (m a s)) rebase p mb k.0,
            block-Within api view rebase b rest p mb (k.0 _) k.1,
          ))
          (begun api view e) e.memory_blocks (λ a s. s, ground arith)).1

    symbols-Within :
        Within b 0 0 b.symbols b.functions b.comments b.flags laid.result
        → Within b 0 0 0 0 b.comments b.flags (apply_symbols api rebase view e).result
    unfolding apply_symbols apply_symbol
    symbols-Within h =
        (fold-rest
          (λ rest (p : Progress api.View).
            Started p.view
            × Within b 0 0 (length rest) (count (is_missing api view rebase) rest) b.comments
                b.flags p.result)
          (apply_symbol api plat rebase)
          (λ p y rest k. (
            symbol-keeps api Started edits-Started plat rebase p y k.0,
            create-Within api view rebase b plat rest y
                (record p { view = define_name api (apply_rebase rebase y.addr) y p.view })
                (name-keeps api Started edits-Started (apply_rebase rebase y.addr) y p.view k.0 _)
                k.1,
          ))
          laid e.symbols (blocks-keeps api Started edits-Started rebase view e (λ a q. q), h)).1

    comments-Within :
        Within b 0 0 0 0 b.comments b.flags (apply_symbols api rebase view e).result
        → Within b 0 0 0 0 0 b.flags commented.result
    unfolding apply_symbols apply_names
    comments-Within h =
        (fold-rest
          (λ rest (p : Progress api.View).
            Commented p.view
            × Within b 0 0 0 0 (count (has_room api view rebase) rest) b.flags p.result)
          (apply_comment api rebase)
          (λ p m rest k. (
            comment-keeps api Commented edits-Commented rebase p m k.0,
            comment-Within api view rebase b rest p m (k.0 _) k.1,
          ))
          (apply_symbols api rebase view e) e.comments
          (
            after_each (λ (p : Progress api.View). Commented p.view) (apply_symbol api plat rebase)
                (symbol-keeps api Commented edits-Commented plat rebase) laid e.symbols
                (blocks-keeps api Commented edits-Commented rebase view e (λ a n. refl)),
            h,
          )).1

    flags-counted :
        Within b 0 0 0 0 0 b.flags commented.result
        → Within b 0 0 0 0 0 0
            (fold (apply_flags api) (commented, no_tags api.handles.TagType) e.func_flags).0.result
    flags-counted h =
        fold-rest
          (λ rest (s : Progress api.View × FlagTags api.handles.TagType).
            Within b 0 0 0 0 0 (length rest) s.0.result)
          (apply_flags api) (λ s ff rest k. flags-Within api view rebase b rest s ff k)
          (commented, no_tags api.handles.TagType) e.func_flags h

  -- Where the API takes no segment, function or comment away, an import into a view adds a section
  -- for each block of the export that is neither empty nor an overlay, counts every symbol as
  -- applied, and counts at most as many segments, functions and comments as there are such blocks
  -- at an address that the view has no segment for, symbols of functions that the view lacks, and
  -- texts that the view has no other comment for; and at most as many flags as the export has.
  pub apply_to_view-IsCounted :
      (e : GhidraDbExport) → IsCounted api view e (apply_to_view api (some view) e).1
  unfolding apply_to_view apply_export copy_lists IsCounted Within
  apply_to_view-IsCounted e =
      let rebase = rebase_of (api.start view) e.image_base in
      let h =
        flags-counted rebase e
          (comments-Within rebase e (symbols-Within rebase e (blocks-Within rebase e))) in
      (
        omega (arith, h.0),
        omega (arith, h.1),
        omega (arith, h.2),
        omega (arith, h.3),
        omega (arith, h.4),
        omega (arith, h.5),
      )
