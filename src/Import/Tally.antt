-- ===== src/Import/Tally.antt =====
-- What the counters of an import are compared with, and each step of a loop on them.
use ghidra_svr_bridge.Prelude.{
  ℕ, suc, ◌+◌, ◌≤◌, Bool, true, false, not, ◌&&◌, ◌||◌, inl, inr, Bool-cases, if◌then◌else◌,
  is_empty, is_some, ◌==◌, str_eq, List, [], ◌∷◌, Option, none, some, ◌≡◌, arith, nat_eq, int_eq,
  fold, length,
}
use ghidra_svr_bridge.Address.{apply_rebase, rebase_of}
use ghidra_svr_bridge.Model.Export.{
  GhidraMemoryBlock, GhidraSymbol, GhidraComment, GhidraFuncFlags, GhidraDbExport,
}
use ghidra_svr_bridge.Sync.Comments.{merge_parts}
use ghidra_svr_bridge.Sync.Result.{SyncResult}
use ghidra_svr_bridge.Import.Api.{BnApi, Edit}
use ghidra_svr_bridge.Import.Progress.{Progress, function_starting}
use ghidra_svr_bridge.Import.Blocks.{apply_segment, apply_section, apply_block}
use ghidra_svr_bridge.Import.Symbols.{is_function, create_function, note_symbol}
use ghidra_svr_bridge.Import.Comments.{
  may_write, note_key, apply_text, apply_plate_to, apply_plate, apply_comment,
}
use ghidra_svr_bridge.Import.Marks.{FlagTags, apply_flags_to, apply_flags}

-- An invariant of what a loop has still to read.
pub fold-rest {κ μ} :
    {A : Type 0} {S : Type κ} (P : List A → S → Type μ) (f : S → A → S)
    → ((s : S) (x : A) (rest : List A) → P (x ∷ rest) s → P rest (f s x))
    → (s : S) (xs : List A) → P xs s
    → P [] (fold f s xs)
fold-rest P f h s [] p = p
fold-rest P f h s (x ∷ xs) p = fold-rest P f h (f s x) xs (h s x xs p)

-- How many elements pass a test.
abbrev pub count {ℓ} : {A : Type ℓ} → (A → Bool) → List A → ℕ
count p [] = 0
count p (x ∷ xs) = if p x then suc (count p xs) else count p xs

-- The segments of a view: no call takes one away.
pub record SegmentLaws (api : BnApi) : Type 0 where
  pub kept :
      (e : Edit api.handles) (a : ℕ) (v : api.View)
      → api.has_segment_at v a ≡ true
      → api.has_segment_at (api.perform e v) a ≡ true

-- A block that is neither empty nor an overlay.
abbrev pub is_laid : GhidraMemoryBlock → Bool
is_laid mb = not (mb.size == 0 || mb.overlay)

module _ (api : BnApi) (view : api.View) (rebase : ℕ) where
  -- A block that the view has no segment for, a function that it lacks, and a comment that it has
  -- room for, before the import.
  abbrev pub is_unmapped : GhidraMemoryBlock → Bool
  is_unmapped mb = is_laid mb && not (api.has_segment_at view (apply_rebase rebase mb.addr))

  abbrev pub is_missing : GhidraSymbol → Bool
  is_missing y =
      is_function y && not (is_some (function_starting api view (apply_rebase rebase y.addr)))

  abbrev pub has_room : GhidraComment → Bool
  has_room c =
      not (is_empty (merge_parts c).text)
      && may_write (api.comment_at view (apply_rebase rebase c.addr)) (merge_parts c).text

-- The counters of an import of an export into a view.
unfoldable pub IsCounted : (api : BnApi) → api.View → GhidraDbExport → SyncResult → Type 0
IsCounted api view e r =
    let rebase = rebase_of (api.start view) e.image_base in
    (r.sections_added ≡ count is_laid e.memory_blocks)
    × (r.segments_added ≤ count (is_unmapped api view rebase) e.memory_blocks)
    × (r.symbols_applied ≡ length e.symbols)
    × (r.functions_created ≤ count (is_missing api view rebase) e.symbols)
    × (r.comments_applied ≤ count (has_room api view rebase) e.comments)
    × (r.flags_applied ≤ length e.func_flags)

-- The six counters and what they may still count, against their bounds.
pub record Bounds : Type 0 where
  pub sections : ℕ
  pub segments : ℕ
  pub symbols : ℕ
  pub functions : ℕ
  pub comments : ℕ
  pub flags : ℕ

unfoldable pub Within : Bounds → ℕ → ℕ → ℕ → ℕ → ℕ → ℕ → SyncResult → Type 0
Within b sections segments symbols functions comments flags r =
    (r.sections_added + sections ≡ b.sections)
    × (r.segments_added + segments ≤ b.segments)
    × (r.symbols_applied + symbols ≡ b.symbols)
    × (r.functions_created + functions ≤ b.functions)
    × (r.comments_applied + comments ≤ b.comments)
    × (r.flags_applied + flags ≤ b.flags)

module _ (api : BnApi) (view : api.View) (rebase : ℕ) (b : Bounds) where
  pub block-Within :
      (rest : List GhidraMemoryBlock) (p : Progress api.View) (mb : GhidraMemoryBlock)
      → (api.has_segment_at view (apply_rebase rebase mb.addr) ≡ true
          → api.has_segment_at p.view (apply_rebase rebase mb.addr) ≡ true)
      → Within b
          (count is_laid (mb ∷ rest))
          (count (is_unmapped api view rebase) (mb ∷ rest))
          b.symbols
          b.functions
          b.comments
          b.flags
          p.result
      → Within b
          (count is_laid rest)
          (count (is_unmapped api view rebase) rest)
          b.symbols
          b.functions
          b.comments
          b.flags
          (apply_block api rebase p mb).result
  unfolding apply_block apply_section apply_segment Within
  block-Within rest p mb m h =
      elim (Bool-cases (api.has_segment_at view (apply_rebase rebase mb.addr))) [
        | inl e ↦ ground (arith, h, e, m e)
        | inr e ↦ ground (arith, h, e)
      ]

  pub create-Within :
      (plat : Option api.handles.Platform) (rest : List GhidraSymbol) (y : GhidraSymbol)
      (p : Progress api.View)
      → (is_some (function_starting api view (apply_rebase rebase y.addr)) ≡ true
          → is_some (function_starting api p.view (apply_rebase rebase y.addr)) ≡ true)
      → Within b 0 0
          (length (y ∷ rest))
          (count (is_missing api view rebase) (y ∷ rest))
          b.comments
          b.flags
          p.result
      → Within b 0 0 (length rest) (count (is_missing api view rebase) rest) b.comments b.flags (
          note_symbol
            (apply_rebase rebase y.addr)
            y
            (create_function api plat (apply_rebase rebase y.addr) y p).result)
  unfolding note_symbol create_function Within
  create-Within none rest y p m h = ground (arith, h)
  create-Within (some plat) rest y p m h =
      elim (Bool-cases (is_some (function_starting api view (apply_rebase rebase y.addr)))) [
        | inl e ↦ ground (arith, h, e, m e)
        | inr e ↦ ground (arith, h, e)
      ]

  pub comment-Within :
      (rest : List GhidraComment) (p : Progress api.View) (c : GhidraComment)
      → (is_empty (api.comment_at view (apply_rebase rebase c.addr)) ≡ false
          → api.comment_at p.view (apply_rebase rebase c.addr)
            ≡ api.comment_at view (apply_rebase rebase c.addr))
      → Within b 0 0 0 0 (count (has_room api view rebase) (c ∷ rest)) b.flags p.result
      → Within b 0 0 0 0
          (count (has_room api view rebase) rest)
          b.flags
          (apply_comment api rebase p c).result
  unfolding apply_comment apply_text apply_plate apply_plate_to note_key Within
  comment-Within rest p c m h =
      elim (Bool-cases (is_empty (api.comment_at view (apply_rebase rebase c.addr)))) [
        | inl e ↦ ground (arith, h, e)
        | inr e ↦ ground (arith, h, e, m e)
      ]

  pub flags-Within :
      (rest : List GhidraFuncFlags) (s : Progress api.View × FlagTags api.handles.TagType)
      (ff : GhidraFuncFlags)
      → Within b 0 0 0 0 0 (length (ff ∷ rest)) s.0.result
      → Within b 0 0 0 0 0 (length rest) (apply_flags api s ff).0.result
  unfolding apply_flags apply_flags_to Within
  flags-Within rest (p, tags) ff h = ground (arith, h)
