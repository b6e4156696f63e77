-- ===== src/Tests/Imports.antt =====
-- The theorems on an import into a view, at work on a small stand-in for the API.
use ghidra_svr_bridge.Prelude.{
  Str, arith, true, false, [], ◌∷◌, some, codes, pos, ◌≡◌, refl, inl, is_some, lookup, str_beq,
  int_beq, str_eq, nat_eq,
}
use ghidra_svr_bridge.Address.{rebase_of, apply_rebase}
use ghidra_svr_bridge.Names.{
  is_auto_gen_name, canonical_type_name, canonical, canonical_step, base_name, strip_loop,
  strip_round, fold_alias,
}
use ghidra_svr_bridge.Names.Text.{trim, drop_while, rtrim, rfind}
use ghidra_svr_bridge.Model.Export.{
  GhidraSymbol, GhidraComment, GhidraMemoryBlock, GhidraFuncFlags, GhidraDbExport,
}
use ghidra_svr_bridge.Sync.Writeback.{build_writeback_maps}
use ghidra_svr_bridge.Import.Progress.{function_starting}
use ghidra_svr_bridge.Import.TypeNames.{named, or_hinted, prim_type, resolve_type_name}
use ghidra_svr_bridge.Import.TypeNames.Spelled.{
  TypeExpr, base, pointer, array, spelled, Known, meant, resolve_type_name-spelled,
}
use ghidra_svr_bridge.Import.TypeNames.Aliases.{same_canonical-same_type}
use ghidra_svr_bridge.Import.Apply.{apply_export, apply_to_view}
use ghidra_svr_bridge.Import.Maps.{writeback_part, apply_to_view-writeback}
use ghidra_svr_bridge.Import.Tally.{SegmentLaws, IsCounted}
use ghidra_svr_bridge.Import.Counts.{apply_to_view-IsCounted}
use ghidra_svr_bridge.Import.Kept.Comments.{comments-kept}
use ghidra_svr_bridge.Import.Kept.Names.{IsChosen, names-kept}
use ghidra_svr_bridge.Import.Kept.Functions.{functions-made}
use ghidra_svr_bridge.Import.Kept.Duplicates.{is_free, first_symbol-named}
use ghidra_svr_bridge.Import.Kept.Baseline.{duplicate-recorded}
use ghidra_svr_bridge.Tests.Views.{
  SmallView, small_api, small-CommentLaws, small-NameLaws, small-LeavesFree, small-FunctionLaws,
}

abbrev main_function : GhidraSymbol
main_function = record {
  key = pos 7;
  name = codes "main";
  addr = 16;
  sym_type = pos 4;
  source = pos 0;
  namespace_id = pos 0;
}

-- A label at the function's address.
abbrev entry_label : GhidraSymbol
entry_label = record main_function { key = pos 9; name = codes "entry"; sym_type = pos 0 }

abbrev start_comment : GhidraComment
start_comment = record {
  addr = 16;
  eol = codes "start";
  pre = [];
  post = [];
  plate = codes "Entry point.";
  rep = [];
  encoded_key = codes "k1";
}

abbrev text_block : GhidraMemoryBlock
text_block = record {
  name = codes ".text";
  addr = 0;
  size = 64;
  read = true;
  write = false;
  execute = true;
  initialized = true;
  overlay = false;
}

abbrev main_flags : GhidraFuncFlags
main_flags = record { key = pos 7; is_thunk = true; no_return = false; is_inline = false }

abbrev small_export : GhidraDbExport
small_export = record {
  symbols = main_function ∷ entry_label ∷ [];
  comments = start_comment ∷ [];
  func_flags = main_flags ∷ [];
  func_sigs = [];
  equates = [];
  bookmarks = [];
  parameters = [];
  data_types = [];
  data_items = [];
  memory_blocks = text_block ∷ [];
  xref_stats = record { from_count = pos 0; to_count = pos 0 };
  diag = [];
  image_base = 0;
}

abbrev bare_view : SmallView
bare_view = record { comments = []; names = []; functions = []; types = []; tag_types = [] }

-- The user has named the function and has a comment at it.
abbrev worked_view : SmallView
worked_view = record bare_view {
  comments = (4112, codes "mine") ∷ [];
  names = (4112, codes "boot") ∷ [];
}

apply_to_view-writeback_example :
    writeback_part (apply_to_view small_api (some bare_view) small_export).1
    ≡ writeback_part (build_writeback_maps (some 4096) small_export)
apply_to_view-writeback_example = apply_to_view-writeback small_api (some bare_view) small_export

small-SegmentLaws : SegmentLaws small_api
small-SegmentLaws = record { kept = λ e a v h. h }

apply_to_view-IsCounted_example :
    IsCounted small_api worked_view small_export
      (apply_to_view small_api (some worked_view) small_export).1
apply_to_view-IsCounted_example =
    apply_to_view-IsCounted small_api small-SegmentLaws small-FunctionLaws small-CommentLaws
      worked_view small_export

boot-IsChosen : IsChosen (codes "boot")
unfolding is_auto_gen_name
boot-IsChosen = record { filled = refl; not_made_up = refl }

main-IsChosen : IsChosen (codes "main")
unfolding is_auto_gen_name
main-IsChosen = record { filled = refl; not_made_up = refl }

comments-kept_example :
    small_api.comment_at (apply_export small_api worked_view small_export).0 4112 ≡ codes "mine"
unfolding lookup
comments-kept_example = comments-kept small_api small-CommentLaws worked_view small_export 4112 refl

names-kept_example :
    small_api.symbol_name_at (apply_export small_api worked_view small_export).0 4112
    ≡ some (codes "boot")
unfolding lookup
names-kept_example =
    names-kept small_api small-NameLaws worked_view small_export 4112 (codes "boot") boot-IsChosen
      refl

functions-made_example :
    is_some (function_starting small_api (apply_export small_api bare_view small_export).0 4112)
    ≡ true
unfolding rebase_of apply_rebase int_beq
functions-made_example =
    functions-made small_api small-FunctionLaws bare_view small_export (codes "linux-x86_64")
      main_function refl (inl refl) refl

first_symbol-named_example :
    small_api.symbol_name_at (apply_export small_api bare_view small_export).0 4112
    ≡ some (codes "main")
unfolding rebase_of apply_rebase lookup is_free
first_symbol-named_example =
    first_symbol-named small_api small-NameLaws bare_view small_export [] (entry_label ∷ [])
      main_function (small-LeavesFree 4112) refl tt refl main-IsChosen

duplicate-recorded_example :
    (small_api.symbol_name_at (apply_export small_api bare_view small_export).0 4112
      ≡ some (codes "main"))
    × (lookup 4112 (apply_export small_api bare_view small_export).1.addr_to_original_name
        ≡ some (codes "entry"))
unfolding rebase_of apply_rebase lookup is_free
duplicate-recorded_example =
    duplicate-recorded small_api small-NameLaws bare_view small_export [] [] main_function
      entry_label (small-LeavesFree 4112) refl tt refl refl main-IsChosen

-- A pointer to an array of four pointers to `int`, with a blank in front of the inner star.
abbrev nested : TypeExpr
nested = pointer (array (pointer (base (codes "int")) 1) 4) 0

abbrev int_type : Str → small_api.handles.TypeRef
int_type n = small_api.integer_type 4 true

nested-Known : Known small_api bare_view int_type nested
unfolding named or_hinted prim_type lookup rtrim rfind str_beq
nested-Known = (
  (record { filled = refl; trimmed = refl; no_star = refl; no_bracket = refl }, refl),
  omega arith,
  omega arith,
)

resolve_type_name-spelled_example :
    resolve_type_name small_api bare_view (spelled nested) (pos 0)
    ≡ some (meant small_api bare_view int_type nested)
resolve_type_name-spelled_example =
    resolve_type_name-spelled small_api bare_view int_type nested nested-Known

same_spelling : canonical_type_name (codes "uint32_t") ≡ canonical_type_name (codes "dword")
unfolding lookup str_beq canonical_type_name canonical canonical_step base_name strip_loop
    strip_round trim drop_while rtrim rfind fold_alias
same_spelling = refl

same_canonical-same_type_example :
    resolve_type_name small_api bare_view (codes "uint32_t") (pos 0)
    ≡ resolve_type_name small_api bare_view (codes "dword") (pos 0)
unfolding lookup str_beq
same_canonical-same_type_example =
    same_canonical-same_type small_api bare_view (pos 0) (codes "uint32_t") (codes "dword")
      (record { width = 4; is_signed = false; is_float = false })
      (record { width = 4; is_signed = false; is_float = false }) refl refl refl refl same_spelling
