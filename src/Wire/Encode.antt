-- ===== src/Wire/Encode.antt =====
-- `buildCheckinJson`, a function for each loop's body.
use ghidra_svr_bridge.Prelude.{
  ℕ, List, [], ◌∷◌, ◌++◌, Str, codes, pos, Map, nat_eq, str_eq, if◌then◌else◌, is_empty, map,
  lookup, insert, has, get_or,
}
use ghidra_svr_bridge.Hex.{to_hex}
use ghidra_svr_bridge.Address.{ghidra_va}
use ghidra_svr_bridge.Model.Preview.{
  SymbolRename, NewSymbol, CommentChange, EquateRename, NewEquateRef, BookmarkChange, ParamRename,
  NewParam, TypeMember, TypeValue, DataTypeChange, DataItemChange, FuncSigChange,
  GhidraCheckinPreview,
}
use ghidra_svr_bridge.Wire.Library.{JsonLib}

-- `addrToCommentField[addr]`, or the end of the line.
abbrev pub column_of : Map ℕ Str → ℕ → Str
column_of fields addr = get_or (lookup addr fields) (codes "eol")

-- The column of Ghidra's that a comment is written to.
unfoldable pub route : Map ℕ Str → Map ℕ Str → ℕ → Str
route func_comments fields addr =
    if has addr func_comments then codes "plate" else column_of fields addr

module _ (lib : JsonLib) where
  abbrev pub Entry : Type 0
  Entry = Map Str lib.Json

  -- `entry[key] = text`, for a text that is not empty.
  abbrev pub set_text : Str → Str → Entry → Entry
  set_text k t e = if is_empty t then e else insert k (lib.of_text t) e

  unfoldable pub rename_entry : SymbolRename → Entry
  rename_entry r = (codes "key", lib.of_int r.key) ∷ (codes "name", lib.of_text r.new_name) ∷ []

  unfoldable pub new_symbol_entry : ℕ → NewSymbol → Entry
  new_symbol_entry rebase s =
      (codes "va", lib.of_text (to_hex (ghidra_va rebase s.addr)))
      ∷ (codes "name", lib.of_text s.name)
      ∷ (codes "sym_type", lib.of_int (if s.is_function then pos 5 else pos 0))
      ∷ []

  unfoldable pub comment_entry : ℕ → Map ℕ Str → Map ℕ Str → CommentChange → Entry
  comment_entry rebase func_comments fields c = set_text (codes "key") c.encoded_key (
      insert (route func_comments fields c.addr) (lib.of_text c.text)
        ((codes "va", lib.of_text (to_hex (ghidra_va rebase c.addr))) ∷ []))

  unfoldable pub equate_rename_entry : EquateRename → Entry
  equate_rename_entry r = (codes "id", lib.of_int r.id) ∷ (codes "name", lib.of_text r.name) ∷ []

  unfoldable pub equate_ref_entry : ℕ → NewEquateRef → Entry
  equate_ref_entry rebase r =
      (codes "id", lib.of_int r.equate_id)
      ∷ (codes "va", lib.of_text (to_hex (ghidra_va rebase r.addr)))
      ∷ (codes "op_index", lib.of_int r.op_index)
      ∷ []

  unfoldable pub bookmark_entry : ℕ → BookmarkChange → Entry
  bookmark_entry rebase b =
      (codes "op", lib.of_text b.op)
      ∷ (codes "type", lib.of_text b.bm_type)
      ∷ (codes "addr", lib.of_text (to_hex (ghidra_va rebase b.addr)))
      ∷ (codes "category", lib.of_text b.category)
      ∷ (codes "comment", lib.of_text b.comment)
      ∷ []

  unfoldable pub param_entry : ParamRename → Entry
  param_entry r =
      set_text (codes "type_name") r.type_name
        ((codes "key", lib.of_int r.key) ∷ (codes "name", lib.of_text r.name) ∷ [])

  unfoldable pub new_param_entry : ℕ → NewParam → Entry
  new_param_entry rebase p = set_text (codes "type_name") p.type_name (
      (codes "func_va", lib.of_text (to_hex (ghidra_va rebase p.func_addr)))
      ∷ (codes "ordinal", lib.of_int p.ordinal)
      ∷ (codes "name", lib.of_text p.name)
      ∷ (codes "is_local", lib.of_bool p.is_local)
      ∷ [])

  abbrev member_json : TypeMember → lib.Json
  member_json m = lib.object (
      (codes "name", lib.of_text m.name)
      ∷ (codes "offset", lib.of_int m.offset)
      ∷ (codes "size", lib.of_int m.size)
      ∷ (codes "type_name", lib.of_text m.type_name)
      ∷ [])

  abbrev value_json : TypeValue → lib.Json
  value_json v =
      lib.object ((codes "name", lib.of_text v.name) ∷ (codes "value", lib.of_int v.value) ∷ [])

  -- `j[key] = array`, for an array that is not empty.
  abbrev set_array : Str → List lib.Json → Entry → Entry
  set_array k js e = if is_empty js then e else insert k (lib.array js) e

  unfoldable pub data_type_entry : DataTypeChange → Entry
  data_type_entry dt = set_text (codes "underlying_type_name") dt.underlying_type_name (
      set_array (codes "values") (map value_json dt.values) (
        set_array (codes "members") (map member_json dt.members) (
          (codes "op", lib.of_text dt.op)
          ∷ (codes "kind", lib.of_text dt.kind)
          ∷ (codes "name", lib.of_text dt.name)
          ∷ (codes "ghidra_id", lib.of_int dt.ghidra_id)
          ∷ (codes "size", lib.of_int dt.size)
          ∷ [])))

  unfoldable pub data_item_entry : ℕ → DataItemChange → Entry
  data_item_entry rebase di =
      (codes "op", lib.of_text di.op)
      ∷ (codes "addr", lib.of_text (to_hex (ghidra_va rebase di.addr)))
      ∷ (codes "type_name", lib.of_text di.type_name)
      ∷ []

  unfoldable pub func_sig_entry : FuncSigChange → Entry
  func_sig_entry fs =
      set_text (codes "ret_type") fs.return_type_name
        (set_text (codes "cc") fs.calling_convention ((codes "key", lib.of_int fs.key) ∷ []))

  abbrev pub entries {ℓ} : {A : Type ℓ} → (A → Entry) → List A → List lib.Json
  entries f xs = map (λ x. lib.object (f x)) xs

  unfoldable pub build_checkin_json :
      GhidraCheckinPreview → ℕ → Map ℕ Str → Map ℕ Str → Map Str lib.Json
  build_checkin_json p rebase func_comments fields =
      (
        codes "symbols",
        lib.array
            (entries rename_entry p.renames ++ entries (new_symbol_entry rebase) p.new_symbols),
      )
      ∷ (
        codes "comments",
        lib.array (entries (comment_entry rebase func_comments fields) p.comments),
      )
      ∷ (codes "equate_renames", lib.array (entries equate_rename_entry p.equate_renames))
      ∷ (codes "equate_ref_adds", lib.array (entries (equate_ref_entry rebase) p.new_equate_refs))
      ∷ (codes "bookmark_changes", lib.array (entries (bookmark_entry rebase) p.bookmark_changes))
      ∷ (
        codes "param_renames",
        lib.array
            (entries param_entry p.param_renames ++ entries (new_param_entry rebase) p.new_params),
      )
      ∷ (codes "data_type_changes", lib.array (entries data_type_entry p.data_type_changes))
      ∷ (
        codes "data_item_changes",
        lib.array (entries (data_item_entry rebase) p.data_item_changes),
      )
      ∷ (codes "func_sig_changes", lib.array (entries func_sig_entry p.func_sig_changes))
      ∷ []
