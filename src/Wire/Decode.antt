-- ===== src/Wire/Decode.antt =====
-- `parseDbExportJson`, a function for each loop.
use ghidra_svr_bridge.Prelude.{
  ℕ, Bool, true, false, not, ◌||◌, List, [], Str, codes, pos, negsuc, Exc, ok, ◌>>=◌, traverse,
  ◌==◌, str_eq, if◌then◌else◌, is_empty, keep, map,
}
use ghidra_svr_bridge.Hex.{parse_hex_addr}
use ghidra_svr_bridge.Model.Export.{
  GhidraSymbol, GhidraComment, GhidraFuncFlags, GhidraFuncSig, GhidraEquateRef, GhidraEquate,
  GhidraBookmark, GhidraParameter, GhidraDataTypeMember, GhidraEnumValue, GhidraDataType,
  GhidraDataItem, GhidraMemoryBlock, GhidraXrefStats, GhidraDbExport,
}
use ghidra_svr_bridge.Wire.Library.{JsonLib}

module _ (lib : JsonLib) where
  abbrev text_of : lib.Json → Str → Exc Str
  text_of j k = lib.value_text j k []

  abbrev addr_of : lib.Json → Str → Exc ℕ
  addr_of j k = do t ← lib.value_text j k (codes "0x0"); ok (parse_hex_addr t)

  -- A loop over a member that need not be there.
  unfoldable pub elements {ℓ} : {A : Type ℓ} → (lib.Json → Exc A) → lib.Json → Str → Exc (List A)
  elements decode j k = if lib.contains j k then traverse decode (lib.items (lib.at j k)) else ok []

  unfoldable pub decode_symbol : lib.Json → Exc GhidraSymbol
  decode_symbol j = do
    k ← lib.value_long j (codes "key") (pos 0)
    n ← text_of j (codes "name")
    a ← addr_of j (codes "addr")
    t ← lib.value_int j (codes "type") (pos 0)
    s ← lib.value_int j (codes "source") (pos 0)
    ns ← lib.value_long j (codes "ns") (pos 0)
    ok (record { key = k; name = n; addr = a; sym_type = t; source = s; namespace_id = ns })

  unfoldable pub decode_comment : lib.Json → Exc GhidraComment
  decode_comment j = do
    a ← addr_of j (codes "addr")
    k ← text_of j (codes "key")
    e ← text_of j (codes "eol")
    b ← text_of j (codes "pre")
    p ← text_of j (codes "post")
    h ← text_of j (codes "plate")
    r ← text_of j (codes "rep")
    ok (record { addr = a; eol = e; pre = b; post = p; plate = h; rep = r; encoded_key = k })

  -- One element of `func_flags`: the flags, and what becomes a signature.
  unfoldable pub decode_func : lib.Json → Exc (GhidraFuncFlags × GhidraFuncSig)
  decode_func j = do
    k ← lib.value_long j (codes "key") (pos 0)
    t ← lib.value_bool j (codes "thunk") false
    n ← lib.value_bool j (codes "no_ret") false
    i ← lib.value_bool j (codes "inline") false
    c ← text_of j (codes "cc")
    r ← text_of j (codes "ret_type")
    d ← lib.value_long j (codes "ret_type_id") (negsuc 0)
    ok (
      record { key = k; is_thunk = t; no_return = n; is_inline = i },
      record { key = k; calling_convention = c; return_type_name = r; return_type_id = d },
    )

  abbrev pub has_sig : GhidraFuncFlags × GhidraFuncSig → Bool
  has_sig f = not (is_empty f.1.calling_convention) || not (is_empty f.1.return_type_name)

  unfoldable pub decode_equate_ref : lib.Json → Exc GhidraEquateRef
  decode_equate_ref j = do
    a ← addr_of j (codes "addr")
    o ← lib.value_int j (codes "op_index") (pos 0)
    ok (record { addr = a; op_index = o })

  unfoldable pub decode_equate : lib.Json → Exc GhidraEquate
  decode_equate j = do
    i ← lib.value_long j (codes "id") (pos 0)
    n ← text_of j (codes "name")
    v ← lib.value_long j (codes "value") (pos 0)
    rs ← elements decode_equate_ref j (codes "refs")
    ok (record { id = i; name = n; value = v; refs = rs })

  unfoldable pub decode_bookmark : lib.Json → Exc GhidraBookmark
  decode_bookmark j = do
    t ← text_of j (codes "type")
    a ← addr_of j (codes "addr")
    c ← text_of j (codes "category")
    n ← text_of j (codes "comment")
    ok (record { bm_type = t; addr = a; category = c; comment = n })

  unfoldable pub decode_parameter : lib.Json → Exc GhidraParameter
  decode_parameter j = do
    k ← lib.value_long j (codes "key") (pos 0)
    a ← addr_of j (codes "func_addr")
    n ← text_of j (codes "name")
    p ← lib.value_bool j (codes "is_param") true
    o ← lib.value_int j (codes "ordinal") (pos 0)
    t ← text_of j (codes "type_name")
    i ← lib.value_long j (codes "type_id") (negsuc 0)
    ok (record {
      key = k;
      func_addr = a;
      name = n;
      is_param = p;
      ordinal = o;
      type_name = t;
      type_id = i;
    })

  unfoldable pub decode_member : lib.Json → Exc GhidraDataTypeMember
  decode_member m = do
    o ← lib.value_int m (codes "offset") (pos 0)
    i ← lib.value_long m (codes "type_id") (pos 0)
    n ← text_of m (codes "name")
    c ← text_of m (codes "comment")
    w ← lib.value_int m (codes "size") (pos 0)
    k ← lib.value_int m (codes "ordinal") (pos 0)
    t ← text_of m (codes "type_name")
    ok (record {
      offset = o;
      type_id = i;
      name = n;
      comment = c;
      size = w;
      ordinal = k;
      type_name = t;
    })

  unfoldable pub decode_value : lib.Json → Exc GhidraEnumValue
  decode_value v = do
    n ← text_of v (codes "name")
    x ← lib.value_long v (codes "value") (pos 0)
    c ← text_of v (codes "comment")
    ok (record { name = n; value = x; comment = c })

  unfoldable pub decode_data_type : lib.Json → Exc GhidraDataType
  decode_data_type j = do
    i ← lib.value_long j (codes "id") (pos 0)
    k ← text_of j (codes "kind")
    n ← text_of j (codes "name")
    c ← text_of j (codes "comment")
    w ← lib.value_int j (codes "size") (pos 0)
    u ← lib.value_long j (codes "underlying_type_id") (pos 0)
    un ← (if k == codes "typedef" then text_of j (codes "underlying_name") else ok [])
    ms ← elements decode_member j (codes "members")
    vs ← elements decode_value j (codes "values")
    ok (record {
      id = i;
      kind = k;
      name = n;
      comment = c;
      size = w;
      underlying_type_id = u;
      underlying_type_name = un;
      members = ms;
      values = vs;
    })

  unfoldable pub decode_data_item : lib.Json → Exc GhidraDataItem
  decode_data_item j = do
    a ← addr_of j (codes "addr")
    i ← lib.value_long j (codes "type_id") (pos 0)
    ok (record { addr = a; type_id = i })

  unfoldable pub decode_memory_block : lib.Json → Exc GhidraMemoryBlock
  decode_memory_block j = do
    n ← text_of j (codes "name")
    a ← addr_of j (codes "addr")
    w ← addr_of j (codes "size")
    r ← lib.value_bool j (codes "r") true
    x ← lib.value_bool j (codes "w") false
    e ← lib.value_bool j (codes "x") false
    i ← lib.value_bool j (codes "initialized") true
    o ← lib.value_bool j (codes "overlay") false
    ok (record {
      name = n;
      addr = a;
      size = w;
      read = r;
      write = x;
      execute = e;
      initialized = i;
      overlay = o;
    })

  unfoldable pub decode_xref_stats : lib.Json → Exc GhidraXrefStats
  decode_xref_stats xs = do
    f ← lib.value_int xs (codes "from_count") (pos 0)
    t ← lib.value_int xs (codes "to_count") (pos 0)
    ok (record { from_count = f; to_count = t })

  -- The statistics need not be there.
  abbrev xref_stats_of : lib.Json → Exc GhidraXrefStats
  xref_stats_of resp =
      if lib.contains resp (codes "xref_stats")
      then decode_xref_stats (lib.at resp (codes "xref_stats"))
      else ok (record { from_count = pos 0; to_count = pos 0 })

  unfoldable pub parse_db_export_json : lib.Json → Exc GhidraDbExport
  parse_db_export_json resp = do
    base ← addr_of resp (codes "image_base")
    dg ← elements lib.get_text resp (codes "diag")
    ss ← elements decode_symbol resp (codes "symbols")
    cs ← elements decode_comment resp (codes "comments")
    fs ← elements decode_func resp (codes "func_flags")
    es ← elements decode_equate resp (codes "equates")
    bs ← elements decode_bookmark resp (codes "bookmarks")
    ps ← elements decode_parameter resp (codes "parameters")
    ts ← elements decode_data_type resp (codes "data_types")
    ds ← elements decode_data_item resp (codes "data_items")
    ms ← elements decode_memory_block resp (codes "memory_blocks")
    xs ← xref_stats_of resp
    ok (record {
      symbols = ss;
      comments = cs;
      func_flags = map (λ (f : GhidraFuncFlags × GhidraFuncSig). f.0) fs;
      func_sigs = map (λ (f : GhidraFuncFlags × GhidraFuncSig). f.1) (keep has_sig fs);
      equates = es;
      bookmarks = bs;
      parameters = ps;
      data_types = ts;
      data_items = ds;
      memory_blocks = ms;
      xref_stats = xs;
      diag = dg;
      image_base = base;
    })
