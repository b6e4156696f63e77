-- ===== src/Import/Symbols.antt =====
-- `applyToView`: Ghidra's symbols as names and functions of the view.
use ghidra_svr_bridge.Prelude.{
  ℕ, suc, Bool, true, not, ◌&&◌, Option, none, some, Str, pos, ltb, ◌==◌, nat_eq, int_eq, str_eq,
  if◌then◌else◌, is_empty, is_some, insert,
}
use ghidra_svr_bridge.Address.{apply_rebase}
use ghidra_svr_bridge.Names.{is_auto_gen_name}
use ghidra_svr_bridge.Model.Export.{GhidraSymbol}
use ghidra_svr_bridge.Model.View.{
  BnSymbolType, function_symbol, imported_function_symbol, data_symbol,
}
use ghidra_svr_bridge.Sync.Result.{SyncResult}
use ghidra_svr_bridge.Import.Api.{BnApi, define_user_symbol, create_user_function}
use ghidra_svr_bridge.Import.Progress.{Progress, function_starting}

-- `GhidraSymbolType::Function`, `GhidraSymbolType::External`
abbrev pub is_function : GhidraSymbol → Bool
is_function sym = sym.sym_type == pos 4

abbrev is_external : GhidraSymbol → Bool
is_external sym = sym.sym_type == pos 8

-- `bnType`
unfoldable pub bn_type : GhidraSymbol → BnSymbolType
bn_type sym =
    if is_function sym
    then function_symbol
    else if is_external sym
    then imported_function_symbol
    else data_symbol

-- `applyName`, on the full name of the symbol that is there.
unfoldable pub apply_name : Option Str → Str → Bool
apply_name none name = true
apply_name (some en) name = not (not (is_empty en) && not (en == name) && not (is_auto_gen_name en))

-- The counters, the range of addresses, the sample, and the maps.
unfoldable pub note_symbol : ℕ → GhidraSymbol → SyncResult → SyncResult
note_symbol addr sym r = record r {
  symbols_applied = suc r.symbols_applied;
  addr_min = if ltb addr r.addr_min then addr else r.addr_min;
  addr_max = if ltb r.addr_max addr then addr else r.addr_max;
  sample_symbol = if is_empty r.sample_symbol && is_function sym then sym.name else r.sample_symbol;
  addr_to_key = insert addr sym.key r.addr_to_key;
  addr_to_original_name = insert addr sym.name r.addr_to_original_name;
}

module _ (api : BnApi) where
  -- Ghidra's name, unless the view has a name that someone chose.
  unfoldable pub define_name : ℕ → GhidraSymbol → api.View → api.View
  define_name addr sym view =
      if apply_name (api.symbol_name_at view addr) sym.name
      then api.perform (define_user_symbol (bn_type sym) sym.name addr) view
      else view

  -- A function where none starts, if there is a default platform.
  unfoldable pub create_function :
      Option api.handles.Platform → ℕ → GhidraSymbol → Progress api.View → Progress api.View
  create_function none addr sym p = p
  create_function (some plat) addr sym p =
      if is_function sym && not (is_some (function_starting api p.view addr))
      then record p {
        view = api.perform (create_user_function plat addr) p.view;
        result = record p.result { functions_created = suc p.result.functions_created };
      }
      else p

  -- The body of the loop.
  unfoldable pub apply_symbol :
      Option api.handles.Platform → ℕ → Progress api.View → GhidraSymbol → Progress api.View
  apply_symbol plat rebase p sym =
      let addr = apply_rebase rebase sym.addr in
      let q = create_function plat addr sym (record p { view = define_name addr sym p.view }) in
      record q {
        result = note_symbol addr sym q.result;
        key_to_addr = if is_function sym then insert sym.key addr q.key_to_addr else q.key_to_addr;
      }
