-- ===== src/Collect/Symbols.antt =====
-- `collectCheckinChanges`, lines on symbols: renamed ones, and new ones that Ghidra had no record of.
use ghidra_svr_bridge.Prelude.{
  ℕ, Bool, true, false, not, ◌||◌, ◌&&◌, List, [], ◌∷◌, Option, none, some, Str, ℤ, ◌==◌, nat_eq,
  str_eq, if◌then◌else◌, is_empty, filter_map, lookup, has, member, get_or, is_some,
}
use ghidra_svr_bridge.Names.{is_auto_generated_symbol_name}
use ghidra_svr_bridge.Model.Preview.{SymbolRename, NewSymbol}
use ghidra_svr_bridge.Model.Baseline.{CheckinState}
use ghidra_svr_bridge.Model.View.{
  BnSymbol, BnSymbolType, function_symbol, imported_function_symbol, data_symbol,
  local_label_symbol, other_symbol, BnView,
}

abbrev pub original_name : CheckinState → ℕ → Str
original_name s addr = get_or (lookup addr s.addr_to_original_name) []

-- The body of the loop over `m_addrToKey`.
unfoldable pub rename_of : BnView → CheckinState → ℕ × ℤ → Option SymbolRename
rename_of view s (bn_addr, key) = elim (view.symbol_at bn_addr) [
  | none ↦ none
  | some sym ↦
      if sym.full_name == original_name s bn_addr
      then none
      else some (record {
        key = key;
        addr = bn_addr;
        original_name = original_name s bn_addr;
        new_name = sym.full_name;
      })
]

unfoldable pub collect_renames : BnView → CheckinState → List SymbolRename
collect_renames view s = filter_map (rename_of view s) s.addr_to_key

abbrev pub is_collected_type : BnSymbolType → Bool
is_collected_type function_symbol = true
is_collected_type data_symbol = true
is_collected_type local_label_symbol = true
is_collected_type imported_function_symbol = false
is_collected_type other_symbol = false

abbrev pub is_function_symbol : BnSymbolType → Bool
is_function_symbol function_symbol = true
is_function_symbol _ = false

-- The rest of the loop's body, for the first symbol at an address that Ghidra does not know.
unfoldable pub new_symbol_of : CheckinState → BnSymbol → Option NewSymbol
new_symbol_of s sym =
    if not (is_collected_type sym.symbol_type)
    then none
    else if is_empty sym.full_name || is_auto_generated_symbol_name sym.full_name
    then none
    else if is_some (lookup sym.address s.addr_to_original_name)
        && original_name s sym.address == sym.full_name
    then none
    else some (record {
      addr = sym.address;
      name = sym.full_name;
      is_function = is_function_symbol sym.symbol_type;
    })

abbrev pub prepend {ℓ} : {A : Type ℓ} → Option A → List A → List A
prepend none xs = xs
prepend (some x) xs = x ∷ xs

-- The loop over `GetSymbols()`, with `seenAddrs`.
unfoldable pub new_symbols_from : CheckinState → List ℕ → List BnSymbol → List NewSymbol
new_symbols_from s seen [] = []
new_symbols_from s seen (sym ∷ syms) =
    let skip = has sym.address s.addr_to_key || member sym.address seen in
    prepend (if skip then none else new_symbol_of s sym)
      (new_symbols_from s (if skip then seen else sym.address ∷ seen) syms)

unfoldable pub collect_new_symbols : BnView → CheckinState → List NewSymbol
collect_new_symbols view s = new_symbols_from s [] view.symbols
