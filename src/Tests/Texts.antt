-- ===== src/Tests/Texts.antt =====
-- The theorems on addresses and names, at work.
use ghidra_svr_bridge.Prelude.{◌+◌, ◌≡◌, true, codes, ◌↔◌, arith}
use ghidra_svr_bridge.Hex.{to_hex, parse_hex_addr}
use ghidra_svr_bridge.Hex.RoundTrip.{parse_hex_addr-to_hex}
use ghidra_svr_bridge.Address.{rebase_of, apply_rebase}
use ghidra_svr_bridge.Address.Laws.{apply_rebase_offset}
use ghidra_svr_bridge.Names.{is_auto_generated_symbol_name}
use ghidra_svr_bridge.Names.AutoNames.{AutoName, is_auto_generated_symbol_name_iff}

parse_hex_addr-to_hex_example : parse_hex_addr (to_hex 4198400) ≡ 4198400
parse_hex_addr-to_hex_example = parse_hex_addr-to_hex 4198400 (omega arith)

apply_rebase_offset_example : apply_rebase (rebase_of 4194304 65536) (65536 + 64) ≡ 4194304 + 64
apply_rebase_offset_example = apply_rebase_offset 4194304 65536 64 (omega arith) (omega arith)

is_auto_generated_symbol_name_iff_example :
    (is_auto_generated_symbol_name (codes "j_sub_401000") ≡ true) ↔ AutoName (codes "j_sub_401000")
is_auto_generated_symbol_name_iff_example = is_auto_generated_symbol_name_iff (codes "j_sub_401000")
