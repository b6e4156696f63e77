-- ===== src/Address/Laws.antt =====
-- The two directions of the rebase are inverse to one another on 64-bit addresses.
use ghidra_svr_bridge.Prelude.{ℕ, ◌+◌, ◌<◌, ◌≡◌, arith}
use ghidra_svr_bridge.Hex.{word}
use ghidra_svr_bridge.Address.{rebase_of, apply_rebase, ghidra_va}

pub rebase_of-lt : (bn_base ghidra_base : ℕ) → rebase_of bn_base ghidra_base < word
unfolding rebase_of
rebase_of-lt bn_base ghidra_base = omega arith

pub apply_rebase-lt : (rebase addr : ℕ) → apply_rebase rebase addr < word
unfolding apply_rebase
apply_rebase-lt rebase addr = omega arith

pub ghidra_va-lt : (rebase addr : ℕ) → ghidra_va rebase addr < word
unfolding ghidra_va
ghidra_va-lt rebase addr = omega arith

pub ghidra_va-apply_rebase :
    (rebase addr : ℕ)
    → rebase < word
    → addr < word
    → ghidra_va rebase (apply_rebase rebase addr) ≡ addr
unfolding apply_rebase ghidra_va
ghidra_va-apply_rebase rebase addr r a = omega arith

pub apply_rebase-ghidra_va :
    (rebase addr : ℕ)
    → rebase < word
    → addr < word
    → apply_rebase rebase (ghidra_va rebase addr) ≡ addr
unfolding apply_rebase ghidra_va
apply_rebase-ghidra_va rebase addr r a = omega arith

-- An offset from Ghidra's base is the same offset from the view's base.
pub apply_rebase_offset :
    (bn_base ghidra_base offset : ℕ)
    → ghidra_base < word
    → bn_base + offset < word
    → apply_rebase (rebase_of bn_base ghidra_base) (ghidra_base + offset) ≡ bn_base + offset
unfolding apply_rebase rebase_of
apply_rebase_offset bn_base ghidra_base offset g b = omega arith
