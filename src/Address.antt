-- ===== src/Address.antt =====
-- The rebase between the two programs' image bases, as plugin/src/SyncEngine.cpp (`applyToView`,
-- `buildWritebackMaps`) and plugin/src/GhidraConnection.cpp (`collectCheckinChanges`, `checkin`)
-- compute it. An `int64_t` delta is kept as its 64-bit pattern, and signed overflow wraps.
pub mod Laws
use ghidra_svr_bridge.Prelude.{ℕ, ◌+◌, ◌-◌, ◌%◌}
use ghidra_svr_bridge.Hex.{word}

-- `(int64_t)bnBase - (int64_t)ghidraBase`
unfoldable pub rebase_of : ℕ → ℕ → ℕ
rebase_of bn_base ghidra_base = (bn_base + word - ghidra_base) % word

-- `(uint64_t)((int64_t)addr + rebase)`
unfoldable pub apply_rebase : ℕ → ℕ → ℕ
apply_rebase rebase addr = (addr + rebase) % word

-- `(uint64_t)((int64_t)addr - rebase)`
unfoldable pub ghidra_va : ℕ → ℕ → ℕ
ghidra_va rebase addr = (addr + word - rebase) % word
