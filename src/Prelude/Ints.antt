-- ===== src/Prelude/Ints.antt =====
-- `static_cast<int>` of a wider integer.
use Prim.Native.Nat.{ℕ, ◌-◌, ◌%◌, ◌^◌}
use ghidra_svr_bridge.Prelude.Tests.{ltb, if◌then◌else◌}
use ghidra_svr_bridge.Prelude.Equality.{ℤ, pos, negsuc}

-- The low 32 bits of a number, as an `int`.
unfoldable pub int_of_low : ℕ → ℤ
int_of_low n = if ltb n (2 ^ 31) then pos n else negsuc (2 ^ 32 - 1 - n)

unfoldable pub to_int : ℤ → ℤ
to_int (pos n) = int_of_low (n % 2 ^ 32)
to_int (negsuc n) = int_of_low (2 ^ 32 - 1 - n % 2 ^ 32)
