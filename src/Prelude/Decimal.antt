-- ===== src/Prelude/Decimal.antt =====
-- `std::to_string` of a 64-bit integer, and the names of constants.
use Prim.Native.Nat.{ℕ, zero, suc, ◌+◌, ◌-◌, ◌*◌, ◌/◌, ◌%◌}
use mathlib.Core.Bool.{◌&&◌}
use mathlib.Core.List.{[], ◌∷◌, ◌++◌}
use ghidra_svr_bridge.Prelude.Tests.{ltb, leb, if◌then◌else◌}
use ghidra_svr_bridge.Prelude.Equality.{ℤ, pos, negsuc, Str}

-- Twenty digits are enough for 64 bits.
unfoldable pub decimal_digits : ℕ → ℕ → Str
decimal_digits zero n = []
decimal_digits (suc fuel) n =
    let more = decimal_digits fuel (n / 10) in
    if ltb n 10 then (b'0' + n) ∷ [] else more ++ (b'0' + n % 10) ∷ []

unfoldable pub nat_to_string : ℕ → Str
nat_to_string n = decimal_digits 20 n

unfoldable pub int_to_string : ℤ → Str
int_to_string (pos n) = nat_to_string n
int_to_string (negsuc n) = b'-' ∷ nat_to_string (suc n)

-- The number that the decimal digits in front of a text spell, behind those of `acc`.
unfoldable pub decimal_prefix : ℕ → Str → ℕ
decimal_prefix acc [] = acc
decimal_prefix acc (c ∷ s) =
    let more = decimal_prefix (acc * 10 + (c - b'0')) s in
    if leb b'0' c && leb c b'9' then more else acc
