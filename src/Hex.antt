-- ===== src/Hex.antt =====
-- plugin/src/GhidraJson.cpp, `toHex` and `parseHexAddr`: addresses as text on the wire. `snprintf`
-- and `strtoull` are those of the C library.
pub mod RoundTrip
use ghidra_svr_bridge.Prelude.{
  ℕ, zero, suc, ◌+◌, ◌-◌, ◌*◌, ◌/◌, ◌%◌, ◌^◌, Bool, true, false, not, ◌&&◌, ◌||◌, List, [], ◌∷◌,
  ◌++◌, Option, none, some, Str, codes, ltb, leb, ◌==◌, nat_eq, if◌then◌else◌,
}

abbrev pub word : ℕ
word = 2 ^ 64

-- The character that `%llx` prints for a digit.
unfoldable pub hex_digit : ℕ → ℕ
hex_digit d = if ltb d 10 then b'0' + d else b'a' + (d - 10)

-- The digits of a number that is not 0, on fuel: 16 digits are enough for 64 bits.
unfoldable pub hex_digits : ℕ → ℕ → Str
hex_digits zero v = []
hex_digits (suc fuel) v =
    let more = hex_digits fuel (v / 16) in if v == 0 then [] else more ++ hex_digit (v % 16) ∷ []

-- `snprintf(buf, sizeof(buf), "0x%llx", v)`
unfoldable pub to_hex : ℕ → Str
to_hex v = codes "0x" ++ (if v == 0 then codes "0" else hex_digits 16 v)

-- The value of a hexadecimal digit of either case.
unfoldable pub hex_value : ℕ → Option ℕ
hex_value c =
    if leb b'0' c && leb c b'9'
    then some (c - b'0')
    else if leb b'a' c && leb c b'f'
    then some (c - b'a' + 10)
    else if leb b'A' c && leb c b'F'
    then some (c - b'A' + 10)
    else none

-- The digits in front of a text, as a number, and with no bound yet.
pub read_digits : ℕ → Str → ℕ
unfolding hex_value
read_digits acc [] = acc
read_digits acc (c ∷ cs) = elim (hex_value c) [
  | none ↦ acc
  | some d ↦ read_digits (acc * 16 + d) cs
]

unfoldable pub is_space : ℕ → Bool
is_space c = c == b' ' || (leb 9 c && leb c 13)

unfoldable pub skip_space : Str → Str
unfolding is_space
skip_space [] = []
skip_space (c ∷ cs) = if is_space c then skip_space cs else c ∷ cs

-- `strtoull` takes a `0x` of its own before the digits.
pub skip_prefix : Str → Str
skip_prefix (a ∷ b ∷ cs) = if a == b'0' && (b == b'x' || b == b'X') then cs else a ∷ b ∷ cs
skip_prefix cs = cs

-- A value beyond 64 bits gives `ULLONG_MAX`; a minus sign negates in 64 bits.
pub saturate : Bool → ℕ → ℕ
saturate negative v = if leb word v then word - 1 else if negative then (word - v) % word else v

pub after_sign : Str → ℕ
unfolding skip_prefix
after_sign [] = 0
after_sign (c ∷ cs) =
    if c == b'-'
    then saturate true (read_digits 0 (skip_prefix cs))
    else if c == b'+'
    then saturate false (read_digits 0 (skip_prefix cs))
    else saturate false (read_digits 0 (skip_prefix (c ∷ cs)))

-- `std::strtoull(p, nullptr, 16)`
pub strtoull : Str → ℕ
unfolding after_sign
strtoull s = after_sign (skip_space s)

pub parse_hex_addr : Str → ℕ
unfolding skip_prefix
parse_hex_addr (a ∷ b ∷ cs) = strtoull (skip_prefix (a ∷ b ∷ cs))
parse_hex_addr _ = 0
