-- ===== src/Process/Output.antt =====
-- The output of the bridge's process: `readReadyLine` on its standard output, byte by byte, and the
-- logger of its diagnostic output.
use ghidra_svr_bridge.Prelude.{
  ℕ, zero, suc, ◌^◌, Bool, true, false, ◌&&◌, List, [], ◌∷◌, ◌++◌, Option, none, some, Str, codes,
  ℤ, pos, negsuc, Exc, ok, throw, ltb, leb, ◌==◌, nat_eq, if◌then◌else◌, is_empty, drop, fold,
  decimal_prefix,
}
use ghidra_svr_bridge.Hex.{skip_space}
use ghidra_svr_bridge.Names.Text.{starts_with}
use ghidra_svr_bridge.Client.Framing.{strip_cr}

-- `std::stoi`, which throws without a digit, and beyond an `int`.
abbrev int_within : Bool → ℕ → Exc ℤ
int_within false v = if ltb v (2 ^ 31) then ok (pos v) else throw (codes "stoi")
int_within true zero = ok (pos 0)
int_within true (suc v) = if ltb v (2 ^ 31) then ok (negsuc v) else throw (codes "stoi")

unfoldable pub int_digits : Bool → Str → Exc ℤ
int_digits negative [] = throw (codes "stoi")
int_digits negative (c ∷ s) =
    if leb b'0' c && leb c b'9'
    then int_within negative (decimal_prefix 0 (c ∷ s))
    else throw (codes "stoi")

unfoldable pub int_signed : Str → Exc ℤ
int_signed [] = throw (codes "stoi")
int_signed (c ∷ s) =
    if c == b'-'
    then int_digits true s
    else if c == b'+'
    then int_digits false s
    else int_digits false (c ∷ s)

unfoldable pub stoi : Str → Exc ℤ
stoi s = int_signed (skip_space s)

-- `kPrefix`
abbrev pub ready_prefix : Str
ready_prefix = codes "READY port="

-- The port of a line, if it is the handshake.
unfoldable pub port_of : Str → Option (Exc ℤ)
port_of line = if starts_with ready_prefix line then some (stoi (drop 11 line)) else none

-- `readReadyLine`, on the line so far and the bytes that the process writes until it closes its
-- output: `none` where that happens before a handshake.
unfoldable pub read_ready_line : Str → Str → Option (Exc ℤ)
read_ready_line line [] = none
read_ready_line line (ch ∷ output) = elim (ch == b'\n') [
  | true ↦ elim (port_of (strip_cr line)) [
    | some port ↦ some port
    | none ↦ read_ready_line [] output
  ]
  | false ↦ read_ready_line (line ++ ch ∷ []) output
]

-- The logger: `line` and the lines that are logged, behind one byte.
unfoldable pub log_byte : Str × List Str → ℕ → Str × List Str
log_byte (line, logged) c =
    if c == b'\n'
    then ([], if is_empty (strip_cr line) then logged else logged ++ strip_cr line ∷ [])
    else (line ++ c ∷ [], logged)

-- One answer of `read`.
unfoldable pub log_chunk : Str × List Str → Str → Str × List Str
log_chunk s chunk = fold log_byte s chunk

abbrev flush : Str × List Str → List Str
flush (line, logged) = if is_empty line then logged else logged ++ line ∷ []

-- The thread, on the answers of `read` until the end.
unfoldable pub log_chunks : List Str → List Str
log_chunks chunks = flush (fold log_chunk ([], []) chunks)
