-- ===== src/Names.antt =====
-- Names in the two programs: which are made up by an analysis (`isAutoGenName` of
-- plugin/src/SyncEngine.cpp, `isAutoGeneratedSymbolName` and `isRegisterDefaultName` of
-- plugin/src/GhidraConnection.cpp), and which spellings mean one type or calling convention
-- (`canonicalTypeName`, `canonicalCCName` there).
pub mod Text
pub mod AutoNames
pub mod Digits
use Prim.Native.String.{String}
use ghidra_svr_bridge.Prelude.{
  ℕ, zero, suc, Bool, true, false, ◌&&◌, ◌||◌, List, [], ◌∷◌, ◌++◌, Option, none, some, Str, codes,
  leb, ltb, ◌==◌, nat_eq, str_eq, if◌then◌else◌, length, drop, take, all, any, is_empty, Map,
  lookup, member, get_or,
}
use Text.{starts_with, rfind, back, pop_back, trim, drop_while}

-- `hexSuffix`: from `offset` on at least four characters, and hexadecimal digits only.
abbrev pub is_hex_char : ℕ → Bool
is_hex_char c =
    (leb b'0' c && leb c b'9') || (leb b'a' c && leb c b'f') || (leb b'A' c && leb c b'F')

abbrev pub hex_suffix : Str → ℕ → Bool
hex_suffix n offset = leb 4 (length (drop offset n)) && all is_hex_char (drop offset n)

abbrev pub coded : Str → ℕ → Str → Bool
coded prefix offset n = starts_with prefix n && hex_suffix n offset

-- `isAutoGenName`, the test that the import makes.
unfoldable pub is_auto_gen_name : Str → Bool
is_auto_gen_name n =
    if coded (codes "sub_") 4 n
    then true
    else if coded (codes "FUN_") 4 n
    then true
    else if coded (codes "off_") 4 n
    then true
    else if coded (codes "unk_") 4 n
    then true
    else if coded (codes "j_") 2 n
    then true
    else false

-- The tests of `isAutoGeneratedSymbolName` before the recursive one.
unfoldable pub is_coded_name : Str → Bool
is_coded_name n =
    if coded (codes "sub_") 4 n
    then true
    else if coded (codes "FUN_") 4 n
    then true
    else if coded (codes "off_") 4 n
    then true
    else if coded (codes "unk_") 4 n
    then true
    else if coded (codes "data_") 5 n
    then true
    else if coded (codes "j_") 2 n
    then true
    else false

-- `isAutoGeneratedSymbolName`, the test that the check-in makes.
unfoldable pub is_auto_generated_symbol_name : Str → Bool
is_auto_generated_symbol_name [] = is_coded_name []
is_auto_generated_symbol_name (a ∷ []) = is_coded_name (a ∷ [])
is_auto_generated_symbol_name (a ∷ b ∷ n) =
    is_coded_name (a ∷ b ∷ n) || (a == b'j' && b == b'_' && is_auto_generated_symbol_name n)

-- `canonicalTypeName`, its parts. The keywords in the order of one round of the loop.
abbrev keywords : List Str
keywords =
    codes "struct "
    ∷ codes "union "
    ∷ codes "enum "
    ∷ codes "class "
    ∷ codes "const "
    ∷ codes "volatile "
    ∷ []

abbrev strip_prefix : Str → Str → Str
strip_prefix kw s = if starts_with kw s then drop (length kw) s else s

-- One round: the text that is left, and the flag `stripped`.
unfoldable pub strip_round : List Str → Str → Str × Bool
strip_round [] s = (s, false)
strip_round (kw ∷ kws) s =
    let (s', later) = strip_round kws (strip_prefix kw s) in (s', starts_with kw s || later)

-- The loop, on fuel: each round but the last takes a character at least.
unfoldable pub strip_loop : ℕ → Str → Str
strip_loop zero s = s
strip_loop (suc fuel) s =
    let (s', stripped) = strip_round keywords s in
    let more = strip_loop fuel s' in if stripped then more else s'

abbrev pub alias_row : String → String → Str × Str
alias_row a b = (codes a, codes b)

abbrev pub aliases : Map Str Str
aliases =
    alias_row "int8_t" "sbyte"
    ∷ alias_row "uint8_t" "byte"
    ∷ alias_row "int16_t" "short"
    ∷ alias_row "uint16_t" "ushort"
    ∷ alias_row "int32_t" "int"
    ∷ alias_row "uint32_t" "uint"
    ∷ alias_row "int64_t" "longlong"
    ∷ alias_row "uint64_t" "ulonglong"
    ∷ alias_row "size_t" "ulonglong"
    ∷ alias_row "ssize_t" "longlong"
    ∷ alias_row "intptr_t" "longlong"
    ∷ alias_row "uintptr_t" "ulonglong"
    ∷ alias_row "char" "sbyte"
    ∷ alias_row "uchar" "byte"
    ∷ alias_row "word" "ushort"
    ∷ alias_row "dword" "uint"
    ∷ alias_row "qword" "ulonglong"
    ∷ alias_row "long" "int"
    ∷ alias_row "ulong" "uint"
    ∷ []

unfoldable pub fold_alias : Str → Str
fold_alias s = get_or (lookup s aliases) s

-- What follows the tests for a pointer and an array.
unfoldable pub base_name : Str → Str
base_name s = fold_alias (strip_loop (suc (length s)) s)

-- One call of `canonicalTypeName` on the trimmed text, with `rec` for the calls that it makes.
unfoldable pub array_name : (Str → Str) → Str → Option ℕ → Str
array_name rec s none = base_name s
array_name rec s (some ob) = rec (take ob s) ++ drop ob s

unfoldable pub canonical_step : (Str → Str) → Str → Str
canonical_step rec [] = []
canonical_step rec (c ∷ cs) =
    if back (c ∷ cs) == b'*'
    then rec (pop_back (c ∷ cs)) ++ b'*' ∷ []
    else if back (c ∷ cs) == b']'
    then array_name rec (c ∷ cs) (rfind b'[' (c ∷ cs))
    else base_name (c ∷ cs)

-- On fuel: each call is on a shorter text, so one more than the length is enough.
unfoldable pub canonical : ℕ → Str → Str
canonical zero raw = []
canonical (suc fuel) raw = canonical_step (canonical fuel) (trim raw)

unfoldable pub canonical_type_name : Str → Str
canonical_type_name raw = canonical (suc (length raw)) raw

-- `canonicalCCName`
unfoldable pub canonical_cc_name : Str → Str
canonical_cc_name raw = drop_while (λ c. c == b'_') raw

-- `isRegisterDefaultName`; the list holds the architecture's register names.
abbrev is_digit : ℕ → Bool
is_digit c = leb b'0' c && leb c b'9'

unfoldable pub is_register_default_name : List Str → Str → Bool
is_register_default_name regs n = member n regs || elim (rfind b'_' n) [
  | none ↦ false
  | some us ↦ ltb (suc us) (length n) && all is_digit (drop (suc us) n) && member (take us n) regs
]
