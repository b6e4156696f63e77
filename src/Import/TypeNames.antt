-- ===== src/Import/TypeNames.antt =====
-- `resolveTypeName`: the type that a Ghidra type name stands for in a view.
pub mod Fuel
pub mod Aliases
pub mod Ends
pub mod Spelled
use Prim.Native.String.{String}
use ghidra_svr_bridge.Prelude.{
  ℕ, zero, suc, ◌+◌, ◌-◌, ◌*◌, ◌%◌, ◌≤◌, Bool, true, false, ◌&&◌, ◌||◌, not, List, [], ◌∷◌, Option,
  none, some, Str, codes, ℤ, pos, negsuc, ltb, leb, ◌==◌, nat_eq, str_eq, if◌then◌else◌, length,
  is_empty, take, drop, Map, lookup, decimal_prefix,
}
use ghidra_svr_bridge.Hex.{word, skip_space}
use ghidra_svr_bridge.Names.Text.{rtrim, back, pop_back, rfind}
use ghidra_svr_bridge.Import.Api.{BnApi}

-- `PrimEntry` behind its name.
pub record PrimEntry : Type 0 where
  pub width : ℕ
  pub is_signed : Bool
  pub is_float : Bool

abbrev prim : String → ℕ → Bool → Bool → Str × PrimEntry
prim name w s f = (codes name, record { width = w; is_signed = s; is_float = f })

-- `prims`
abbrev pub prims : Map Str PrimEntry
prims =
    prim "void" 0 false false
    ∷ prim "bool" 1 false false
    ∷ prim "char" 1 true false
    ∷ prim "uchar" 1 false false
    ∷ prim "byte" 1 false false
    ∷ prim "sbyte" 1 true false
    ∷ prim "short" 2 true false
    ∷ prim "ushort" 2 false false
    ∷ prim "word" 2 false false
    ∷ prim "int" 4 true false
    ∷ prim "uint" 4 false false
    ∷ prim "dword" 4 false false
    ∷ prim "long" 4 true false
    ∷ prim "ulong" 4 false false
    ∷ prim "longlong" 8 true false
    ∷ prim "ulonglong" 8 false false
    ∷ prim "qword" 8 false false
    ∷ prim "int8_t" 1 true false
    ∷ prim "uint8_t" 1 false false
    ∷ prim "int16_t" 2 true false
    ∷ prim "uint16_t" 2 false false
    ∷ prim "int32_t" 4 true false
    ∷ prim "uint32_t" 4 false false
    ∷ prim "int64_t" 8 true false
    ∷ prim "uint64_t" 8 false false
    ∷ prim "float" 4 false true
    ∷ prim "double" 8 false true
    ∷ prim "long double" 10 false true
    ∷ prim "float16" 2 false true
    ∷ []

-- `std::stoull`: decimal digits behind a sign, `none` where it throws.
unfoldable pub unsigned : Bool → Str → Option ℕ
unsigned negative [] = none
unsigned negative (c ∷ s) =
    let v = decimal_prefix 0 (c ∷ s) in
    if leb b'0' c && leb c b'9'
    then (if leb word v then none else some (if negative then (word - v) % word else v))
    else none

unfoldable pub signed : Str → Option ℕ
signed [] = none
signed (c ∷ s) =
    if c == b'-'
    then unsigned true s
    else if c == b'+'
    then unsigned false s
    else unsigned false (c ∷ s)

unfoldable pub stoull : Str → Option ℕ
stoull s = signed (skip_space s)

module _ (api : BnApi) where
  abbrev TypeRef : Type 0
  TypeRef = api.handles.TypeRef

  -- What a row of the table makes.
  unfoldable pub prim_type : Str → PrimEntry → TypeRef
  prim_type name p =
      if p.width == 0
      then api.void_type
      else if p.is_float
      then api.float_type p.width
      else if name == codes "bool"
      then api.bool_type
      else api.integer_type p.width p.is_signed

  -- An integer of `hintSize`.
  unfoldable pub hinted : ℤ → Option TypeRef
  hinted (pos n) = if ltb 0 n && leb n 16 then some (api.integer_type n false) else none
  hinted (negsuc n) = none

  unfoldable pub or_hinted : Str → ℤ → Option PrimEntry → Option TypeRef
  or_hinted name hint (some p) = some (prim_type name p)
  or_hinted name hint none = hinted hint

  -- What follows the tests for a pointer and an array.
  unfoldable pub named : api.View → Str → ℤ → Option TypeRef
  named view name hint = elim (api.type_by_name view name) [
    | some t ↦ some t
    | none ↦ or_hinted name hint (lookup name prims)
  ]

  abbrev or_void : Option TypeRef → TypeRef
  or_void (some t) = t
  or_void none = api.void_type

  -- The pointee; `rec` stands for the calls of `resolveTypeName` with no hint.
  unfoldable pub pointee : (Str → Option TypeRef) → Str → TypeRef
  pointee rec base = if is_empty base then api.void_type else or_void (rec base)

  abbrev array_of : Option TypeRef → ℕ → Option TypeRef
  array_of none count = none
  array_of (some inner) count = some (api.array_type inner 255 count)

  abbrev count_of : Option ℕ → ℕ
  count_of none = 0
  count_of (some n) = n

  -- The array that a name with a bracket at `ob` stands for, if it does.
  unfoldable pub array_at : (Str → Option TypeRef) → Str → Option ℕ → Option TypeRef
  array_at rec name none = none
  array_at rec name (some ob) =
      let elem = rtrim (take ob name) in
      let count = count_of (stoull (take (length name - ob - 2) (drop (suc ob) name))) in
      if back name == b']' && ltb 0 count && not (is_empty elem)
      then array_of (rec elem) count
      else none

  abbrev or_named : api.View → Str → ℤ → Option TypeRef → Option TypeRef
  or_named view name hint (some t) = some t
  or_named view name hint none = named view name hint

  -- One call of `resolveTypeName`. The view is not null where the import calls it.
  unfoldable pub resolve_step : (Str → Option TypeRef) → api.View → Str → ℤ → Option TypeRef
  resolve_step rec view [] hint = none
  resolve_step rec view (c ∷ s) hint =
      let trimmed = rtrim (c ∷ s) in
      if back trimmed == b'*'
      then some
          (api.pointer_type (api.address_size view) (pointee rec (rtrim (pop_back trimmed))) 255)
      else or_named view (c ∷ s) hint (array_at rec (c ∷ s) (rfind b'[' (c ∷ s)))

  -- On fuel: each call is on a shorter name, so one more than the length is enough.
  unfoldable pub resolve : ℕ → api.View → Str → ℤ → Option TypeRef
  resolve zero view name hint = none
  resolve (suc fuel) view name hint = resolve_step (λ n. resolve fuel view n (pos 0)) view name hint

  unfoldable pub resolve_type_name : api.View → Str → ℤ → Option TypeRef
  resolve_type_name view name hint = resolve (suc (length name)) view name hint
