-- ===== src/Collect/Signatures.antt =====
-- `collectCheckinChanges`, lines on calling conventions and return types.
use ghidra_svr_bridge.Prelude.{
  ℕ, not, ◌||◌, ◌&&◌, List, [], ◌∷◌, ◌++◌, Option, none, some, Str, ℤ, ◌==◌, nat_eq, str_eq, int_eq,
  if◌then◌else◌, is_empty, filter_map, fold, any, find, lookup, insert, get_or, Map,
}
use ghidra_svr_bridge.Names.{canonical_type_name, canonical_cc_name}
use ghidra_svr_bridge.Model.Preview.{FuncSigChange}
use ghidra_svr_bridge.Model.Baseline.{CheckinState}
use ghidra_svr_bridge.Model.View.{BnFunction, BnView}

abbrev sig_change : ℤ → Str → Str → FuncSigChange
sig_change k cc ret = record { key = k; calling_convention = cc; return_type_name = ret }

-- `keyToBnAddr`
unfoldable pub key_to_bn_addr : CheckinState → Map ℤ ℕ
key_to_bn_addr s = fold (λ m (e : ℕ × ℤ). insert e.1 e.0 m) [] s.addr_to_key

-- The function that starts at an address, among those that hold it.
abbrev pub function_starting_at : BnView → ℕ → Option BnFunction
function_starting_at view addr = find (λ f. f.start == addr) (view.functions_at addr)

-- A change is pushed if it says something.
abbrev pub if_any : FuncSigChange → Option FuncSigChange
if_any c =
    if not (is_empty c.calling_convention) || not (is_empty c.return_type_name)
    then some c
    else none

-- The change of a function whose convention is in the baseline.
unfoldable pub change_from_baseline : CheckinState → ℤ → Str → BnFunction → Option FuncSigChange
change_from_baseline s key orig_cc func =
    let cur_cc = get_or func.calling_convention [] in
    let cur_ret = get_or func.return_type [] in
    if_any (
      sig_change key
        (if not (is_empty cur_cc) && not (canonical_cc_name cur_cc == canonical_cc_name orig_cc)
          then cur_cc
          else [])
        (elim (lookup key s.func_original_ret_type) [
          | none ↦ []
          | some orig ↦
              if not (is_empty cur_ret)
                && not (canonical_type_name cur_ret == canonical_type_name orig)
              then cur_ret
              else []
        ]))

-- The first loop, over the conventions of the baseline.
unfoldable pub baseline_sig_of : BnView → CheckinState → ℤ × Str → Option FuncSigChange
baseline_sig_of view s (key, orig_cc) = elim (lookup key (key_to_bn_addr s)) [
  | none ↦ none
  | some bn_addr ↦ elim (function_starting_at view bn_addr) [
    | none ↦ none
    | some func ↦ if func.has_user_type then change_from_baseline s key orig_cc func else none
  ]
]

-- The convention that the second loop pushes: against the baseline, or else the platform's default.
unfoldable pub second_cc : CheckinState → ℤ → BnFunction → Str
second_cc s key func = elim func.calling_convention [
  | none ↦ []
  | some cur_cc ↦ elim (lookup key s.func_original_cc) [
    | some orig ↦ if canonical_cc_name cur_cc == canonical_cc_name orig then [] else cur_cc
    | none ↦
        let def_cc = get_or func.default_calling_convention [] in
        if not (is_empty def_cc) && not (canonical_cc_name cur_cc == canonical_cc_name def_cc)
        then cur_cc
        else []
  ]
]

unfoldable pub second_ret : CheckinState → ℤ → BnFunction → Str
second_ret s key func = elim func.return_type [
  | none ↦ []
  | some cur_ret ↦ elim (lookup key s.func_original_ret_type) [
    | none ↦ cur_ret
    | some orig ↦ if canonical_type_name cur_ret == canonical_type_name orig then [] else cur_ret
  ]
]

abbrev pub push_if_any : List FuncSigChange → Option FuncSigChange → List FuncSigChange
push_if_any changes none = changes
push_if_any changes (some c) = changes ++ c ∷ []

-- The body of the second loop; `changes` is `preview.funcSigChanges` so far.
unfoldable pub add_user_sig : CheckinState → List FuncSigChange → BnFunction → List FuncSigChange
add_user_sig s changes func =
    if not func.has_user_type then changes else elim (lookup func.start s.addr_to_key) [
      | none ↦ changes
      | some key ↦
          if any (λ c. c.key == key) changes
          then changes
          else push_if_any changes
              (if_any (sig_change key (second_cc s key func) (second_ret s key func)))
    ]

unfoldable pub collect_func_sig_changes : BnView → CheckinState → List FuncSigChange
collect_func_sig_changes view s =
    fold (add_user_sig s) (filter_map (baseline_sig_of view s) s.func_original_cc) view.functions
