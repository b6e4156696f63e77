-- ===== src/Collect/Variables.antt =====
-- `collectCheckinChanges`, lines on parameters and locals: changed ones that Ghidra has a record of,
-- new parameters, and new locals in registers.
use ghidra_svr_bridge.Prelude.{
  ℕ, suc, Bool, true, false, not, ◌||◌, ◌&&◌, List, [], ◌∷◌, ◌++◌, Option, none, some, Str, codes,
  ℤ, pos, ◌==◌, nat_eq, str_eq, int_eq, to_int, if◌then◌else◌, is_empty, filter_map, concat_map,
  any, lookup, has, get_or, Map,
}
use ghidra_svr_bridge.Address.{ghidra_va}
use ghidra_svr_bridge.Names.{canonical_type_name, is_register_default_name}
use ghidra_svr_bridge.Names.Text.{starts_with}
use ghidra_svr_bridge.Model.Preview.{ParamRename, NewParam}
use ghidra_svr_bridge.Model.Baseline.{CheckinState}
use ghidra_svr_bridge.Model.View.{
  BnVariable, VariableSource, stack_variable, register_variable, BnFunction, BnView,
}

abbrev pub indexed {ℓ} : {A : Type ℓ} → ℕ → List A → List (ℕ × A)
indexed i [] = []
indexed i (x ∷ xs) = (i, x) ∷ indexed (suc i) xs

-- Which names are the defaults of an analysis.
abbrev pub is_auto_param : Str → Bool
is_auto_param n = is_empty n || starts_with (codes "arg") n || starts_with (codes "param_") n

abbrev pub is_auto_local : Str → Bool
is_auto_local n = is_empty n || starts_with (codes "var_") n || starts_with (codes "local_") n

abbrev pub is_auto_register_local : List Str → Str → Bool
is_auto_register_local regs n =
    is_auto_local n || starts_with (codes "in_") n || is_register_default_name regs n

abbrev pub is_stack : VariableSource → Bool
is_stack stack_variable = true
is_stack _ = false

abbrev pub is_register : VariableSource → Bool
is_register register_variable = true
is_register _ = false

abbrev param_rename : ℤ → Str → Str → ParamRename
param_rename k n t = record { key = k; name = n; type_name = t }

-- `checkVar` behind the look-up of the key.
unfoldable pub compare_var : CheckinState → BnFunction → BnVariable → Bool → ℤ → Option ParamRename
compare_var s func var auto_gen key =
    let orig_name = get_or (lookup key s.param_original_name_by_key) [] in
    let orig_type = get_or (lookup key s.param_original_type_by_key) [] in
    let cur_name = func.variable_name var in
    let cur_type = get_or (func.variable_type var) [] in
    let name_changed = not (is_empty cur_name) && not (cur_name == orig_name) && not auto_gen in
    let type_changed =
      not (is_empty cur_type)
      && not (canonical_type_name cur_type == canonical_type_name orig_type) in
    if name_changed || type_changed
    then some (
        param_rename key (if name_changed then cur_name else orig_name)
          (if type_changed then cur_type else []))
    else none

unfoldable pub check_var :
    CheckinState → BnFunction → Option (Map ℤ ℤ) → BnVariable → ℤ → Bool → Option ParamRename
check_var s func ordinals var ordinal_key auto_gen =
    elim (lookup ordinal_key (get_or ordinals [])) [
      | none ↦ none
      | some key ↦ compare_var s func var auto_gen key
    ]

-- The body of the loop over the functions: parameters by index, stack locals by offset.
unfoldable pub var_renames_of : CheckinState → ℕ → BnFunction → List ParamRename
var_renames_of s rebase func =
    let addr = ghidra_va rebase func.start in
    let params = lookup addr s.param_key_by_addr_ordinal in
    let locals = lookup addr s.local_key_by_addr_offset in
    filter_map
      (λ (p : ℕ × BnVariable).
        check_var s func params p.1 (pos p.0) (is_auto_param (func.variable_name p.1)))
      (indexed 0 func.parameter_variables)
    ++ filter_map
        (λ (v : BnVariable × Str).
          if is_stack v.0.source
          then check_var s func locals v.0 (to_int v.0.storage) (is_auto_local v.1)
          else none)
        func.variables

unfoldable pub collect_param_renames : BnView → CheckinState → ℕ → List ParamRename
collect_param_renames view s rebase = concat_map (var_renames_of s rebase) view.functions

-- Whether a name is what the last check-in recorded at this place.
abbrev pub is_recorded : Map ℕ (Map ℤ Str) → ℕ → ℤ → Str → Bool
is_recorded baseline addr ordinal name = elim (lookup ordinal (get_or (lookup addr baseline) [])) [
  | none ↦ false
  | some n ↦ n == name
]

abbrev new_param : BnFunction → ℤ → Str → BnVariable → Bool → NewParam
new_param func i n var local = record {
  func_addr = func.start;
  ordinal = i;
  name = n;
  type_name = get_or (func.variable_type var) [];
  is_local = local;
}

unfoldable pub new_param_of : CheckinState → ℕ → BnFunction → ℕ × BnVariable → Option NewParam
new_param_of s rebase func (i, var) =
    let addr = ghidra_va rebase func.start in
    let cur_name = func.variable_name var in
    if has (pos i) (get_or (lookup addr s.param_key_by_addr_ordinal) [])
    then none
    else if is_auto_param cur_name
    then none
    else if is_recorded s.new_param_baseline addr (pos i) cur_name
    then none
    else some (new_param func (pos i) cur_name var false)

unfoldable pub collect_new_params : BnView → CheckinState → ℕ → List NewParam
collect_new_params view s rebase =
    concat_map
      (λ (func : BnFunction).
        filter_map (new_param_of s rebase func) (indexed 0 func.parameter_variables))
      view.functions

abbrev pub is_parameter : BnFunction → BnVariable → Bool
is_parameter func var = any (λ p. p.identifier == var.identifier) func.parameter_variables

unfoldable pub new_register_local_of :
    CheckinState → ℕ → List Str → BnFunction → BnVariable × Str → Option NewParam
new_register_local_of s rebase regs func (var, cur_name) =
    if not (is_register var.source)
    then none
    else if is_parameter func var
    then none
    else if is_auto_register_local regs cur_name
    then none
    else if is_recorded s.new_reg_local_baseline (ghidra_va rebase func.start) (to_int var.storage)
        cur_name
    then none
    else some (new_param func (to_int var.storage) cur_name var true)

unfoldable pub collect_new_register_locals : BnView → CheckinState → ℕ → List NewParam
collect_new_register_locals view s rebase =
    concat_map
      (λ (func : BnFunction).
        filter_map (new_register_local_of s rebase view.register_names func) func.variables)
      view.functions
