-- ===== src/Import/Variables.antt =====
-- `applyToView`: names and types of parameters and of local variables.
use ghidra_svr_bridge.Prelude.{
  ℕ, zero, suc, Bool, true, false, ◌&&◌, ◌||◌, List, [], ◌∷◌, Option, none, some, Str, codes, ℤ,
  pos, negsuc, ◌==◌, int_eq, to_int, if◌then◌else◌, is_empty, find,
}
use ghidra_svr_bridge.Address.{apply_rebase}
use ghidra_svr_bridge.Names.Text.{starts_with}
use ghidra_svr_bridge.Model.Export.{GhidraParameter}
use ghidra_svr_bridge.Model.View.{
  BnVariable, VariableSource, stack_variable, register_variable, flag_variable,
}
use ghidra_svr_bridge.Import.Api.{BnApi, Confident, create_user_variable}
use ghidra_svr_bridge.Import.TypeNames.{resolve_type_name}
use ghidra_svr_bridge.Import.Progress.{function_starting}

-- `autoGen` of a parameter, and of a local variable.
unfoldable pub is_made_up_parameter : Str → Bool
is_made_up_parameter n = is_empty n || starts_with (codes "arg") n || starts_with (codes "param_") n

unfoldable pub is_made_up_local : Str → Bool
is_made_up_local n = is_empty n || starts_with (codes "var_") n || starts_with (codes "local_") n

-- `vars[ordinal]`, in the range.
abbrev pub element_at {ℓ} : {A : Type ℓ} → List A → ℕ → Option A
element_at [] n = none
element_at (x ∷ xs) zero = some x
element_at (x ∷ xs) (suc n) = element_at xs n

unfoldable pub at_ordinal {ℓ} : {A : Type ℓ} → List A → ℤ → Option A
at_ordinal xs (pos n) = element_at xs n
at_ordinal xs (negsuc n) = none

abbrev is_stack : VariableSource → Bool
is_stack stack_variable = true
is_stack register_variable = false
is_stack flag_variable = false

module _ (api : BnApi) where
  abbrev Function : Type 0
  Function = api.handles.Function

  abbrev TypeRef : Type 0
  TypeRef = api.handles.TypeRef

  -- `varType`: the resolved type, or else the one that the variable has, with no confidence.
  abbrev chosen_type : Option TypeRef → Option TypeRef → Confident api.handles
  chosen_type current none = (current, 0)
  chosen_type current (some resolved) = (some resolved, 128)

  unfoldable pub rename_variable :
      Function → GhidraParameter → BnVariable → Option TypeRef → api.View → api.View
  rename_variable func param var current view =
      api.perform
        (create_user_variable func var
          (chosen_type current (resolve_type_name api view param.type_name (pos 0))) param.name)
        view

  -- A parameter of the function, found by its ordinal.
  unfoldable pub apply_parameter :
      Function → GhidraParameter → Option BnVariable → api.View → api.View
  apply_parameter func param none view = view
  apply_parameter func param (some var) view =
      if is_made_up_parameter (api.variable_name view func var)
      then rename_variable func param var (api.variable_type view func var) view
      else view

  -- A variable on the stack, found by its offset; the first match is the only one.
  unfoldable pub is_at : ℤ → BnVariable × Str × Option TypeRef → Bool
  is_at offset (var, name, current) = is_stack var.source && (to_int var.storage == offset)

  unfoldable pub apply_local :
      Function → GhidraParameter → Option (BnVariable × Str × Option TypeRef) → api.View → api.View
  apply_local func param none view = view
  apply_local func param (some (var, name, current)) view =
      if is_made_up_local name then rename_variable func param var current view else view

  unfoldable pub apply_variable_of : GhidraParameter → Option Function → api.View → api.View
  apply_variable_of param none view = view
  apply_variable_of param (some func) view =
      if param.is_param
      then apply_parameter func param (at_ordinal (api.parameter_variables view func) param.ordinal)
          view
      else apply_local func param (find (is_at param.ordinal) (api.variables view func)) view

  -- The body of the loop.
  unfoldable pub apply_variable : ℕ → api.View → GhidraParameter → api.View
  apply_variable rebase view param =
      apply_variable_of param (function_starting api view (apply_rebase rebase param.func_addr))
        view
