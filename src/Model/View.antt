-- ===== src/Model/View.antt =====
-- What the calls of the Binary Ninja API return on a view that does not change during a
-- check-in's preview. The API is not part of the repository: a view is an argument.
use ghidra_svr_bridge.Prelude.{ℕ, Bool, List, Option, Str, ℤ, Map}

pub data BnSymbolType : Type 0 where
  function_symbol imported_function_symbol data_symbol local_label_symbol other_symbol :
      BnSymbolType

pub record BnSymbol : Type 0 where
  pub address : ℕ
  pub full_name : Str
  pub symbol_type : BnSymbolType

pub data VariableSource : Type 0 where
  stack_variable register_variable flag_variable : VariableSource

-- `storage` is a stack offset or a register index.
pub record BnVariable : Type 0 where
  pub source : VariableSource
  pub storage : ℤ
  pub identifier : ℕ

-- A type that the API leaves null, and the name of it otherwise.
abbrev pub TypeText : Type 0
TypeText = Option Str

pub record BnFunction : Type 0 where
  pub start : ℕ
  pub comment : Str
  pub parameter_variables : List BnVariable
  pub variables : List (BnVariable × Str)
  pub variable_name : BnVariable → Str
  pub variable_type : BnVariable → TypeText
  pub has_user_type : Bool
  pub calling_convention : Option Str
  pub return_type : TypeText
  pub default_calling_convention : Option Str

pub record BnMember : Type 0 where
  pub name : Str
  pub offset : ℤ
  pub width : ℤ
  pub type_name : Str

-- A type by its class: width first.
pub data BnType : Type 0 where
  structure : ℤ → Bool → List BnMember → BnType
  enumeration : ℤ → List (Str × ℤ) → BnType
  typedef : ℤ → Option Str → BnType
  other_type : BnType

pub record TagRef : Type 0 where
  pub addr : ℕ
  pub tag : Option (Option Str × Str)

pub record DataVar : Type 0 where
  pub auto_discovered : Bool
  pub type_text : TypeText

-- A code reference to an enum type. `display` says whether an operand shows a value as an
-- enumeration, `display_enum` the registered type id of that enumeration.
pub record CodeRef : Type 0 where
  pub addr : ℕ
  pub is_whole : Bool
  pub display : ℤ → ℕ → Bool
  pub display_enum : ℤ → ℕ → Option (Option Str)

pub record BnView : Type 0 where
  pub start : ℕ
  pub symbol_at : ℕ → Option BnSymbol
  pub symbols : List BnSymbol
  pub commented_addresses : List ℕ
  pub comment_at : ℕ → Str
  pub functions : List BnFunction
  pub functions_at : ℕ → List BnFunction
  pub user_type_names : List Str
  pub types : List (Str × BnType)
  pub register_names : List Str
  pub tag_refs : List TagRef
  pub data_variables : Map ℕ DataVar
  pub type_by_id : Str → Option (Option (List Str))
  pub code_refs : Str → List CodeRef
