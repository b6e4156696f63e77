-- ===== src/Import/Api.antt =====
-- What the import uses of the Binary Ninja API, which is not part of the repository: handles, the
-- calls that read a view, and `perform`, which is a call that changes one.
use ghidra_svr_bridge.Prelude.{ℕ, Bool, List, Option, Str}
use ghidra_svr_bridge.Model.View.{BnSymbolType, BnVariable}

-- The API's reference types, null left out.
pub record BnHandles : Type 1 where
  pub Function : Type 0
  pub TypeRef : Type 0
  pub TagType : Type 0
  pub Platform : Type 0
  pub Architecture : Type 0
  pub Convention : Type 0

-- `BNSegmentFlag`, a truth value for each flag that the import sets.
pub record SegmentFlags : Type 0 where
  pub readable : Bool
  pub writable : Bool
  pub executable : Bool
  pub contains_code : Bool
  pub contains_data : Bool

pub data SectionSemantics : Type 0 where
  read_only_code read_write_data read_only_data : SectionSemantics

module _ (h : BnHandles) where
  -- `Confidence<Ref<Type>>`: a type, or null, and how sure it is.
  abbrev pub Confident : Type 0
  Confident = Option h.TypeRef × ℕ

  -- The calls that change a view, with their arguments.
  pub data Edit : Type 0 where
    add_user_segment : ℕ → ℕ → SegmentFlags → Edit
    add_user_section : Str → ℕ → ℕ → SectionSemantics → Edit
    define_user_symbol : BnSymbolType → Str → ℕ → Edit
    create_user_function : h.Platform → ℕ → Edit
    set_comment_for_address : ℕ → Str → Edit
    set_function_comment : h.Function → Str → Edit
    add_tag_type : h.TagType → Edit
    create_user_function_tag : h.Function → h.TagType → Str → Edit
    create_user_data_tag : ℕ → h.TagType → Str → Bool → Edit
    define_type : Str → Str → h.TypeRef → Edit
    set_enumeration_display : h.Function → Option h.Architecture → ℕ → ℕ → ℕ → h.TypeRef → Edit
    create_user_variable : h.Function → BnVariable → Option h.TypeRef × ℕ → Str → Edit
    define_user_data_variable : ℕ → h.TypeRef → ℕ → Edit
    set_calling_convention : h.Function → h.Convention → ℕ → Edit
    set_return_type : h.Function → h.TypeRef → ℕ → Edit
    update_analysis : Edit

pub record BnApi : Type 1 where
  pub handles : BnHandles
  pub View : Type 0
  pub perform : Edit handles → View → View
  -- The view.
  pub start : View → ℕ
  pub address_size : View → ℕ
  pub default_platform : View → Option handles.Platform
  pub has_segment_at : View → ℕ → Bool
  pub symbol_name_at : View → ℕ → Option Str
  pub comment_at : View → ℕ → Str
  pub functions_at : View → ℕ → List handles.Function
  pub functions_containing : View → ℕ → List handles.Function
  pub tag_type : View → Str → Option handles.TagType
  pub type_by_name : View → Str → Option handles.TypeRef
  pub type_by_id : View → Str → Option handles.TypeRef
  -- A function of it.
  pub function_start : handles.Function → ℕ
  pub architecture : handles.Function → Option handles.Architecture
  pub convention_by_name : handles.Architecture → Str → Option handles.Convention
  pub function_comment : View → handles.Function → Str
  pub parameter_variables : View → handles.Function → List BnVariable
  pub variables : View → handles.Function → List (BnVariable × Str × Option handles.TypeRef)
  pub variable_name : View → handles.Function → BnVariable → Str
  pub variable_type : View → handles.Function → BnVariable → Option handles.TypeRef
  -- The constructors of types and of tag types, and `Type::GenerateAutoTypeId`.
  pub void_type : handles.TypeRef
  pub bool_type : handles.TypeRef
  pub integer_type : ℕ → Bool → handles.TypeRef
  pub float_type : ℕ → handles.TypeRef
  pub pointer_type : ℕ → handles.TypeRef → ℕ → handles.TypeRef
  pub array_type : handles.TypeRef → ℕ → ℕ → handles.TypeRef
  pub structure_type : Bool → List (handles.TypeRef × Str × ℕ) → handles.TypeRef
  pub enumeration_type : List (Str × ℕ) → ℕ → Bool → handles.TypeRef
  pub typedef_type : Str → ℕ → handles.TypeRef
  pub new_tag_type : Str → Str → handles.TagType
  pub auto_type_id : Str → Str → Str
