-- ===== src/Model/Export.antt =====
-- plugin/include/GhidraConnection.h: what one Ghidra program database holds. A `uint64_t` is a
-- number, an `int` or `int64_t` an integer.
use ghidra_svr_bridge.Prelude.{ℕ, Bool, List, Str, ℤ}

-- `GhidraSymbolType` is an `int` on the wire; the program tells apart Function = 4, External = 8.
pub record GhidraSymbol : Type 0 where
  pub key : ℤ
  pub name : Str
  pub addr : ℕ
  pub sym_type : ℤ
  pub source : ℤ
  pub namespace_id : ℤ

pub record GhidraComment : Type 0 where
  pub addr : ℕ
  pub eol : Str
  pub pre : Str
  pub post : Str
  pub plate : Str
  pub rep : Str
  pub encoded_key : Str

pub record GhidraFuncFlags : Type 0 where
  pub key : ℤ
  pub is_thunk : Bool
  pub no_return : Bool
  pub is_inline : Bool

pub record GhidraFuncSig : Type 0 where
  pub key : ℤ
  pub calling_convention : Str
  pub return_type_name : Str
  pub return_type_id : ℤ

pub record GhidraEquateRef : Type 0 where
  pub addr : ℕ
  pub op_index : ℤ

pub record GhidraEquate : Type 0 where
  pub id : ℤ
  pub name : Str
  pub value : ℤ
  pub refs : List GhidraEquateRef

pub record GhidraBookmark : Type 0 where
  pub bm_type : Str
  pub addr : ℕ
  pub category : Str
  pub comment : Str

pub record GhidraParameter : Type 0 where
  pub key : ℤ
  pub func_addr : ℕ
  pub name : Str
  pub is_param : Bool
  pub ordinal : ℤ
  pub type_name : Str
  pub type_id : ℤ

pub record GhidraDataTypeMember : Type 0 where
  pub offset : ℤ
  pub type_id : ℤ
  pub name : Str
  pub comment : Str
  pub size : ℤ
  pub ordinal : ℤ
  pub type_name : Str

pub record GhidraEnumValue : Type 0 where
  pub name : Str
  pub value : ℤ
  pub comment : Str

pub record GhidraDataType : Type 0 where
  pub id : ℤ
  pub kind : Str
  pub name : Str
  pub comment : Str
  pub size : ℤ
  pub underlying_type_id : ℤ
  pub underlying_type_name : Str
  pub members : List GhidraDataTypeMember
  pub values : List GhidraEnumValue

pub record GhidraDataItem : Type 0 where
  pub addr : ℕ
  pub type_id : ℤ

pub record GhidraMemoryBlock : Type 0 where
  pub name : Str
  pub addr : ℕ
  pub size : ℕ
  pub read : Bool
  pub write : Bool
  pub execute : Bool
  pub initialized : Bool
  pub overlay : Bool

pub record GhidraXrefStats : Type 0 where
  pub from_count : ℤ
  pub to_count : ℤ

pub record GhidraDbExport : Type 0 where
  pub symbols : List GhidraSymbol
  pub comments : List GhidraComment
  pub func_flags : List GhidraFuncFlags
  pub func_sigs : List GhidraFuncSig
  pub equates : List GhidraEquate
  pub bookmarks : List GhidraBookmark
  pub parameters : List GhidraParameter
  pub data_types : List GhidraDataType
  pub data_items : List GhidraDataItem
  pub memory_blocks : List GhidraMemoryBlock
  pub xref_stats : GhidraXrefStats
  pub diag : List Str
  pub image_base : ℕ
