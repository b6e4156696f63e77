-- ===== src/Model/Preview.antt =====
-- plugin/include/GhidraConnection.h, `GhidraCheckinPreview`: the changes that wait for a check-in.
use ghidra_svr_bridge.Prelude.{ℕ, Bool, ◌&&◌, List, [], Str, ℤ, is_empty}

pub record SymbolRename : Type 0 where
  pub key : ℤ
  pub addr : ℕ
  pub original_name : Str
  pub new_name : Str

pub record CommentChange : Type 0 where
  pub addr : ℕ
  pub text : Str
  pub encoded_key : Str

pub record EquateRename : Type 0 where
  pub id : ℤ
  pub name : Str

pub record BookmarkChange : Type 0 where
  pub op : Str
  pub bm_type : Str
  pub addr : ℕ
  pub category : Str
  pub comment : Str

pub record ParamRename : Type 0 where
  pub key : ℤ
  pub name : Str
  pub type_name : Str

pub record TypeMember : Type 0 where
  pub name : Str
  pub offset : ℤ
  pub size : ℤ
  pub type_name : Str

pub record TypeValue : Type 0 where
  pub name : Str
  pub value : ℤ

pub record DataTypeChange : Type 0 where
  pub op : Str
  pub kind : Str
  pub name : Str
  pub ghidra_id : ℤ
  pub size : ℤ
  pub underlying_type_name : Str
  pub members : List TypeMember
  pub values : List TypeValue

pub record DataItemChange : Type 0 where
  pub op : Str
  pub addr : ℕ
  pub type_name : Str

pub record FuncSigChange : Type 0 where
  pub key : ℤ
  pub calling_convention : Str
  pub return_type_name : Str

pub record NewSymbol : Type 0 where
  pub addr : ℕ
  pub name : Str
  pub is_function : Bool

pub record NewParam : Type 0 where
  pub func_addr : ℕ
  pub ordinal : ℤ
  pub name : Str
  pub type_name : Str
  pub is_local : Bool

pub record NewEquateRef : Type 0 where
  pub equate_id : ℤ
  pub addr : ℕ
  pub op_index : ℤ

pub record GhidraCheckinPreview : Type 0 where
  pub renames : List SymbolRename
  pub comments : List CommentChange
  pub equate_renames : List EquateRename
  pub bookmark_changes : List BookmarkChange
  pub param_renames : List ParamRename
  pub data_type_changes : List DataTypeChange
  pub data_item_changes : List DataItemChange
  pub func_sig_changes : List FuncSigChange
  pub new_symbols : List NewSymbol
  pub new_params : List NewParam
  pub new_equate_refs : List NewEquateRef

abbrev pub empty_preview : GhidraCheckinPreview
empty_preview = record {
  renames = [];
  comments = [];
  equate_renames = [];
  bookmark_changes = [];
  param_renames = [];
  data_type_changes = [];
  data_item_changes = [];
  func_sig_changes = [];
  new_symbols = [];
  new_params = [];
  new_equate_refs = [];
}

-- `GhidraCheckinPreview::empty`
unfoldable pub preview_is_empty : GhidraCheckinPreview → Bool
preview_is_empty p =
    is_empty p.renames
    && is_empty p.comments
    && is_empty p.equate_renames
    && is_empty p.bookmark_changes
    && is_empty p.param_renames
    && is_empty p.data_type_changes
    && is_empty p.data_item_changes
    && is_empty p.func_sig_changes
    && is_empty p.new_symbols
    && is_empty p.new_params
    && is_empty p.new_equate_refs
