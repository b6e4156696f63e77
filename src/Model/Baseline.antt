-- ===== src/Model/Baseline.antt =====
-- plugin/include/GhidraConnection.h: the check-in state that `GhidraConnection` keeps.
use ghidra_svr_bridge.Prelude.{
  ℕ, Bool, true, ◌&&◌, ◌≡◌, ◌↔◌, arith, List, Str, ℤ, Map, Eq, ◌==◌, nat_eq, str_eq, int_eq,
  str_beq_iff, int_beq_iff, is_empty, not,
}
use ghidra_svr_bridge.Model.Export.{GhidraDataType}

pub record BookmarkKey : Type 0 where
  pub addr : ℕ
  pub tag_type_name : Str
  pub tag_data : Str

-- `BookmarkKey::operator==`
unfoldable pub bookmark_beq : BookmarkKey → BookmarkKey → Bool
bookmark_beq k o =
    k.addr == o.addr && k.tag_type_name == o.tag_type_name && k.tag_data == o.tag_data

pub bookmark_beq_iff : (a b : BookmarkKey) → (bookmark_beq a b ≡ true) ↔ (a ≡ b)
unfolding bookmark_beq
bookmark_beq_iff a b =
    ground (arith, str_beq_iff a.tag_type_name b.tag_type_name, str_beq_iff a.tag_data b.tag_data)

instance abbrev pub bookmark_eq : Eq BookmarkKey
bookmark_eq = record { same = bookmark_beq; same_iff = bookmark_beq_iff }

pub record EquateRefKey : Type 0 where
  pub addr : ℕ
  pub op_index : ℤ

-- `EquateRefKey::operator==`
unfoldable pub equate_ref_beq : EquateRefKey → EquateRefKey → Bool
equate_ref_beq k o = k.addr == o.addr && k.op_index == o.op_index

pub equate_ref_beq_iff : (a b : EquateRefKey) → (equate_ref_beq a b ≡ true) ↔ (a ≡ b)
unfolding equate_ref_beq
equate_ref_beq_iff a b = ground (arith, int_beq_iff a.op_index b.op_index)

instance abbrev pub equate_ref_eq : Eq EquateRefKey
equate_ref_eq = record { same = equate_ref_beq; same_iff = equate_ref_beq_iff }

pub record CheckinState : Type 0 where
  pub addr_to_key : Map ℕ ℤ
  pub addr_to_original_name : Map ℕ Str
  pub addr_to_comment_key : Map ℕ Str
  pub addr_to_original_comment : Map ℕ Str
  pub addr_to_original_func_comment : Map ℕ Str
  pub addr_to_comment_field : Map ℕ Str
  pub ghidra_types_by_name : Map Str GhidraDataType
  pub param_original_name_by_key : Map ℤ Str
  pub param_original_type_by_key : Map ℤ Str
  pub param_key_by_addr_ordinal : Map ℕ (Map ℤ ℤ)
  pub local_key_by_addr_offset : Map ℕ (Map ℤ ℤ)
  pub new_param_baseline : Map ℕ (Map ℤ Str)
  pub new_reg_local_baseline : Map ℕ (Map ℤ Str)
  pub ghidra_bookmark_keys : List BookmarkKey
  pub ghidra_tag_type_names : List Str
  pub ghidra_data_item_addrs : List ℕ
  pub equate_original_name_by_id : Map ℤ Str
  pub equate_value_by_id : Map ℤ ℤ
  pub equate_refs_by_equate_id : Map ℤ (List EquateRefKey)
  pub func_original_cc : Map ℤ Str
  pub func_original_ret_type : Map ℤ Str
  pub func_return_type_id : Map ℤ ℤ
  pub image_base : ℕ
  pub checkin_repo : Str
  pub checkin_folder : Str
  pub checkin_item : Str

-- `hasCheckinState`
unfoldable pub has_checkin_state : CheckinState → Bool
has_checkin_state s = not (is_empty s.checkin_item)

-- `isCheckinItem`
unfoldable pub is_checkin_item : CheckinState → Str → Str → Str → Bool
is_checkin_item s repo folder item =
    s.checkin_repo == repo && s.checkin_folder == folder && s.checkin_item == item
