-- ===== src/Checkin/Converge/ItemSteps.antt =====
-- Data items: what one change makes of the baseline's addresses, and which changes are collected.
use ghidra_svr_bridge.Prelude.{
  ℕ, true, false, List, [], none, some, codes, ◌≡◌, refl, ◌∙◌, ◌⊎◌, inl, inr, arith, Bool-cases,
  ◌==◌, ==-refl, nat_eq, str_eq, str_beq, is_empty, get_or, member, member-add, member-remove,
}
use ghidra_svr_bridge.Address.{ghidra_va, apply_rebase}
use ghidra_svr_bridge.Model.Preview.{DataItemChange}
use ghidra_svr_bridge.Model.Baseline.{CheckinState}
use ghidra_svr_bridge.Model.View.{DataVar, BnView}
use ghidra_svr_bridge.Collect.Bookmarks.{data_addition_of, data_deletion_of, is_still_present}
use ghidra_svr_bridge.Checkin.Update.{update_data_item}

-- A change that does not put an address into the baseline, and one that does not take it out.
abbrev pub Spares : ℕ → ℕ → DataItemChange → Type 0
Spares r g di = (di.op ≡ codes "delete") ⊎ ((ghidra_va r di.addr == g) ≡ false)

abbrev pub Retains : ℕ → ℕ → DataItemChange → Type 0
Retains r g di = (di.op ≡ codes "add") ⊎ ((ghidra_va r di.addr == g) ≡ false)

pub update-Spares :
    (r g : ℕ) (keys : List ℕ) (di : DataItemChange)
    → Spares r g di
    → member g keys ≡ false
    → member g (update_data_item r keys di) ≡ false
unfolding update_data_item str_beq
update-Spares r g keys di (inl e) h =
    rw e (member-remove (ghidra_va r di.addr) g keys ∙ rw h (ground arith))
update-Spares r g keys di (inr e) h = elim (Bool-cases (di.op == codes "add")) [
  | inl o ↦ rw o (member-add (ghidra_va r di.addr) g keys ∙ rw (e, h))
  | inr o ↦ rw o (member-remove (ghidra_va r di.addr) g keys ∙ rw (e, h))
]

pub update-Retains :
    (r g : ℕ) (keys : List ℕ) (di : DataItemChange)
    → Retains r g di
    → member g keys ≡ true
    → member g (update_data_item r keys di) ≡ true
unfolding update_data_item str_beq
update-Retains r g keys di (inl e) h =
    rw e (member-add (ghidra_va r di.addr) g keys ∙ rw h (ground arith))
update-Retains r g keys di (inr e) h = elim (Bool-cases (di.op == codes "add")) [
  | inl o ↦ rw o (member-add (ghidra_va r di.addr) g keys ∙ rw (e, h))
  | inr o ↦ rw o (member-remove (ghidra_va r di.addr) g keys ∙ rw (e, h))
]

pub update-takes :
    (r g : ℕ) (keys : List ℕ) (di : DataItemChange)
    → di.op ≡ codes "delete"
    → ghidra_va r di.addr ≡ g
    → member g (update_data_item r keys di) ≡ false
unfolding update_data_item str_beq
update-takes r g keys di o e =
    rw o (member-remove (ghidra_va r di.addr) g keys ∙ rw (e, ==-refl g) refl)

pub update-puts :
    (r g : ℕ) (keys : List ℕ) (di : DataItemChange)
    → di.op ≡ codes "add"
    → ghidra_va r di.addr ≡ g
    → member g (update_data_item r keys di) ≡ true
unfolding update_data_item str_beq
update-puts r g keys di o e =
    rw o (member-add (ghidra_va r di.addr) g keys ∙ rw (e, ==-refl g) refl)

pub addition-fields :
    (s : CheckinState) (r a : ℕ) (dv : DataVar) (di : DataItemChange)
    → data_addition_of s r (a, dv) ≡ some di
    → (di.op ≡ codes "add") × (di.addr ≡ a) × (dv.auto_discovered ≡ false)
unfolding data_addition_of
addition-fields s r a dv di h = ground arith

-- Why a variable stays out of the additions.
abbrev pub Unlisted : CheckinState → ℕ → ℕ → DataVar → Type 0
Unlisted s r a dv =
    (dv.auto_discovered ≡ true)
    ⊎ (is_empty (get_or dv.type_text []) ≡ true)
    ⊎ (member (ghidra_va r a) s.ghidra_data_item_addrs ≡ true)

pub addition-none :
    (s : CheckinState) (r a : ℕ) (dv : DataVar)
    → Unlisted s r a dv
    → data_addition_of s r (a, dv) ≡ none
unfolding data_addition_of
addition-none s r a dv h = ground arith

pub addition-Unlisted :
    (s : CheckinState) (r a : ℕ) (dv : DataVar)
    → data_addition_of s r (a, dv) ≡ none
    → Unlisted s r a dv
unfolding data_addition_of
addition-Unlisted s r a dv h = elim (Bool-cases dv.auto_discovered) [
  | inl e ↦ inl e
  | inr e ↦ elim (Bool-cases (member (ghidra_va r a) s.ghidra_data_item_addrs)) [
    | inl m ↦ inr (inr m)
    | inr m ↦ elim (Bool-cases (is_empty (get_or dv.type_text []))) [
      | inl t ↦ inr (inl t)
      | inr t ↦ absurd (listed e m t h)
    ]
  ]
]
  where
    listed :
        dv.auto_discovered ≡ false
        → member (ghidra_va r a) s.ghidra_data_item_addrs ≡ false
        → is_empty (get_or dv.type_text []) ≡ false
        → data_addition_of s r (a, dv) ≡ none
        → ⊥
    listed e m t h = ground arith

pub deletion-fields :
    (view : BnView) (r g : ℕ) (di : DataItemChange)
    → data_deletion_of view r g ≡ some di
    → (di.op ≡ codes "delete")
      × (di.addr ≡ apply_rebase r g)
      × (is_still_present view (apply_rebase r g) ≡ false)
unfolding data_deletion_of
deletion-fields view r g di h = ground arith

abbrev pub deletion : ℕ → ℕ → DataItemChange
deletion r g = record { op = codes "delete"; addr = apply_rebase r g; type_name = [] }

pub deletion-some :
    (view : BnView) (r g : ℕ)
    → is_still_present view (apply_rebase r g) ≡ false
    → data_deletion_of view r g ≡ some (deletion r g)
unfolding data_deletion_of
deletion-some view r g h = rw h refl

pub clash : false ≡ true → ⊥
clash e = cc

pub deletion-none :
    (view : BnView) (r g : ℕ)
    → is_still_present view (apply_rebase r g) ≡ true
    → data_deletion_of view r g ≡ none
unfolding data_deletion_of
deletion-none view r g h = rw h refl
