-- ===== src/Checkin/Converge/TypeIds.antt =====
-- The ids that the bridge gives to new types, and the baseline.
use ghidra_svr_bridge.Prelude.{
  ℕ, Bool, true, false, List, [], ◌∷◌, Option, none, some, Str, codes, ℤ, pos, Map, ◌≡◌, refl, sym,
  ap, ◌∙◌, inl, inr, ◌⊎◌, arith, Bool-cases, Option-cases, ◌==◌, str_eq, str_beq_iff, int_eq,
  int_beq, if◌then◌else◌, lookup, lookup-insert, lookup-erase, get_or, fold-inv, All,
}
use ghidra_svr_bridge.Model.Export.{GhidraDataType}
use ghidra_svr_bridge.Model.Preview.{DataTypeChange, GhidraCheckinPreview}
use ghidra_svr_bridge.Model.Baseline.{CheckinState}
use ghidra_svr_bridge.Checkin.Update.{
  record_added_id, record_added_ids, fresh_data_type, stored_type, update_type, update_baseline,
}
use ghidra_svr_bridge.Checkin.Frame.{update_baseline-types}

Types : Type 0
Types = Map Str GhidraDataType

clash : {t : GhidraDataType} → some t ≡ none → ⊥
clash e = cc

-- An id for a name that is not there is passed over.
record_added_id-absent :
    (n : Str) (s : CheckinState) (x : Str × Option ℤ)
    → lookup n s.ghidra_types_by_name ≡ none
    → lookup n (record_added_id s x).ghidra_types_by_name ≡ none
unfolding record_added_id
record_added_id-absent n s (m, none) h = h
record_added_id-absent n s (m, some i) h = elim (Option-cases (lookup m s.ghidra_types_by_name)) [
  | inl e ↦ rw (e, record_added_id) h
  | inr (t, e) ↦
      rw (e, record_added_id)
        (lookup-insert m n (record t { id = i }) s.ghidra_types_by_name ∙ rw (apart t e) h)
]
  where
    apart : (t : GhidraDataType) → lookup m s.ghidra_types_by_name ≡ some t → (m == n) ≡ false
    apart t e = elim (Bool-cases (m == n)) [
      | inr q ↦ q
      | inl q ↦
          absurd
            (clash (sym e ∙ ap (λ k. lookup k s.ghidra_types_by_name) ((str_beq_iff m n).0 q) ∙ h))
    ]

record_added_ids-absent :
    (n : Str) (s : CheckinState) (added : List (Str × Option ℤ))
    → lookup n s.ghidra_types_by_name ≡ none
    → lookup n (record_added_ids s added).ghidra_types_by_name ≡ none
unfolding record_added_ids
record_added_ids-absent n s [] h = h
record_added_ids-absent n s (x ∷ added) h =
    record_added_ids-absent n (record_added_id s x) added (record_added_id-absent n s x h)

-- An entry without an id, if there is one.
abbrev Unnumbered : Str → Map Str GhidraDataType → Type 0
Unnumbered n m = (t : GhidraDataType) → lookup n m ≡ some t → t.id ≡ pos 0

-- A change that brings no id for a name.
abbrev pub Idless : Str → DataTypeChange → Type 0
Idless n c = (c.name == n) ≡ true → c.ghidra_id ≡ pos 0

old_id :
    (n : Str) (m : Map Str GhidraDataType)
    → Unnumbered n m
    → (get_or (lookup n m) fresh_data_type).id ≡ pos 0
old_id n m h = elim (Option-cases (lookup n m)) [ inl e ↦ rw e refl | inr (t, e) ↦ rw e (h t e) ]

stored_id :
    (old : GhidraDataType) (c : DataTypeChange)
    → old.id ≡ pos 0
    → c.ghidra_id ≡ pos 0
    → (stored_type old c).id ≡ pos 0
unfolding stored_type int_beq
stored_id old c o z = rw z o

if-some :
    {A : Type 0} (b : Bool) (x y : A) (o : Option A)
    → (if b then some x else o) ≡ some y
    → ((b ≡ true) × (x ≡ y)) ⊎ (o ≡ some y)
if-some true x y o h = inl (refl, ground (arith, h))
if-some false x y o h = inr h

update_type-Unnumbered :
    (n : Str) (m : Map Str GhidraDataType) (c : DataTypeChange)
    → Idless n c
    → Unnumbered n m
    → Unnumbered n (update_type m c)
unfolding update_type
update_type-Unnumbered n m c idless h = elim (Bool-cases (c.op == codes "delete")) [
  | inl d ↦ rw d (λ t e. erased t (sym (lookup-erase c.name n m) ∙ e))
  | inr d ↦ rw d (λ t e. stored t (
      if-some (c.name == n) (stored_type (get_or (lookup c.name m) fresh_data_type) c) t
        (lookup n m)
        (sym (lookup-insert c.name n (stored_type (get_or (lookup c.name m) fresh_data_type) c) m)
          ∙ e)))
]
  where
    erased :
        (t : GhidraDataType) → (if c.name == n then none else lookup n m) ≡ some t → t.id ≡ pos 0
    erased t e = elim (Bool-cases (c.name == n)) [
      | inl q ↦ absurd (clash (sym e ∙ rw q refl))
      | inr q ↦ h t (sym (rw q refl) ∙ e)
    ]

    stored :
        (t : GhidraDataType)
        → (((c.name == n) ≡ true) × (stored_type (get_or (lookup c.name m) fresh_data_type) c ≡ t))
          ⊎ (lookup n m ≡ some t)
        → t.id ≡ pos 0
    stored t (inr e) = h t e
    stored t (inl (q, e)) =
        ap (λ (x : GhidraDataType). x.id) (sym e)
        ∙ stored_id (get_or (lookup c.name m) fresh_data_type) c
            (ap (λ k. (get_or (lookup k m) fresh_data_type).id) ((str_beq_iff c.name n).0 q)
              ∙ old_id n m h)
            (idless q)

-- The id that the bridge answers with for a type that is new to the baseline is lost: where no
-- change of the preview brings an id for the name, the entry behind the check-in has the id 0,
-- whatever ids the answer holds.
pub added_ids-lost :
    (r : ℕ) (s : CheckinState) (added : List (Str × Option ℤ)) (p : GhidraCheckinPreview) (n : Str)
    (t : GhidraDataType)
    → lookup n s.ghidra_types_by_name ≡ none
    → All (Idless n) p.data_type_changes
    → lookup n (update_baseline r s added p).ghidra_types_by_name ≡ some t
    → t.id ≡ pos 0
added_ids-lost r s added p n t absent idless e =
    fold-inv (Unnumbered n) (Idless n) update_type (λ m c i h. update_type-Unnumbered n m c i h)
      (record_added_ids s added).ghidra_types_by_name p.data_type_changes idless
      (λ u f. absurd (clash (sym f ∙ record_added_ids-absent n s added absent))) t
      (ap (lookup n) (sym (update_baseline-types r s added p)) ∙ e)
