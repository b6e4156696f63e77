-- ===== src/Checkin/Converge/DataItems.antt =====
-- Data items: a check-in leaves no addition and no deletion for the next preview.
use ghidra_svr_bridge.Prelude.{
  ℕ, ◌<◌, true, false, List, [], ◌++◌, none, some, Str, ℤ, Option, ◌≡◌, refl, sym, ap, ap₂, ◌∙◌,
  inl, inr, arith, Bool-cases, Option-cases, ◌==◌, nat_eq, str_eq, nat_beq_iff, filter_map,
  filter_map-nil, fold, fold-append, fold-keeps, fold-reaches, member-In, In, In-member, is_empty,
  get_or, lookup, member, Map,
}
use ghidra_svr_bridge.Hex.{word}
use ghidra_svr_bridge.Address.{rebase_of, ghidra_va, apply_rebase}
use ghidra_svr_bridge.Address.Laws.{rebase_of-lt, ghidra_va-apply_rebase, apply_rebase-ghidra_va}
use ghidra_svr_bridge.Model.Preview.{DataItemChange}
use ghidra_svr_bridge.Model.Baseline.{CheckinState, BookmarkKey}
use ghidra_svr_bridge.Model.View.{DataVar, BnView}
use ghidra_svr_bridge.Collect.Bookmarks.{
  data_addition_of, data_deletion_of, is_still_present, collect_data_item_changes,
}
use ghidra_svr_bridge.Collect.Preview.{collect_preview}
use ghidra_svr_bridge.Checkin.Update.{update_data_item, update_baseline}
use ghidra_svr_bridge.Checkin.Frame.{update_baseline-symbols, update_baseline-marks}
use ghidra_svr_bridge.Checkin.Converge.ItemSteps.{
  update-Spares, update-Retains, update-takes, update-puts, addition-fields, Unlisted,
  addition-none, addition-Unlisted, deletion-fields, deletion, deletion-some, clash, deletion-none,
}

-- The variables of a view are a `std::map`: each address once, and 64 bits wide.
module _ (view : BnView) (s : CheckinState)
    (items : (g : ℕ) → member g s.ghidra_data_item_addrs ≡ true → g < word)
    (vars : (a : ℕ) (dv : DataVar)
      → In (a, dv) view.data_variables
      → (a < word) × (lookup a view.data_variables ≡ some dv)) where
  abbrev pub r : ℕ
  r = rebase_of view.start s.image_base

  r_lt : r < word
  r_lt = rebase_of-lt view.start s.image_base

  added : List ℕ
  added =
      fold (update_data_item r) s.ghidra_data_item_addrs
        (filter_map (data_addition_of s r) view.data_variables)

  settled_addrs : List ℕ
  settled_addrs =
      fold (update_data_item r) added
        (filter_map (data_deletion_of view r) s.ghidra_data_item_addrs)

  present :
      (a : ℕ) (dv : DataVar)
      → In (a, dv) view.data_variables
      → dv.auto_discovered ≡ false
      → is_still_present view a ≡ true
  present a dv i h = rw ((vars a dv i).1, is_still_present, h)

  -- A deletion takes the address out for which it was made.
  deletion_va :
      (g : ℕ) (di : DataItemChange)
      → In g s.ghidra_data_item_addrs
      → data_deletion_of view r g ≡ some di
      → ghidra_va r di.addr ≡ g
  deletion_va g di i e =
      ap (ghidra_va r) (deletion-fields view r g di e).1
      ∙ ghidra_va-apply_rebase r g r_lt (items g (In-member g s.ghidra_data_item_addrs i))

  -- An address with no user variable goes.
  gone : (g : ℕ) → is_still_present view (apply_rebase r g) ≡ false → member g settled_addrs ≡ false
  unfolding settled_addrs added
  gone g absent = elim (Bool-cases (member g s.ghidra_data_item_addrs)) [
    | inl m ↦
        fold-reaches (λ keys. member g keys ≡ false) (update_data_item r) (data_deletion_of view r)
          s.ghidra_data_item_addrs deleting g _ (member-In g s.ghidra_data_item_addrs m)
          (deletion-some view r g absent)
          (λ keys.
            update-takes r g keys (deletion r g) refl (ghidra_va-apply_rebase r g r_lt (items g m)))
          _
    | inr m ↦
        fold-keeps (λ keys. member g keys ≡ false) (update_data_item r) (data_deletion_of view r)
          s.ghidra_data_item_addrs deleting added
          (fold-keeps (λ keys. member g keys ≡ false) (update_data_item r) (data_addition_of s r)
            view.data_variables adding s.ghidra_data_item_addrs m)
  ]
    where
      deleting :
          (h : ℕ) (di : DataItemChange)
          → In h s.ghidra_data_item_addrs
          → data_deletion_of view r h ≡ some di
          → (keys : List ℕ) → member g keys ≡ false
          → member g (update_data_item r keys di) ≡ false
      deleting h di i e keys = update-Spares r g keys di (inl (deletion-fields view r h di e).0)

      -- A variable at that place would be present.
      apart :
          (a : ℕ) (dv : DataVar)
          → In (a, dv) view.data_variables
          → dv.auto_discovered ≡ false
          → (ghidra_va r a == g) ≡ false
      apart a dv i h = elim (Bool-cases (ghidra_va r a == g)) [
        | inr e ↦ e
        | inl e ↦
            e
            ∙ sym (
                sym absent
                ∙ ap (is_still_present view) (
                    ap (apply_rebase r) (sym ((nat_beq_iff (ghidra_va r a) g).0 e))
                    ∙ apply_rebase-ghidra_va r a r_lt (vars a dv i).0)
                ∙ present a dv i h)
      ]

      adding :
          (x : ℕ × DataVar) (di : DataItemChange)
          → In x view.data_variables
          → data_addition_of s r x ≡ some di
          → (keys : List ℕ) → member g keys ≡ false
          → member g (update_data_item r keys di) ≡ false
      adding (a, dv) di i e keys =
          let f = addition-fields s r a dv di e in
          update-Spares r g keys di (inr (ap (λ b. ghidra_va r b == g) f.1 ∙ apart a dv i f.2))

  -- An address with one stays.
  stays :
      (a : ℕ) (dv : DataVar)
      → In (a, dv) view.data_variables
      → dv.auto_discovered ≡ false
      → member (ghidra_va r a) added ≡ true
      → member (ghidra_va r a) settled_addrs ≡ true
  unfolding settled_addrs
  stays a dv i h m =
      fold-keeps (λ keys. member (ghidra_va r a) keys ≡ true) (update_data_item r)
        (data_deletion_of view r) s.ghidra_data_item_addrs keeping added m
    where
      apart :
          (g : ℕ) → is_still_present view (apply_rebase r g) ≡ false → (g == ghidra_va r a) ≡ false
      apart g absent = elim (Bool-cases (g == ghidra_va r a)) [
        | inr e ↦ e
        | inl e ↦
            e
            ∙ sym (
                sym absent
                ∙ ap (is_still_present view) (
                    ap (apply_rebase r) ((nat_beq_iff g (ghidra_va r a)).0 e)
                    ∙ apply_rebase-ghidra_va r a r_lt (vars a dv i).0)
                ∙ present a dv i h)
      ]

      keeping :
          (g : ℕ) (di : DataItemChange)
          → In g s.ghidra_data_item_addrs
          → data_deletion_of view r g ≡ some di
          → (keys : List ℕ) → member (ghidra_va r a) keys ≡ true
          → member (ghidra_va r a) (update_data_item r keys di) ≡ true
      keeping g di j e keys = update-Retains r (ghidra_va r a) keys di (
          inr (
            ap (λ b. b == ghidra_va r a) (deletion_va g di j e)
            ∙ apart g (deletion-fields view r g di e).2))

  -- What the additions reach.
  reached :
      (a : ℕ) (dv : DataVar)
      → In (a, dv) view.data_variables
      → dv.auto_discovered ≡ false
      → is_empty (get_or dv.type_text []) ≡ false
      → member (ghidra_va r a) added ≡ true
  unfolding added
  reached a dv i h t = elim (Option-cases (data_addition_of s r (a, dv))) [
    | inr (di, e) ↦
        fold-reaches (λ keys. member (ghidra_va r a) keys ≡ true) (update_data_item r)
          (data_addition_of s r) view.data_variables adding (a, dv) di i e
          (λ keys.
            update-puts r (ghidra_va r a) keys di (addition-fields s r a dv di e).0
              (ap (ghidra_va r) (addition-fields s r a dv di e).1))
          _
    | inl e ↦
        fold-keeps (λ keys. member (ghidra_va r a) keys ≡ true) (update_data_item r)
          (data_addition_of s r) view.data_variables adding _
          (listed (addition-Unlisted s r a dv e))
  ]
    where
      adding :
          (x : ℕ × DataVar) (di : DataItemChange)
          → In x view.data_variables
          → data_addition_of s r x ≡ some di
          → (keys : List ℕ) → member (ghidra_va r a) keys ≡ true
          → member (ghidra_va r a) (update_data_item r keys di) ≡ true
      adding (b, dw) di j e keys =
          update-Retains r (ghidra_va r a) keys di (inl (addition-fields s r b dw di e).0)

      listed : Unlisted s r a dv → member (ghidra_va r a) s.ghidra_data_item_addrs ≡ true
      listed u = ground arith

  module _ (added_ids : List (Str × Option ℤ)) where
    abbrev pub after_checkin : CheckinState
    after_checkin = update_baseline r s added_ids (collect_preview view s)

    addrs : after_checkin.ghidra_data_item_addrs ≡ settled_addrs
    unfolding settled_addrs added collect_preview collect_data_item_changes
    addrs =
        ap (λ (c : List BookmarkKey × List ℕ). c.1)
          (update_baseline-marks r s added_ids (collect_preview view s))
        ∙ fold-append (update_data_item r) s.ghidra_data_item_addrs
            (filter_map (data_addition_of s r) view.data_variables)
            (filter_map (data_deletion_of view r) s.ghidra_data_item_addrs)

    nothing_added : filter_map (data_addition_of after_checkin r) view.data_variables ≡ []
    nothing_added = filter_map-nil (data_addition_of after_checkin r) view.data_variables quiet
      where
        quiet :
            (x : ℕ × DataVar) → In x view.data_variables → data_addition_of after_checkin r x ≡ none
        quiet (a, dv) i = addition-none after_checkin r a dv (elim (Bool-cases dv.auto_discovered) [
          | inl h ↦ inl h
          | inr h ↦ elim (Bool-cases (is_empty (get_or dv.type_text []))) [
            | inl t ↦ inr (inl t)
            | inr t ↦
                inr (inr (ap (member (ghidra_va r a)) addrs ∙ stays a dv i h (reached a dv i h t)))
          ]
        ])

    nothing_deleted : filter_map (data_deletion_of view r) after_checkin.ghidra_data_item_addrs ≡ []
    nothing_deleted =
        filter_map-nil (data_deletion_of view r) after_checkin.ghidra_data_item_addrs quiet
      where
        quiet :
            (g : ℕ) → In g after_checkin.ghidra_data_item_addrs → data_deletion_of view r g ≡ none
        quiet g i = elim (Bool-cases (is_still_present view (apply_rebase r g))) [
          | inl h ↦ deletion-none view r g h
          | inr h ↦ absurd (
              clash (
                sym (gone g h)
                ∙ ap (member g) (sym addrs)
                ∙ In-member g after_checkin.ghidra_data_item_addrs i))
        ]

    -- Where a view's variables are 64-bit addresses, each listed once, and the baseline's items are
    -- 64-bit addresses, a check-in of a view's preview leaves no addition and no deletion of a data
    -- item for a second preview of the same view.
    pub data_items_settle : (collect_preview view after_checkin).data_item_changes ≡ []
    unfolding collect_preview collect_data_item_changes
    data_items_settle =
        ap (λ b. collect_data_item_changes view after_checkin (rebase_of view.start b))
          (ap (λ (c : Map ℕ ℤ × ℕ × Str × Str × Str). c.1)
            (update_baseline-symbols r s added_ids (collect_preview view s)))
        ∙ ap₂ (λ (xs ys : List DataItemChange). xs ++ ys) nothing_added nothing_deleted
