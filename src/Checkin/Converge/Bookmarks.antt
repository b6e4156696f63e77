-- ===== src/Checkin/Converge/Bookmarks.antt =====
-- Bookmarks: which of them a check-in settles, and which it asks about again.
use ghidra_svr_bridge.Prelude.{
  ℕ, true, false, List, [], some, Str, ℤ, Option, ◌≡◌, ◌≢◌, sym, ap, ◌∙◌, inl, inr, subst,
  Bool-cases, nat_eq, str_eq, filter_map, fold, fold-append, fold-keeps, fold-reaches, In,
  member-In, member, Map,
}
use ghidra_svr_bridge.Address.{rebase_of}
use ghidra_svr_bridge.Address.Laws.{rebase_of-lt}
use ghidra_svr_bridge.Sync.Tags.{tag_data}
use ghidra_svr_bridge.Sync.Tags.RoundTrip.{IsReadable}
use ghidra_svr_bridge.Model.Preview.{BookmarkChange}
use ghidra_svr_bridge.Model.Baseline.{CheckinState, BookmarkKey, bookmark_eq}
use ghidra_svr_bridge.Model.View.{BnView}
use ghidra_svr_bridge.Collect.Bookmarks.{
  current_keys, bookmark_addition, bookmark_deletion, collect_bookmark_changes,
}
use ghidra_svr_bridge.Collect.Preview.{collect_preview}
use ghidra_svr_bridge.Checkin.Update.{update_bookmark, update_baseline}
use ghidra_svr_bridge.Checkin.Frame.{update_baseline-symbols, update_baseline-marks}
use ghidra_svr_bridge.Checkin.Converge.BookmarkSteps.{
  update-text, sent_addition, sent_deletion, current-Shown, changes, addition-op, deletion-text,
  key_of-addition, opened, puts_key, pushed_addition, deletion_listed,
}

module _ (view : BnView) (s : CheckinState) (added : List (Str × Option ℤ)) where
  abbrev pub r : ℕ
  r = rebase_of view.start s.image_base

  abbrev pub after_checkin : CheckinState
  after_checkin = update_baseline r s added (collect_preview view s)

  keys :
      after_checkin.ghidra_bookmark_keys
      ≡ fold
          (update_bookmark r)
          (fold
            (update_bookmark r)
            s.ghidra_bookmark_keys
            (filter_map (sent_addition view s r) (current_keys view r)))
          (filter_map (sent_deletion view s r) s.ghidra_bookmark_keys)
  unfolding collect_preview
  keys =
      ap (λ (c : List BookmarkKey × List ℕ). c.0)
        (update_baseline-marks r s added (collect_preview view s))
      ∙ ap (fold (update_bookmark r) s.ghidra_bookmark_keys) (changes view s r)
      ∙ fold-append (update_bookmark r) s.ghidra_bookmark_keys
          (filter_map (sent_addition view s r) (current_keys view r))
          (filter_map (sent_deletion view s r) s.ghidra_bookmark_keys)

  module _ (k : BookmarkKey) (ne : k.tag_data ≢ []) where
    adding :
        (j : BookmarkKey) (b : BookmarkChange)
        → In j (current_keys view r)
        → sent_addition view s r j ≡ some b
        → (ks : List BookmarkKey) → member k ks ≡ true
        → member k (update_bookmark r ks b) ≡ true
    adding j b i e ks = update-text r ks b k (inl (addition-op view s r j b e)) ne

    deleting :
        (j : BookmarkKey) (b : BookmarkChange)
        → In j s.ghidra_bookmark_keys
        → sent_deletion view s r j ≡ some b
        → (ks : List BookmarkKey) → member k ks ≡ true
        → member k (update_bookmark r ks b) ≡ true
    deleting j b i e ks = update-text r ks b k (inr (deletion-text view s r j b e)) ne

    behind :
        member k (
            fold
              (update_bookmark r)
              s.ghidra_bookmark_keys
              (filter_map (sent_addition view s r) (current_keys view r)))
          ≡ true
        → member k after_checkin.ghidra_bookmark_keys ≡ true
    behind h =
        ap (member k) keys
        ∙ fold-keeps (λ ks. member k ks ≡ true) (update_bookmark r) (sent_deletion view s r)
            s.ghidra_bookmark_keys deleting _ h

    old_key_stays :
        member k s.ghidra_bookmark_keys ≡ true → member k after_checkin.ghidra_bookmark_keys ≡ true
    old_key_stays h = behind (
        fold-keeps (λ ks. member k ks ≡ true) (update_bookmark r) (sent_addition view s r)
          (current_keys view r) adding s.ghidra_bookmark_keys h)

    -- A bookmark with a text that is in the baseline and no longer in the view is deleted by a
    -- check-in and asked to be deleted again by the next preview.
    pub deletion_returns :
        member k s.ghidra_bookmark_keys ≡ true
        → member k (current_keys view r) ≡ false
        → In (bookmark_deletion r k) (collect_preview view s).bookmark_changes
          × In (bookmark_deletion r k) (collect_preview view after_checkin).bookmark_changes
    unfolding collect_preview
    deletion_returns h gone = (
      deletion_listed view s r k h gone,
      subst
          (λ b.
            In (bookmark_deletion r k)
              (collect_bookmark_changes view after_checkin (rebase_of view.start b)))
          (sym (
            ap (λ (c : Map ℕ ℤ × ℕ × Str × Str × Str). c.1)
              (update_baseline-symbols r s added (collect_preview view s))))
          (deletion_listed view after_checkin r k (old_key_stays h) gone),
    )

    -- A bookmark of the view with a text, readable as the import writes it, is in the baseline behind a
    -- check-in, and so the next preview does not add it again.
    pub addition_settles :
        {category comment : Str}
        → IsReadable category comment
        → k.tag_data ≡ tag_data category comment
        → member k (current_keys view r) ≡ true
        → member k after_checkin.ghidra_bookmark_keys ≡ true
    addition_settles readable e h = elim (Bool-cases (member k s.ghidra_bookmark_keys)) [
      | inl m ↦ old_key_stays m
      | inr m ↦ behind (
          fold-reaches (λ ks. member k ks ≡ true) (update_bookmark r) (sent_addition view s r)
            (current_keys view r) adding k (bookmark_addition r k)
            (member-In k (current_keys view r) h) (sent m) puts s.ghidra_bookmark_keys)
    ]
      where
        sent :
            member k s.ghidra_bookmark_keys ≡ false
            → sent_addition view s r k ≡ some (bookmark_addition r k)
        sent m = pushed_addition view s r k m

        puts :
            (ks : List BookmarkKey) → member k (update_bookmark r ks (bookmark_addition r k)) ≡ true
        puts ks = puts_key r ks (bookmark_addition r k) k (opened r k) (
            key_of-addition r k (rebase_of-lt view.start s.image_base) (current-Shown view r k h)
              readable e)
