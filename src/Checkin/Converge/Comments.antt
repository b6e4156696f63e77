-- ===== src/Checkin/Converge/Comments.antt =====
-- Comments: one that a check-in asks about again.
use ghidra_svr_bridge.Prelude.{
  ℕ, Bool, true, false, List, [], ◌∷◌, Option, none, some, Str, ℤ, Map, ◌≡◌, refl, sym, ap, ◌∙◌,
  inl, inr, arith, Bool-cases, ◌==◌, nat_eq, nat_beq_iff, str_eq, str_beq, if◌then◌else◌, is_empty,
  is_some, fold, In, lookup, insert, lookup-insert, has,
}
use ghidra_svr_bridge.Address.{rebase_of}
use ghidra_svr_bridge.Model.Preview.{CommentChange}
use ghidra_svr_bridge.Model.Baseline.{CheckinState}
use ghidra_svr_bridge.Model.View.{BnView}
use ghidra_svr_bridge.Collect.Comments.{
  comment_change, address_comment_of, collect_address_comments,
}
use ghidra_svr_bridge.Collect.Preview.{collect_preview}
use ghidra_svr_bridge.Checkin.Update.{update_comment, update_baseline}
use ghidra_svr_bridge.Checkin.Frame.{Comments, update_baseline-comments}
use ghidra_svr_bridge.Checkin.Converge.BookmarkSteps.{In-filter_map}

-- Two addresses of which a map holds one are not the same.
apart : (k a : ℕ) (m : Map ℕ Str) (b : Bool) → has k m ≡ b → (has a m ≡ b → ⊥) → (k == a) ≡ false
apart k a m b h n = elim (Bool-cases (k == a)) [
  | inr e ↦ e
  | inl e ↦ absurd (n (ap (λ j. has j m) (sym ((nat_beq_iff k a).0 e)) ∙ h))
]

has-other : (k a : ℕ) (t : Str) (m : Map ℕ Str) → (k == a) ≡ false → has a (insert k t m) ≡ has a m
has-other k a t m e = ap is_some (lookup-insert k a t m ∙ rw e refl)

found : (b : Bool) (t : Str) (o : Option Str) → b ≡ true → is_some (if b then some t else o) ≡ true
found true t o e = refl
found false t o e = cc

has-grown : (k a : ℕ) (t : Str) (m : Map ℕ Str) → has a m ≡ true → has a (insert k t m) ≡ true
has-grown k a t m h = elim (Bool-cases (k == a)) [
  | inl e ↦ ap is_some (lookup-insert k a t m) ∙ found (k == a) t (lookup a m) e
  | inr e ↦ has-other k a t m e ∙ h
]

differ : {b : Bool} → b ≡ true → b ≡ false → ⊥
differ h k = absurd (ground (arith, h, k))

-- A function's comment in the baseline, and no comment at its address.
abbrev OnlyFunc : ℕ → CheckinState → Type 0
OnlyFunc a s =
    (has a s.addr_to_original_comment ≡ false) × (has a s.addr_to_original_func_comment ≡ true)

update_comment-OnlyFunc :
    (a : ℕ) (s : CheckinState) (c : CommentChange) → OnlyFunc a s → OnlyFunc a (update_comment s c)
unfolding update_comment
update_comment-OnlyFunc a s c h = elim (Bool-cases (has c.addr s.addr_to_original_comment)) [
  | inl e ↦ rw e (
      (
        has-other c.addr a c.text s.addr_to_original_comment
              (apart c.addr a s.addr_to_original_comment true e (λ k. differ k h.0))
            ∙ h.0,
        h.1,
      ))
  | inr e ↦ elim (Bool-cases (has c.addr s.addr_to_original_func_comment)) [
    | inl f ↦ rw (e, f) ((h.0, has-grown c.addr a c.text s.addr_to_original_func_comment h.1))
    | inr f ↦
        rw (e, f)
          ((
            has-other c.addr a c.text s.addr_to_original_comment
                  (apart c.addr a s.addr_to_original_func_comment false f (λ k. differ h.1 k))
                ∙ h.0,
            h.1,
          ))
  ]
]

fold-OnlyFunc :
    (a : ℕ) (s : CheckinState) (cs : List CommentChange)
    → OnlyFunc a s
    → OnlyFunc a (fold update_comment s cs)
fold-OnlyFunc a s [] h = h
fold-OnlyFunc a s (c ∷ cs) h =
    fold-OnlyFunc a (update_comment s c) cs (update_comment-OnlyFunc a s c h)

missing : (o : Option Str) → is_some o ≡ false → o ≡ none
missing none h = refl
missing (some t) h = cc

not_blank : (t : Str) → is_empty t ≡ false → (t == []) ≡ false
unfolding str_beq
not_blank [] h = cc
not_blank (c ∷ t) h = refl

queued :
    (view : BnView) (s : CheckinState) (a : ℕ)
    → is_empty (view.comment_at a) ≡ false
    → has a s.addr_to_original_comment ≡ false
    → In a view.commented_addresses
    → In (comment_change s a (view.comment_at a)) (collect_address_comments view s)
unfolding collect_address_comments address_comment_of
queued view s a text h i =
    In-filter_map (address_comment_of view s) a (comment_change s a (view.comment_at a))
      view.commented_addresses i
      (rw
        (text, missing (lookup a s.addr_to_original_comment) h, not_blank (view.comment_at a) text)
        refl)

module _ (view : BnView) (s : CheckinState) (added : List (Str × Option ℤ)) where
  abbrev pub after_checkin : CheckinState
  after_checkin =
      update_baseline (rebase_of view.start s.image_base) s added (collect_preview view s)

  -- A comment at the address of a function whose own comment is in the baseline, where no comment of
  -- the address is, is collected by a preview and, behind the check-in of it, by the next one again.
  pub comment_returns :
      (a : ℕ)
      → In a view.commented_addresses
      → is_empty (view.comment_at a) ≡ false
      → has a s.addr_to_original_comment ≡ false
      → has a s.addr_to_original_func_comment ≡ true
      → In (comment_change s a (view.comment_at a)) (collect_address_comments view s)
        × In
            (comment_change after_checkin a (view.comment_at a))
            (collect_address_comments view after_checkin)
  comment_returns a i text h f = (
    queued view s a text h i,
    queued view after_checkin a text
        (ap (λ (c : Comments). has a c.1)
            (update_baseline-comments (rebase_of view.start s.image_base) s added
              (collect_preview view s))
          ∙ (fold-OnlyFunc a s (collect_preview view s).comments (h, f)).0)
        i,
  )
