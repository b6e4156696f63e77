-- ===== src/Import/Kept/Comments.antt =====
-- `applyToView` and the comments that a view has already.
use ghidra_svr_bridge.Prelude.{
  ℕ, Bool, true, false, ◌≡◌, ◌≢◌, refl, sym, ap, subst, ◌∙◌, arith, inl, inr, Bool-cases, is_empty,
  nat_eq, str_eq, ◌==◌, Str,
}
use ghidra_svr_bridge.Model.Export.{GhidraDbExport}
use ghidra_svr_bridge.Import.Api.{BnApi, BnHandles, Edit, set_comment_for_address}
use ghidra_svr_bridge.Import.Comments.{may_write}
use ghidra_svr_bridge.Import.Apply.{apply_export}
use ghidra_svr_bridge.Import.Stable.{is_quiet}
use ghidra_svr_bridge.Import.Steps.{KeepsEdits, export-keeps}

unfoldable pub is_commenting : {h : BnHandles} → Edit h → Bool
is_commenting (set_comment_for_address _ _) = true
is_commenting _ = false

-- The comments of addresses: one is as it was set, and no other call changes it.
pub record CommentLaws (api : BnApi) : Type 0 where
  pub written :
      (a : ℕ) (t : Str) (v : api.View)
      → api.comment_at (api.perform (set_comment_for_address a t) v) a ≡ t
  pub elsewhere :
      (a b : ℕ) (t : Str) (v : api.View)
      → a ≢ b
      → api.comment_at (api.perform (set_comment_for_address a t) v) b ≡ api.comment_at v b
  pub untouched :
      (e : Edit api.handles) (a : ℕ) (v : api.View)
      → is_commenting e ≡ false
      → api.comment_at (api.perform e v) a ≡ api.comment_at v a

quiet-commenting : {h : BnHandles} (e : Edit h) → is_quiet e ≡ true → is_commenting e ≡ false
unfolding is_quiet is_commenting
quiet-commenting (set_comment_for_address _ _) q = cc
quiet-commenting _ q = refl

module _ (api : BnApi) (laws : CommentLaws api) (a : ℕ) (c : Str) where
  abbrev Says : api.View → Type 0
  Says v = api.comment_at v a ≡ c

  other-Says :
      (e : Edit api.handles) (v : api.View)
      → is_commenting e ≡ false
      → Says v
      → Says (api.perform e v)
  other-Says e v q h = laws.untouched e a v q ∙ h

  -- A text that may be written over a comment that is not empty is that comment.
  may_write-same :
      (existing text : Str)
      → is_empty existing ≡ false
      → may_write existing text ≡ true
      → text ≡ existing
  may_write-same existing text n w = ground (arith, str_eq.same_iff existing text, n, w)

  written-Says :
      (caddr : ℕ) (text : Str) (v : api.View)
      → is_empty c ≡ false
      → may_write (api.comment_at v caddr) text ≡ true
      → Says v
      → Says (api.perform (set_comment_for_address caddr text) v)
  written-Says caddr text v n w h = elim (Bool-cases (caddr == a)) [
    | inl e ↦
        let same : caddr ≡ a = (nat_eq.same_iff caddr a).0 e in
        subst (λ k. api.comment_at (api.perform (set_comment_for_address k text) v) a ≡ c)
          (sym same)
          (laws.written a text v
            ∙ may_write-same c text n
                (subst (λ t. may_write t text ≡ true) (ap (λ k. api.comment_at v k) same ∙ h) w))
    | inr e ↦ laws.elsewhere caddr a text v (λ s. ground (arith, e, s, nat_eq.same_iff caddr a)) ∙ h
  ]

  pub edits-Says : is_empty c ≡ false → KeepsEdits api Says
  unfolding is_commenting
  edits-Says n = record {
    quiet = λ e q v h. other-Says e v (quiet-commenting e q) h;
    naming = λ addr y v w h. other-Says _ v refl h;
    making = λ plat addr v h. other-Says _ v refl h;
    writing = λ caddr text v w h. written-Says caddr text v n w h;
  }

-- Where the API's calls write comments as documented, the comment that an address has in a view, if
-- there is one, is the same behind an import of any export.
pub comments-kept :
    (api : BnApi) (laws : CommentLaws api) (view : api.View) (e : GhidraDbExport) (a : ℕ)
    → is_empty (api.comment_at view a) ≡ false
    → api.comment_at (apply_export api view e).0 a ≡ api.comment_at view a
comments-kept api laws view e a n =
    let c = api.comment_at view a in
    export-keeps api (λ v. api.comment_at v a ≡ c) (edits-Says api laws a c n) view e refl
