-- ===== src/Import/Kept/Baseline.antt =====
-- The baseline of names behind an import, where two symbols of the export share an address.
use ghidra_svr_bridge.Prelude.{
  ℕ, true, List, [], ◌∷◌, ◌++◌, some, ◌≡◌, ◌≢◌, refl, sym, ap, subst, ◌∙◌, inl, inr, Bool-cases,
  if◌then◌else◌, is_empty, nat_eq, str_eq, int_eq, ◌==◌, fold, fold-append, fold-frame, All, lookup,
  insert, lookup-insert, ==-refl, append_assoc, Map,
}
use ghidra_svr_bridge.Address.{apply_rebase, rebase_of}
use ghidra_svr_bridge.Model.Export.{GhidraSymbol, GhidraComment, GhidraDbExport}
use ghidra_svr_bridge.Sync.Comments.{Merged, merge_parts}
use ghidra_svr_bridge.Sync.Result.{SyncResult, initial_result}
use ghidra_svr_bridge.Sync.Writeback.{
  record_symbol, record_comment_key, record_text, record_plate, record_comment, copy_lists,
  build_writeback_maps,
}
use ghidra_svr_bridge.Import.Api.{BnApi}
use ghidra_svr_bridge.Import.Apply.{apply_export, apply_to_view}
use ghidra_svr_bridge.Import.Maps.{writeback_part, apply_to_view-writeback}
use ghidra_svr_bridge.Import.Kept.Names.{NameLaws, IsChosen}
use ghidra_svr_bridge.Import.Kept.Duplicates.{LeavesFree, is_free, first_symbol-named}

-- The loop over the comments leaves the names alone.
key-names :
    (a : ℕ) (r : SyncResult) (c : GhidraComment)
    → (record_comment_key a r c).addr_to_original_name ≡ r.addr_to_original_name
unfolding record_comment_key
key-names a r c = elim (Bool-cases (is_empty c.encoded_key)) [
  | inl e ↦ rw e refl
  | inr e ↦ rw e refl
]

text-names :
    (a : ℕ) (r : SyncResult) (m : Merged)
    → (record_text a r m).addr_to_original_name ≡ r.addr_to_original_name
unfolding record_text
text-names a r m = elim (Bool-cases (is_empty m.text)) [ inl e ↦ rw e refl | inr e ↦ rw e refl ]

plate-names :
    (a : ℕ) (r : SyncResult) (c : GhidraComment)
    → (record_plate a r c).addr_to_original_name ≡ r.addr_to_original_name
unfolding record_plate
plate-names a r c = elim (Bool-cases (is_empty c.plate)) [ inl e ↦ rw e refl | inr e ↦ rw e refl ]

comment-names :
    (rebase : ℕ) (r : SyncResult) (c : GhidraComment)
    → (record_comment rebase r c).addr_to_original_name ≡ r.addr_to_original_name
unfolding record_comment
comment-names rebase r c =
    let a = apply_rebase rebase c.addr in
    plate-names a _ c ∙ (text-names a _ (merge_parts c) ∙ key-names a r c)

insert-found {ℓ} : {V : Type ℓ} (a : ℕ) (v : V) (m : Map ℕ V) → lookup a (insert a v m) ≡ some v
insert-found a v m = lookup-insert a a v m ∙ found (==-refl a)
  where
    found : (a == a) ≡ true → (if a == a then some v else lookup a m) ≡ some v
    found e = rw e refl

-- The last symbol of the export is the baseline of its address.
last-recorded :
    (bn_base : ℕ) (e : GhidraDbExport) (front : List GhidraSymbol) (z : GhidraSymbol)
    → e.symbols ≡ front ++ z ∷ []
    → lookup
        (apply_rebase (rebase_of bn_base e.image_base) z.addr)
        (build_writeback_maps (some bn_base) e).addr_to_original_name
      ≡ some z.name
unfolding build_writeback_maps copy_lists record_symbol
last-recorded bn_base e front z s =
    let rebase = rebase_of bn_base e.image_base in
    let a = apply_rebase rebase z.addr in
    let first = record initial_result { image_base = e.image_base } in
    let before = fold (record_symbol rebase) first front in
    let names : (fold (record_symbol rebase) first e.symbols).addr_to_original_name
        ≡ insert a z.name before.addr_to_original_name =
      ap (λ ys. (fold (record_symbol rebase) first ys).addr_to_original_name) s
      ∙ ap (λ (r : SyncResult). r.addr_to_original_name)
          (fold-append (record_symbol rebase) first front (z ∷ [])) in
    ap (lookup a) (
      fold-frame (λ (r : SyncResult). r.addr_to_original_name) (record_comment rebase)
        (λ r c. comment-names rebase r c) _ e.comments
      ∙ names)
    ∙ insert-found a z.name before.addr_to_original_name

-- Where the API names symbols as documented, the name of an address in a view is absent, empty or of
-- a form that the import's test takes for an analysis's, and the API's other calls leave it so: of an export with two or more symbols at the address, the last of the export among them, the
-- import gives the view the name of the first, if it is not empty and of none of those forms,
-- and records that of the last as the baseline with which the view is compared.
pub duplicate-recorded :
    (api : BnApi) (laws : NameLaws api) (view : api.View) (e : GhidraDbExport)
    (front middle : List GhidraSymbol) (y z : GhidraSymbol)
    (leaves : LeavesFree api (apply_rebase (rebase_of (api.start view) e.image_base) z.addr))
    → e.symbols ≡ front ++ y ∷ (middle ++ z ∷ [])
    → All
        (λ x.
          apply_rebase (rebase_of (api.start view) e.image_base) x.addr
          ≢ apply_rebase (rebase_of (api.start view) e.image_base) z.addr)
        front
    → y.addr ≡ z.addr
    → is_free
        (api.symbol_name_at view (apply_rebase (rebase_of (api.start view) e.image_base) z.addr))
      ≡ true
    → IsChosen y.name
    → (api.symbol_name_at
          (apply_export api view e).0
          (apply_rebase (rebase_of (api.start view) e.image_base) z.addr)
        ≡ some y.name)
      × (lookup
            (apply_rebase (rebase_of (api.start view) e.image_base) z.addr)
            (apply_export api view e).1.addr_to_original_name
          ≡ some z.name)
unfolding apply_to_view writeback_part
duplicate-recorded api laws view e front middle y z leaves s n same h c =
    let rebase = rebase_of (api.start view) e.image_base in
    (
      subst
          (λ k.
            api.symbol_name_at (apply_export api view e).0 (apply_rebase rebase k) ≡ some y.name)
          same
          (first_symbol-named api laws view e front (middle ++ z ∷ []) y
            (subst (λ k. LeavesFree api (apply_rebase rebase k)) (sym same) leaves) s
            (subst (λ k. All (λ x. apply_rebase rebase x.addr ≢ apply_rebase rebase k) front)
              (sym same) n)
            (subst (λ k. is_free (api.symbol_name_at view (apply_rebase rebase k)) ≡ true)
              (sym same) h)
            c),
      ap (λ (r : SyncResult). lookup (apply_rebase rebase z.addr) r.addr_to_original_name)
            (apply_to_view-writeback api (some view) e)
          ∙ last-recorded (api.start view) e (front ++ y ∷ middle) z
              (s ∙ sym (append_assoc front (y ∷ middle) (z ∷ []))),
    )
