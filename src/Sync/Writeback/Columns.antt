-- ===== src/Sync/Writeback/Columns.antt =====
-- The columns that the maps of an import name.
use ghidra_svr_bridge.Prelude.{
  ℕ, true, false, List, [], ◌∷◌, Option, none, some, Str, codes, Map, ◌≡◌, refl, sym, ◌∙◌, ◌⊎◌,
  Bool, inl, inr, subst, arith, Bool-cases, ◌==◌, nat_eq, if◌then◌else◌, is_empty, lookup, insert,
  lookup-insert, fold-inv, fold-frame, All,
}
use ghidra_svr_bridge.Address.{rebase_of, apply_rebase}
use ghidra_svr_bridge.Model.Export.{GhidraSymbol, GhidraComment, GhidraDbExport}
use ghidra_svr_bridge.Sync.Comments.{
  Merged, no_parts, add_part, comm_parts, merge_parts, merged_field,
}
use ghidra_svr_bridge.Sync.Result.{SyncResult}
use ghidra_svr_bridge.Sync.Writeback.{
  record_symbol, record_comment_key, record_text, record_plate, record_comment, copy_lists,
  build_writeback_maps,
}

-- The four columns of Ghidra's that stand at an address.
pub data IsColumn : Str → Type 0 where
  end_of_line : IsColumn (codes "eol")
  repeatable : IsColumn (codes "rep")
  before : IsColumn (codes "pre")
  behind : IsColumn (codes "post")

abbrev Founded : Merged → Type 0
Founded m = (m.field_count ≡ 0) ⊎ IsColumn m.solo_field

add_part-Founded : (m : Merged) (p : Str × Str) → IsColumn p.1 → Founded m → Founded (add_part m p)
unfolding add_part
add_part-Founded m (part, field) c h = elim (Bool-cases (is_empty part)) [
  | inl e ↦ rw e h
  | inr e ↦ elim (Bool-cases (m.field_count == 0)) [
    | inl z ↦ rw (e, z) (inr c)
    | inr z ↦ rw (e, z) (inr (solo h z))
  ]
]
  where
    solo : Founded m → (m.field_count == 0) ≡ false → IsColumn m.solo_field
    solo (inr c) z = c
    solo (inl k) z = absurd (ground (arith, k, z))

merge_parts-Founded : (c : GhidraComment) → Founded (merge_parts c)
unfolding merge_parts
merge_parts-Founded c =
    fold-inv Founded (λ p. IsColumn p.1) add_part (λ m p q h. add_part-Founded m p q h) no_parts
      (comm_parts c) (end_of_line, (repeatable, (before, (behind, tt)))) (inl refl)

pub merged_field-IsColumn : (c : GhidraComment) → IsColumn (merged_field (merge_parts c))
unfolding merged_field
merged_field-IsColumn c = elim (Bool-cases ((merge_parts c).field_count == 1)) [
  | inl e ↦ rw e (solo (merge_parts-Founded c) e)
  | inr e ↦ rw e end_of_line
]
  where
    solo :
        Founded (merge_parts c)
        → ((merge_parts c).field_count == 1) ≡ true
        → IsColumn (merge_parts c).solo_field
    solo (inr d) z = d
    solo (inl k) z = absurd (ground (arith, k, z))

abbrev pub Columned : Map ℕ Str → Type 0
Columned m = (a : ℕ) (f : Str) → lookup a m ≡ some f → IsColumn f

-- What a look-up behind an insertion finds.
if-some :
    (b : Bool) (f g : Str) (o : Option Str)
    → (if b then some f else o) ≡ some g
    → (f ≡ g) ⊎ (o ≡ some g)
if-some true f g o h = inl (ground arith)
if-some false f g o h = inr h

insert-Columned :
    (m : Map ℕ Str) (k : ℕ) (f : Str) → IsColumn f → Columned m → Columned (insert k f m)
insert-Columned m k f c h a g e =
    elim (if-some (k == a) f g (lookup a m) (sym (lookup-insert k a f m) ∙ e)) [
      | inl q ↦ subst IsColumn q c
      | inr q ↦ h a g q
    ]

key_frame :
    (a : ℕ) (r : SyncResult) (c : GhidraComment)
    → (record_comment_key a r c).addr_to_comment_field ≡ r.addr_to_comment_field
unfolding record_comment_key
key_frame a r c = elim (Bool-cases (is_empty c.encoded_key)) [
  | inl e ↦ rw e refl
  | inr e ↦ rw e refl
]

plate_frame :
    (a : ℕ) (r : SyncResult) (c : GhidraComment)
    → (record_plate a r c).addr_to_comment_field ≡ r.addr_to_comment_field
unfolding record_plate
plate_frame a r c = elim (Bool-cases (is_empty c.plate)) [ inl e ↦ rw e refl | inr e ↦ rw e refl ]

symbol_frame :
    (rebase : ℕ) (r : SyncResult) (y : GhidraSymbol)
    → (record_symbol rebase r y).addr_to_comment_field ≡ r.addr_to_comment_field
unfolding record_symbol
symbol_frame rebase r y = refl

text_step :
    (a : ℕ) (r : SyncResult) (c : GhidraComment)
    → Columned r.addr_to_comment_field
    → Columned (record_text a r (merge_parts c)).addr_to_comment_field
unfolding record_text
text_step a r c h = elim (Bool-cases (is_empty (merge_parts c).text)) [
  | inl e ↦ rw e h
  | inr e ↦ rw e (
      insert-Columned r.addr_to_comment_field a (merged_field (merge_parts c))
        (merged_field-IsColumn c) h)
]

units : (cs : List GhidraComment) → All (λ c. Unit {0}) cs
units [] = tt
units (c ∷ cs) = (tt, units cs)

record_comment-Columned :
    (rebase : ℕ) (r : SyncResult) (c : GhidraComment)
    → Columned r.addr_to_comment_field
    → Columned (record_comment rebase r c).addr_to_comment_field
unfolding record_comment
record_comment-Columned rebase r c h =
    subst Columned
      (sym (plate_frame caddr (record_text caddr (record_comment_key caddr r c) (merge_parts c)) c))
      (text_step caddr (record_comment_key caddr r c) c
        (subst Columned (sym (key_frame caddr r c)) h))
  where
    caddr : ℕ
    caddr = apply_rebase rebase c.addr

-- The column that the maps of an import name for a comment is one of Ghidra's four.
pub build_writeback_maps-Columned :
    (bn_base : Option ℕ) (e : GhidraDbExport)
    → Columned (build_writeback_maps bn_base e).addr_to_comment_field
unfolding build_writeback_maps copy_lists lookup
build_writeback_maps-Columned none e = λ a f h. cc
build_writeback_maps-Columned (some bn_base) e =
    fold-inv (λ r. Columned r.addr_to_comment_field) (λ c. Unit)
      (record_comment (rebase_of bn_base e.image_base))
      (λ r c u h. record_comment-Columned (rebase_of bn_base e.image_base) r c h) _ e.comments
      (units e.comments)
      (subst Columned
        (sym (
          fold-frame (λ (r : SyncResult). r.addr_to_comment_field)
            (record_symbol (rebase_of bn_base e.image_base))
            (λ r y. symbol_frame (rebase_of bn_base e.image_base) r y) _ e.symbols))
        (λ a f h. cc))
