-- ===== src/Wire/Routing.antt =====
-- Where a changed comment goes, and at which address.
use ghidra_svr_bridge.Prelude.{
  ℕ, ◌<◌, true, none, if◌then◌else◌, false, [], ◌∷◌, Option, some, Str, codes, Map, ◌≡◌, refl, ap,
  ◌∙◌, inl, inr, Bool-cases, Option-cases, ◌==◌, ==-refl, nat_eq, str_eq, str_beq, is_empty, lookup,
  lookup-insert, has,
}
use ghidra_svr_bridge.Hex.{word, to_hex, parse_hex_addr}
use ghidra_svr_bridge.Hex.RoundTrip.{parse_hex_addr-to_hex}
use ghidra_svr_bridge.Address.{ghidra_va, apply_rebase}
use ghidra_svr_bridge.Address.Laws.{ghidra_va-lt, apply_rebase-ghidra_va}
use ghidra_svr_bridge.Model.Export.{GhidraDbExport}
use ghidra_svr_bridge.Model.Preview.{CommentChange}
use ghidra_svr_bridge.Sync.Writeback.{build_writeback_maps}
use ghidra_svr_bridge.Sync.Writeback.Columns.{
  IsColumn, end_of_line, repeatable, before, behind, Columned, build_writeback_maps-Columned,
}
use ghidra_svr_bridge.Wire.Library.{JsonLib}
use ghidra_svr_bridge.Wire.Encode.{route, set_text, comment_entry}

-- What an address is sent as, an import of it takes back to the view's address.
pub sent_address :
    (rebase addr : ℕ)
    → rebase < word
    → addr < word
    → apply_rebase rebase (parse_hex_addr (to_hex (ghidra_va rebase addr))) ≡ addr
sent_address rebase addr r a =
    ap (apply_rebase rebase)
      (parse_hex_addr-to_hex (ghidra_va rebase addr) (ghidra_va-lt rebase addr))
    ∙ apply_rebase-ghidra_va rebase addr r a

-- Where the text of a comment at an address belongs in Ghidra: the plate column where a function's
-- comment was imported, else the column that the import recorded, or the end of the line where it
-- recorded none.
pub data Belongs (func_comments fields : Map ℕ Str) (a : ℕ) : Str → Type 0 where
  to_plate : has a func_comments ≡ true → Belongs func_comments fields a (codes "plate")
  to_recorded :
      {f : Str}
      → has a func_comments ≡ false
      → lookup a fields ≡ some f
      → IsColumn f
      → Belongs func_comments fields a f
  to_line_end :
      has a func_comments ≡ false
      → lookup a fields ≡ none
      → Belongs func_comments fields a (codes "eol")

route-Belongs :
    (func_comments fields : Map ℕ Str) (a : ℕ)
    → Columned fields
    → Belongs func_comments fields a (route func_comments fields a)
unfolding route
route-Belongs func_comments fields a h = elim (Bool-cases (has a func_comments)) [
  | inl e ↦ simp e (to_plate e)
  | inr e ↦ elim (Option-cases (lookup a fields)) [
    | inl n ↦ simp (e, n) (to_line_end e n)
    | inr (f, n) ↦ simp (e, n) (to_recorded e n (h a f n))
  ]
]

-- A column is none of the two other keys of an entry.
abbrev Apart : Str → Type 0
Apart f = ((f == codes "va") ≡ false) × ((codes "key" == f) ≡ false)

IsColumn-Apart : {f : Str} → IsColumn f → Apart f
unfolding str_beq
IsColumn-Apart end_of_line = (refl, refl)
IsColumn-Apart repeatable = (refl, refl)
IsColumn-Apart before = (refl, refl)
IsColumn-Apart behind = (refl, refl)

Belongs-Apart :
    {func_comments fields : Map ℕ Str} {a : ℕ} {f : Str}
    → Belongs func_comments fields a f
    → Apart f
unfolding str_beq
Belongs-Apart (to_plate h) = (refl, refl)
Belongs-Apart (to_recorded h l c) = IsColumn-Apart c
Belongs-Apart (to_line_end h l) = (refl, refl)

module _ (lib : JsonLib) where
  lookup-set_text :
      (k j : Str) (t : Str) (e : Map Str lib.Json)
      → (k == j) ≡ false
      → lookup j (set_text lib k t e) ≡ lookup j e
  lookup-set_text k j t e ne = elim (Bool-cases (is_empty t)) [
    | inl q ↦ rw q refl
    | inr q ↦ rw q (lookup-insert k j (lib.of_text t) e ∙ rw ne refl)
  ]

  -- An entry is routed: its address reads back as the comment's, and the text stands under the
  -- column where it belongs, and under no other.
  pub data IsRouted (rebase : ℕ) (func_comments fields : Map ℕ Str) (c : CommentChange)
      (entry : Map Str lib.Json) : Type 0 where
    routed :
        (va column : Str)
        → lookup (codes "va") entry ≡ some (lib.of_text va)
        → apply_rebase rebase (parse_hex_addr va) ≡ c.addr
        → Belongs func_comments fields c.addr column
        → lookup column entry ≡ some (lib.of_text c.text)
        → ((other : Str)
            → (column == other) ≡ false
            → (codes "va" == other) ≡ false
            → (codes "key" == other) ≡ false
            → lookup other entry ≡ none)
        → IsRouted rebase func_comments fields c entry

  module _ (rebase : ℕ) (func_comments fields : Map ℕ Str) (c : CommentChange) where
    abbrev begun : Map Str lib.Json
    begun = (codes "va", lib.of_text (to_hex (ghidra_va rebase c.addr))) ∷ []

    -- A key of the entry but for that of the comment itself.
    lookup-entry :
        (k : Str)
        → (codes "key" == k) ≡ false
        → lookup k (comment_entry lib rebase func_comments fields c) ≡ (
            if route func_comments fields c.addr == k
            then some (lib.of_text c.text)
            else lookup k begun)
    unfolding comment_entry
    lookup-entry k n =
        lookup-set_text (codes "key") k c.encoded_key _ n
        ∙ lookup-insert (route func_comments fields c.addr) k (lib.of_text c.text) begun

    entry-IsRouted :
        Columned fields
        → rebase < word
        → c.addr < word
        → IsRouted rebase func_comments fields c (comment_entry lib rebase func_comments fields c)
    unfolding lookup str_beq
    entry-IsRouted h r a =
        let column = route func_comments fields c.addr in
        let place = route-Belongs func_comments fields c.addr h in
        let free = Belongs-Apart place in
        routed (to_hex (ghidra_va rebase c.addr)) column
          (lookup-entry (codes "va") refl ∙ rw free.0 refl) (sent_address rebase c.addr r a) place
          (lookup-entry column free.1 ∙ rw (==-refl column) refl)
          (λ other n v k. lookup-entry other k ∙ rw (n, v) refl)

  -- Behind an import's maps, the entry of a changed comment has an address that an import reads
  -- back as the comment's, for 64-bit addresses, and its text under one column alone: the plate
  -- where a function's comment was imported, else the one that the import recorded, or the end of
  -- the line.
  pub comment_entry-route :
      (bn_base : Option ℕ) (e : GhidraDbExport) (rebase : ℕ) (func_comments : Map ℕ Str)
      (c : CommentChange)
      → rebase < word
      → c.addr < word
      → IsRouted rebase func_comments (build_writeback_maps bn_base e).addr_to_comment_field c (
          comment_entry lib rebase func_comments
            (build_writeback_maps bn_base e).addr_to_comment_field
            c)
  comment_entry-route bn_base e rebase func_comments c r a =
      entry-IsRouted rebase func_comments _ c (build_writeback_maps-Columned bn_base e) r a
