-- ===== src/Checkin/Converge/BookmarkSteps.antt =====
-- Bookmarks: what one change makes of the baseline's keys, and which changes are collected.
use ghidra_svr_bridge.Prelude.{
  ℕ, ◌<◌, Bool, true, false, not, List, [], ◌∷◌, ◌++◌, none, some, Str, codes, Option, ◌≡◌, ◌≢◌,
  refl, sym, ap, ap₂, ◌∙◌, ◌⊎◌, inl, inr, subst, arith, Bool-cases, Option-cases, ◌==◌, ==-refl,
  nat_eq, str_eq, str_beq, filter_map, map, keep, fold-keeps, In, member-In, if◌then◌else◌, member,
  add, member-add, member-remove, drop, length, nat_beq_iff,
}
use ghidra_svr_bridge.Hex.{word}
use ghidra_svr_bridge.Address.{ghidra_va}
use ghidra_svr_bridge.Address.Laws.{ghidra_va-lt, ghidra_va-apply_rebase}
use ghidra_svr_bridge.Names.Text.{starts_with}
use ghidra_svr_bridge.Sync.Tags.{tag_prefix, tag_type_name, tag_data, read_tag_data}
use ghidra_svr_bridge.Sync.Tags.RoundTrip.{IsReadable, read_tag_data-tag_data}
use ghidra_svr_bridge.Model.Preview.{BookmarkChange}
use ghidra_svr_bridge.Model.Baseline.{CheckinState, BookmarkKey, bookmark_eq, bookmark_beq_iff}
use ghidra_svr_bridge.Model.View.{TagRef, BnView}
use ghidra_svr_bridge.Collect.Bookmarks.{
  key_of_tag, current_keys, bookmark_addition, bookmark_deletion, collect_bookmark_changes,
}
use ghidra_svr_bridge.Checkin.Update.{key_of_change, update_bookmark}

-- The list of a loop that pushes under a test.
pub pushed : {A B : Type 0} → (A → Bool) → (A → B) → A → Option B
pushed p f x = if p x then some (f x) else none

pub map-keep :
    {A B : Type 0} (p : A → Bool) (f : A → B) (xs : List A)
    → map f (keep p xs) ≡ filter_map (pushed p f) xs
unfolding pushed
map-keep p f [] = refl
map-keep p f (x ∷ xs) = elim (Bool-cases (p x)) [
  | inl e ↦ rw (e, filter_map) (ap (◌∷◌ (f x)) (map-keep p f xs))
  | inr e ↦ rw (e, filter_map) (map-keep p f xs)
]

pub pushed-some :
    {A B : Type 0} (p : A → Bool) (f : A → B) (x : A) (y : B)
    → pushed p f x ≡ some y
    → (p x ≡ true) × (f x ≡ y)
unfolding pushed
pushed-some p f x y h = ground arith

pub pushed-true :
    {A B : Type 0} (p : A → Bool) (f : A → B) (x : A) → p x ≡ true → pushed p f x ≡ some (f x)
unfolding pushed
pushed-true p f x h = rw h refl

-- A deletion names no category and no comment.
abbrev pub Sent : BookmarkChange → Type 0
Sent b = (b.op ≡ codes "add") ⊎ ((b.category ≡ []) × (b.comment ≡ []))

pub key_of-blank :
    (r : ℕ) (b : BookmarkChange) (k : BookmarkKey)
    → b.category ≡ []
    → b.comment ≡ []
    → k.tag_data ≢ []
    → (key_of_change r b == k) ≡ false
unfolding tag_data
key_of-blank r b k c d ne = elim (Bool-cases (key_of_change r b == k)) [
  | inr e ↦ e
  | inl e ↦ absurd (
      ne (
        ap (λ (x : BookmarkKey). x.tag_data) (sym ((bookmark_beq_iff (key_of_change r b) k).0 e))
        ∙ rw (c, d) refl))
]

-- No change takes a key with a text out of the baseline.
pub update-text :
    (r : ℕ) (keys : List BookmarkKey) (b : BookmarkChange) (k : BookmarkKey)
    → Sent b
    → k.tag_data ≢ []
    → member k keys ≡ true
    → member k (update_bookmark r keys b) ≡ true
unfolding update_bookmark str_beq
update-text r keys b k (inl o) ne h =
    rw o (member-add (key_of_change r b) k keys ∙ rw h (ground arith))
update-text r keys b k (inr (c, d)) ne h = elim (Bool-cases (b.op == codes "add")) [
  | inl o ↦ rw o (member-add (key_of_change r b) k keys ∙ rw h (ground arith))
  | inr o ↦ rw o (member-remove (key_of_change r b) k keys ∙ rw (h, key_of-blank r b k c d ne) refl)
]

pub sent_addition : BnView → CheckinState → ℕ → BookmarkKey → Option BookmarkChange
sent_addition view s r = pushed (λ k. not (member k s.ghidra_bookmark_keys)) (bookmark_addition r)

pub sent_deletion : BnView → CheckinState → ℕ → BookmarkKey → Option BookmarkChange
sent_deletion view s r = pushed (λ k. not (member k (current_keys view r))) (bookmark_deletion r)

pub starts_with-prefix : (p s : Str) → starts_with p s ≡ true → p ++ drop (length p) s ≡ s
starts_with-prefix [] s h = refl
starts_with-prefix (c ∷ p) [] h = cc
starts_with-prefix (c ∷ p) (d ∷ s) h =
    let t : starts_with p s ≡ true = ground (arith, h) in
    let e : c ≡ d = ground (arith, h, nat_beq_iff c d) in
    ap₂ (λ (x : ℕ) (xs : Str). x ∷ xs) e (starts_with-prefix p s t)

-- What every key that stands for a tag of the view is.
abbrev pub Shown : BookmarkKey → Type 0
Shown k = (k.addr < word) × (tag_type_name (drop 8 k.tag_type_name) ≡ k.tag_type_name)

pub key_of_tag-fields :
    (r : ℕ) (ref : TagRef) (k : BookmarkKey)
    → key_of_tag r ref ≡ some k
    → (starts_with tag_prefix k.tag_type_name ≡ true) × (k.addr ≡ ghidra_va r ref.addr)
unfolding key_of_tag
key_of_tag-fields r ref k h = ground arith

pub key_of_tag-Shown :
    (r : ℕ) (ref : TagRef) (k : BookmarkKey) → key_of_tag r ref ≡ some k → Shown k
unfolding tag_type_name
key_of_tag-Shown r ref k h =
    let f = key_of_tag-fields r ref k h in
    (
      subst (λ a. a < word) (sym f.1) (ghidra_va-lt r ref.addr),
      starts_with-prefix tag_prefix k.tag_type_name f.0,
    )

pub current-Shown :
    (view : BnView) (r : ℕ) (k : BookmarkKey) → member k (current_keys view r) ≡ true → Shown k
unfolding current_keys member
current-Shown view r k =
    fold-keeps (λ keys. member k keys ≡ true → Shown k) (λ keys k. add k keys) (key_of_tag r)
      view.tag_refs
      (λ ref j i e keys h m. elim (Bool-cases (j == k)) [
        | inl q ↦ subst Shown ((bookmark_beq_iff j k).0 q) (key_of_tag-Shown r ref j e)
        | inr q ↦ h (sym (member-add j k keys ∙ rw q refl) ∙ m)
      ])
      [] (λ m. cc)

-- The deletions follow the additions.
pub changes :
    (view : BnView) (s : CheckinState) (r : ℕ)
    → collect_bookmark_changes view s r
      ≡ filter_map (sent_addition view s r) (current_keys view r)
        ++ filter_map (sent_deletion view s r) s.ghidra_bookmark_keys
unfolding collect_bookmark_changes sent_addition sent_deletion
changes view s r =
    ap₂ (λ (xs ys : List BookmarkChange). xs ++ ys)
      (map-keep (λ k. not (member k s.ghidra_bookmark_keys)) (bookmark_addition r)
        (current_keys view r))
      (map-keep (λ k. not (member k (current_keys view r))) (bookmark_deletion r)
        s.ghidra_bookmark_keys)

pub addition-op :
    (view : BnView) (s : CheckinState) (r : ℕ) (k : BookmarkKey) (b : BookmarkChange)
    → sent_addition view s r k ≡ some b
    → b.op ≡ codes "add"
unfolding sent_addition bookmark_addition
addition-op view s r k b e =
    ap (λ (c : BookmarkChange). c.op) (sym (pushed-some _ (bookmark_addition r) k b e).1)

pub deletion-text :
    (view : BnView) (s : CheckinState) (r : ℕ) (k : BookmarkKey) (b : BookmarkChange)
    → sent_deletion view s r k ≡ some b
    → (b.category ≡ []) × (b.comment ≡ [])
unfolding sent_deletion bookmark_deletion
deletion-text view s r k b e =
    let q = (pushed-some _ (bookmark_deletion r) k b e).1 in
    (
      ap (λ (c : BookmarkChange). c.category) (sym q),
      ap (λ (c : BookmarkChange). c.comment) (sym q),
    )

-- The key that an addition puts is the one it was made for.
pub key_of-addition :
    (r : ℕ) (k : BookmarkKey) {category comment : Str}
    → r < word
    → Shown k
    → IsReadable category comment
    → k.tag_data ≡ tag_data category comment
    → key_of_change r (bookmark_addition r k) ≡ k
unfolding bookmark_addition
key_of-addition r k r_lt shown readable e = λ i. record {
  addr = ghidra_va-apply_rebase r k.addr r_lt shown.0 i;
  tag_type_name = shown.1 i;
  tag_data = text i;
}
  where
    text : tag_data (read_tag_data k.tag_data).0 (read_tag_data k.tag_data).1 ≡ k.tag_data
    text =
        ap (λ d. tag_data (read_tag_data d).0 (read_tag_data d).1) e
        ∙ ap (λ (c : Str × Str). tag_data c.0 c.1) (read_tag_data-tag_data readable)
        ∙ sym e

pub opened : (r : ℕ) (k : BookmarkKey) → (bookmark_addition r k).op ≡ codes "add"
unfolding bookmark_addition
opened r k = refl

pub puts_key :
    (r : ℕ) (ks : List BookmarkKey) (b : BookmarkChange) (k : BookmarkKey)
    → b.op ≡ codes "add"
    → key_of_change r b ≡ k
    → member k (update_bookmark r ks b) ≡ true
unfolding update_bookmark str_beq
puts_key r ks b k o e = rw o (member-add (key_of_change r b) k ks ∙ rw (e, ==-refl k) refl)

pub pushed_addition :
    (view : BnView) (s : CheckinState) (r : ℕ) (k : BookmarkKey)
    → member k s.ghidra_bookmark_keys ≡ false
    → sent_addition view s r k ≡ some (bookmark_addition r k)
unfolding sent_addition
pushed_addition view s r k m =
    pushed-true (λ j. not (member j s.ghidra_bookmark_keys)) (bookmark_addition r) k (ap not m)

pub In-filter_map :
    {A B : Type 0} (f : A → Option B) (x : A) (y : B) (xs : List A)
    → In x xs
    → f x ≡ some y
    → In y (filter_map f xs)
In-filter_map f x y [] i e = elim i [ ]
In-filter_map f x y (z ∷ zs) (inl h) e = rw (ap f h ∙ e, filter_map) (inl refl)
In-filter_map f x y (z ∷ zs) (inr i) e = elim (Option-cases (f z)) [
  | inl h ↦ rw (h, filter_map) (In-filter_map f x y zs i e)
  | inr (w, h) ↦ rw (h, filter_map) (inr (In-filter_map f x y zs i e))
]

pub In-right : {A : Type 0} (y : A) (xs ys : List A) → In y ys → In y (xs ++ ys)
In-right y [] ys i = i
In-right y (x ∷ xs) ys i = inr (In-right y xs ys i)

pub deletion_listed :
    (view : BnView) (s : CheckinState) (r : ℕ) (k : BookmarkKey)
    → member k s.ghidra_bookmark_keys ≡ true
    → member k (current_keys view r) ≡ false
    → In (bookmark_deletion r k) (collect_bookmark_changes view s r)
unfolding sent_deletion
deletion_listed view s r k h gone = subst (In (bookmark_deletion r k)) (sym (changes view s r)) (
    In-right (bookmark_deletion r k) (filter_map (sent_addition view s r) (current_keys view r)) _ (
      In-filter_map (sent_deletion view s r) k (bookmark_deletion r k) s.ghidra_bookmark_keys
        (member-In k s.ghidra_bookmark_keys h)
        (pushed-true (λ j. not (member j (current_keys view r))) (bookmark_deletion r) k
          (ap not gone))))
