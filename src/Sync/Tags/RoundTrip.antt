-- ===== src/Sync/Tags/RoundTrip.antt =====
-- Which bookmarks a tag's text gives back.
use ghidra_svr_bridge.Prelude.{
  ℕ, suc, ◌+◌, ◌-◌, false, [], ◌∷◌, ◌++◌, some, Str, ◌≡◌, ◌≢◌, refl, ap, ap₂, ◌∙◌, nat_eq,
  if◌then◌else◌, length, length-append, take, drop, ltb, arith, member,
}
use ghidra_svr_bridge.Names.Text.{find_char, shift}
use ghidra_svr_bridge.Sync.Tags.{
  tag_prefix, tag_type_name, tag_data, split_at_bracket, read_tag_data,
}

-- The first bracket that closes a category without one.
find_char-append :
    (c : ℕ) (s t : Str) → member c s ≡ false → find_char c (s ++ c ∷ t) ≡ some (length s)
unfolding find_char member
find_char-append c [] t h = ground arith
find_char-append c (d ∷ s) t h = ground (arith, find_char-append c s t)

take-append : (s t : Str) → take (length s) (s ++ t) ≡ s
take-append [] t = refl
take-append (c ∷ s) t = ap (◌∷◌ c) (take-append s t)

drop-append : (s t : Str) → drop (length s) (s ++ t) ≡ t
drop-append [] t = refl
drop-append (c ∷ s) t = drop-append s t

-- The prefix of a tag type comes off again.
pub tag_type_name-drop : (bm_type : Str) → drop 8 (tag_type_name bm_type) ≡ bm_type
unfolding tag_type_name
tag_type_name-drop bm_type = drop-append tag_prefix bm_type

-- A category with no closing bracket, or no category and a comment that opens with none.
pub data IsReadable : Str → Str → Type 0 where
  filed :
      (category comment : Str)
      → category ≢ []
      → member b']' category ≡ false
      → IsReadable category comment
  plain : (comment : Str) → (c : ℕ) (cs : Str) → comment ≡ c ∷ cs → c ≢ b'[' → IsReadable [] comment
  blank : IsReadable [] []

drop_two : (s t : Str) (a b : ℕ) → drop (suc (suc (length s))) (s ++ a ∷ b ∷ t) ≡ t
drop_two [] t a b = refl
drop_two (c ∷ s) t a b = drop_two s t a b

-- The test on the size only guards the read: behind the end there is nothing.
guarded_comment :
    (category comment : Str)
    → (if ltb (suc (length category) + 2) (suc (length (category ++ (b']' ∷ b' ' ∷ comment))))
        then comment
        else [])
      ≡ comment
guarded_comment category [] = ground (arith, length-append category (b']' ∷ b' ' ∷ []))
guarded_comment category (c ∷ cs) = ground (arith, length-append category (b']' ∷ b' ' ∷ c ∷ cs))

past_bracket :
    (category comment : Str)
    → drop (suc (length category) + 2) (b'[' ∷ (category ++ (b']' ∷ b' ' ∷ comment))) ≡ comment
past_bracket category comment =
    let e : suc (length category) + 2 ≡ suc (suc (suc (length category))) = omega arith in
    rw e (drop_two category comment b']' b' ')

before_bracket :
    (category comment : Str)
    → take (suc (length category) - 1) (category ++ (b']' ∷ b' ' ∷ comment)) ≡ category
before_bracket category comment =
    let e : suc (length category) - 1 ≡ length category = omega arith in
    rw e (take-append category (b']' ∷ b' ' ∷ comment))

read_filed :
    (category comment : Str)
    → member b']' category ≡ false
    → split_at_bracket
        (b'[' ∷ (category ++ (b']' ∷ b' ' ∷ comment)))
        (find_char b']' (b'[' ∷ (category ++ (b']' ∷ b' ' ∷ comment))))
      ≡ (category, comment)
unfolding split_at_bracket find_char
read_filed category comment h =
    rw (find_char-append b']' category (b' ' ∷ comment) h, shift)
      (ap₂ (λ (a b : Str). (a, b)) (before_bracket category comment)
        (ap
            (λ t.
              if ltb (suc (length category) + 2)
                (suc (length (category ++ (b']' ∷ b' ' ∷ comment))))
              then t
              else [])
            (past_bracket category comment)
          ∙ guarded_comment category comment))

-- The check-in reads the category and the comment of a bookmark off the tag that the import wrote.
pub read_tag_data-tag_data :
    {category comment : Str}
    → IsReadable category comment
    → read_tag_data (tag_data category comment) ≡ (category, comment)
unfolding read_tag_data tag_data
read_tag_data-tag_data (filed [] comment ne h) = absurd (ne refl)
read_tag_data-tag_data (filed (c ∷ cs) comment ne h) = read_filed (c ∷ cs) comment h
read_tag_data-tag_data (plain comment c cs e ne) = rw e (ground arith)
read_tag_data-tag_data blank = refl
