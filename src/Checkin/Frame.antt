-- ===== src/Checkin/Frame.antt =====
-- What each step of the baseline's update leaves alone.
use ghidra_svr_bridge.Prelude.{
  ℕ, Str, ℤ, Option, none, some, Map, List, [], ◌∷◌, ◌≡◌, refl, ap, sym, ◌∙◌, codes, insert,
  if◌then◌else◌, Bool-cases, Option-cases, inl, inr, fold-frame, fold, lookup, has, str_eq, nat_eq,
}
use ghidra_svr_bridge.Model.Export.{GhidraDataType}
use ghidra_svr_bridge.Model.Preview.{
  GhidraCheckinPreview, CommentChange, ParamRename, NewParam, FuncSigChange,
}
use ghidra_svr_bridge.Model.Baseline.{CheckinState, BookmarkKey}
use ghidra_svr_bridge.Checkin.Update.{
  record_added_id, record_added_ids, update_names, update_symbols, update_comment, update_type,
  update_types, update_param, update_new_param, update_equate_ref, update_equates, update_bookmark,
  update_data_item, update_marks, update_func_sig, update_baseline,
}

-- A projection of the state, and that a step does not change it.
module _ {F : Type 0} (g : CheckinState → F) where
  abbrev pub Marks : Type 0
  Marks = (r : ℕ) (s : CheckinState) (p : GhidraCheckinPreview) → g (update_marks r s p) ≡ g s

  -- The steps that touch variables, equates and signatures.
  pub record Others : Type 0 where
    pub param : (s : CheckinState) (x : ParamRename) → g (update_param s x) ≡ g s
    pub new_param : (r : ℕ) (s : CheckinState) (x : NewParam) → g (update_new_param r s x) ≡ g s
    pub equates :
        (r : ℕ) (s : CheckinState) (p : GhidraCheckinPreview) → g (update_equates r s p) ≡ g s
    pub sig : (s : CheckinState) (x : FuncSigChange) → g (update_func_sig s x) ≡ g s

  module _ (o : Others) (r : ℕ) (p : GhidraCheckinPreview) where
    abbrev place_all : CheckinState → CheckinState
    place_all s = fold (update_new_param r) (fold update_param s p.param_renames) p.new_params

    place_frame : (s : CheckinState) → g (place_all s) ≡ g s
    place_frame s =
        fold-frame g (update_new_param r) (o.new_param r) _ p.new_params
        ∙ fold-frame g update_param o.param s p.param_renames

    -- From behind the data types to the end.
    pub marks_frame :
        (s : CheckinState)
        → g (
            fold update_func_sig
              (update_marks r (update_equates r (place_all s) p) p)
              p.func_sig_changes)
          ≡ g (update_marks r (update_equates r (place_all s) p) p)
    marks_frame s = fold-frame g update_func_sig o.sig _ p.func_sig_changes

    pub tail_frame :
        Marks
        → (s : CheckinState)
        → g (
            fold update_func_sig
              (update_marks r (update_equates r (place_all s) p) p)
              p.func_sig_changes)
          ≡ g s
    tail_frame marks s =
        marks_frame s
        ∙ marks r (update_equates r (place_all s) p) p
        ∙ o.equates r (place_all s) p
        ∙ place_frame s

-- The fields that the loops over the symbols read, and the coordinates of the check-in.
abbrev pub symbols_part : CheckinState → Map ℕ ℤ × ℕ × Str × Str × Str
symbols_part s = (s.addr_to_key, s.image_base, s.checkin_repo, s.checkin_folder, s.checkin_item)

abbrev pub names_part : CheckinState → Map ℕ Str
names_part s = s.addr_to_original_name

abbrev pub marks_part : CheckinState → List BookmarkKey × List ℕ
marks_part s = (s.ghidra_bookmark_keys, s.ghidra_data_item_addrs)

abbrev pub Comments : Type 0
Comments = Map ℕ Str × Map ℕ Str × Map ℕ Str × Map ℕ Str

abbrev pub comments_part : CheckinState → Comments
comments_part s = (
  s.addr_to_comment_key, s.addr_to_original_comment, s.addr_to_original_func_comment,
  s.addr_to_comment_field,
)

abbrev pub types_part : CheckinState → Map Str GhidraDataType
types_part s = s.ghidra_types_by_name

-- All of these at once.
abbrev pub Core : Type 0
Core =
    (Map ℕ ℤ × ℕ × Str × Str × Str)
    × Map ℕ Str
    × (List BookmarkKey × List ℕ)
    × Comments
    × Map Str GhidraDataType

abbrev pub core : CheckinState → Core
core s = (symbols_part s, names_part s, marks_part s, comments_part s, types_part s)

update_equates-core :
    (r : ℕ) (s : CheckinState) (p : GhidraCheckinPreview) → core (update_equates r s p) ≡ core s
unfolding update_equates update_equate_ref
update_equates-core r s p = fold-frame core (update_equate_ref r) (λ s x. refl) _ p.new_equate_refs

update_new_param-core :
    (r : ℕ) (s : CheckinState) (x : NewParam) → core (update_new_param r s x) ≡ core s
unfolding update_new_param
update_new_param-core r s x = elim (Bool-cases x.is_local) [ inl e ↦ rw e | inr e ↦ rw e ]

pub others_core : Others core
unfolding update_param update_func_sig
others_core = record {
  param = λ s x. refl;
  new_param = update_new_param-core;
  equates = update_equates-core;
  sig = λ s x. refl;
}

others_of : {F : Type 0} (h : Core → F) → Others (λ s. h (core s))
others_of h = record {
  param = λ s x. ap h (others_core.param s x);
  new_param = λ r s x. ap h (others_core.new_param r s x);
  equates = λ r s p. ap h (others_core.equates r s p);
  sig = λ s x. ap h (others_core.sig s x);
}

-- What the ids of added types do not touch.
abbrev Rest : Type 0
Rest = (Map ℕ ℤ × ℕ × Str × Str × Str) × Map ℕ Str × (List BookmarkKey × List ℕ) × Comments

abbrev rest_part : CheckinState → Rest
rest_part s = (symbols_part s, names_part s, marks_part s, comments_part s)

record_added_id-rest :
    (s : CheckinState) (x : Str × Option ℤ) → rest_part (record_added_id s x) ≡ rest_part s
unfolding record_added_id
record_added_id-rest s (n, none) = refl
record_added_id-rest s (n, some i) = elim (Option-cases (lookup n s.ghidra_types_by_name)) [
  | inl e ↦ rw (e, record_added_id)
  | inr (t, e) ↦ rw (e, record_added_id)
]

added_rest :
    (s : CheckinState) (added : List (Str × Option ℤ))
    → rest_part (record_added_ids s added) ≡ rest_part s
unfolding record_added_ids
added_rest s added = fold-frame rest_part record_added_id record_added_id-rest s added

-- What the comments do not touch.
abbrev Quiet : Type 0
Quiet =
    (Map ℕ ℤ × ℕ × Str × Str × Str)
    × Map ℕ Str
    × (List BookmarkKey × List ℕ)
    × Map Str GhidraDataType

abbrev quiet_part : CheckinState → Quiet
quiet_part s = (symbols_part s, names_part s, marks_part s, types_part s)

update_comment-quiet :
    (s : CheckinState) (c : CommentChange) → quiet_part (update_comment s c) ≡ quiet_part s
unfolding update_comment
update_comment-quiet s c = elim (Bool-cases (has c.addr s.addr_to_original_comment)) [
  | inl e ↦ rw e
  | inr e ↦ elim (Bool-cases (has c.addr s.addr_to_original_func_comment)) [
    | inl f ↦ rw (e, f)
    | inr f ↦ rw (e, f)
  ]
]

comments_step : CommentChange → Comments → Comments
comments_step c (ks, os, fs, cols) =
    if has c.addr os
    then (ks, insert c.addr c.text os, fs, cols)
    else if has c.addr fs
    then (ks, os, insert c.addr c.text fs, cols)
    else (ks, insert c.addr c.text os, fs, insert c.addr (codes "eol") cols)

comments_step_lem :
    (s : CheckinState) (c : CommentChange)
    → comments_part (update_comment s c) ≡ comments_step c (comments_part s)
unfolding update_comment comments_step
comments_step_lem s c = elim (Bool-cases (has c.addr s.addr_to_original_comment)) [
  | inl e ↦ rw e
  | inr e ↦ elim (Bool-cases (has c.addr s.addr_to_original_func_comment)) [
    | inl f ↦ rw (e, f)
    | inr f ↦ rw (e, f)
  ]
]

update_comment_cong :
    (s t : CheckinState) (c : CommentChange)
    → comments_part s ≡ comments_part t
    → comments_part (update_comment s c) ≡ comments_part (update_comment t c)
update_comment_cong s t c h =
    comments_step_lem s c ∙ ap (comments_step c) h ∙ sym (comments_step_lem t c)

comments_quiet :
    (s : CheckinState) (cs : List CommentChange)
    → quiet_part (fold update_comment s cs) ≡ quiet_part s
comments_quiet s cs = fold-frame quiet_part update_comment update_comment-quiet s cs

-- The comments' maps depend on themselves alone.
comments_cong :
    (s t : CheckinState) (cs : List CommentChange)
    → comments_part s ≡ comments_part t
    → comments_part (fold update_comment s cs) ≡ comments_part (fold update_comment t cs)
comments_cong s t [] h = h
comments_cong s t (c ∷ cs) h =
    comments_cong (update_comment s c) (update_comment t c) cs (update_comment_cong s t c h)

-- The state in front of the variables, and what the whole update makes of each field.
module _ (r : ℕ) (s : CheckinState) (added : List (Str × Option ℤ)) (p : GhidraCheckinPreview) where
  abbrev named : CheckinState
  named = update_symbols (record_added_ids s added) p

  abbrev commented : CheckinState
  commented = fold update_comment named p.comments

  pub update_baseline-symbols : symbols_part (update_baseline r s added p) ≡ symbols_part s
  unfolding update_baseline update_types update_symbols update_marks
  update_baseline-symbols =
      tail_frame symbols_part (others_of (λ c. c.0)) r p (λ r s p. refl) _
      ∙ ap (λ (c : Quiet). c.0) (comments_quiet named p.comments)
      ∙ ap (λ (c : Rest). c.0) (added_rest s added)

  pub update_baseline-names :
      (update_baseline r s added p).addr_to_original_name ≡ update_names s.addr_to_original_name p
  unfolding update_baseline update_types update_symbols update_marks
  update_baseline-names =
      tail_frame names_part (others_of (λ c. c.1)) r p (λ r s p. refl) _
      ∙ ap (λ (c : Quiet). c.1) (comments_quiet named p.comments)
      ∙ ap (λ (c : Rest). update_names c.1 p) (added_rest s added)

  pub update_baseline-marks : marks_part (update_baseline r s added p) ≡ (
    fold (update_bookmark r) s.ghidra_bookmark_keys p.bookmark_changes,
    fold (update_data_item r) s.ghidra_data_item_addrs p.data_item_changes,
  )
  unfolding update_baseline update_types update_symbols update_marks
  update_baseline-marks =
      marks_frame marks_part (others_of (λ c. c.2)) r p _
      ∙ ap marked ((others_of (λ c. c.2)).equates r _ p)
      ∙ ap marked (place_frame marks_part (others_of (λ c. c.2)) r p _)
      ∙ ap (λ (c : Quiet). marked c.2) (comments_quiet named p.comments)
      ∙ ap (λ (c : Rest). marked c.2) (added_rest s added)
    where
      marked : List BookmarkKey × List ℕ → List BookmarkKey × List ℕ
      marked (ks, is) = (
        fold (update_bookmark r) ks p.bookmark_changes,
        fold (update_data_item r) is p.data_item_changes,
      )

  pub update_baseline-types :
      (update_baseline r s added p).ghidra_types_by_name
      ≡ fold update_type (record_added_ids s added).ghidra_types_by_name p.data_type_changes
  unfolding update_baseline update_types update_symbols update_marks
  update_baseline-types =
      tail_frame types_part (others_of (λ c. c.4)) r p (λ r s p. refl) _
      ∙ ap (λ (c : Quiet). fold update_type c.3 p.data_type_changes)
          (comments_quiet named p.comments)

  pub update_baseline-comments :
      comments_part (update_baseline r s added p) ≡ comments_part (fold update_comment s p.comments)
  unfolding update_baseline update_types update_symbols update_marks
  update_baseline-comments =
      tail_frame comments_part (others_of (λ c. c.3)) r p (λ r s p. refl) _
      ∙ comments_cong named s p.comments (ap (λ (c : Rest). c.3) (added_rest s added))
