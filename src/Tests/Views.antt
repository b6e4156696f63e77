-- ===== src/Tests/Views.antt =====
-- A small stand-in for the Binary Ninja API, of which the laws that the theorems ask for hold.
use ghidra_svr_bridge.Prelude.{
  ℕ, true, false, ◌||◌, List, [], ◌∷◌, ◌++◌, none, some, Str, codes, ◌≡◌, ◌≢◌, refl, sym, ap, subst,
  ◌∙◌, arith, inl, inr, Bool-cases, if◌then◌else◌, is_some, get_or, nat_eq, str_eq, ◌==◌, ==-refl,
  Map, lookup, insert, lookup-insert, member, add, member-add, find,
}
use ghidra_svr_bridge.Import.Api.{
  BnApi, BnHandles, Edit, define_user_symbol, create_user_function, set_comment_for_address,
  add_tag_type, define_type,
}
use ghidra_svr_bridge.Import.Progress.{function_starting}
use ghidra_svr_bridge.Import.Kept.Comments.{CommentLaws, is_commenting}
use ghidra_svr_bridge.Import.Kept.Names.{NameLaws, is_naming}
use ghidra_svr_bridge.Import.Kept.Functions.{FunctionLaws}
use ghidra_svr_bridge.Import.Kept.Duplicates.{LeavesFree, is_free}

-- A function is its start, a type or a tag type its name.
abbrev small_handles : BnHandles
small_handles = record {
  Function = ℕ;
  TypeRef = Str;
  TagType = Str;
  Platform = Str;
  Architecture = Str;
  Convention = Str;
}

pub record SmallView : Type 0 where
  pub comments : Map ℕ Str
  pub names : Map ℕ Str
  pub functions : List ℕ
  pub types : Map Str Str
  pub tag_types : Map Str Str

abbrev pub small_edit : Edit small_handles → SmallView → SmallView
small_edit (define_user_symbol t n a) v = record v { names = insert a n v.names }
small_edit (create_user_function plat a) v = record v { functions = add a v.functions }
small_edit (set_comment_for_address a t) v = record v { comments = insert a t v.comments }
small_edit (add_tag_type t) v = record v { tag_types = insert t t v.tag_types }
small_edit (define_type i n t) v = record v { types = insert n t v.types }
small_edit _ v = v

abbrev pub small_api : BnApi
small_api = record {
  handles = small_handles;
  View = SmallView;
  perform = small_edit;
  start = λ v. 4096;
  address_size = λ v. 8;
  default_platform = λ v. some (codes "linux-x86_64");
  has_segment_at = λ v a. false;
  symbol_name_at = λ v a. lookup a v.names;
  comment_at = λ v a. get_or (lookup a v.comments) [];
  functions_at = λ v a. v.functions;
  functions_containing = λ v a. v.functions;
  tag_type = λ v n. lookup n v.tag_types;
  type_by_name = λ v n. lookup n v.types;
  type_by_id = λ v n. lookup n v.types;
  function_start = λ f. f;
  architecture = λ f. none;
  convention_by_name = λ a n. none;
  function_comment = λ v f. [];
  parameter_variables = λ v f. [];
  variables = λ v f. [];
  variable_name = λ v f x. [];
  variable_type = λ v f x. none;
  void_type = codes "void";
  bool_type = codes "bool";
  integer_type = λ n s. (if s then codes "signed" else codes "unsigned") ++ n ∷ [];
  float_type = λ n. codes "float" ++ n ∷ [];
  pointer_type = λ w t c. t ++ codes "*";
  array_type = λ t c n. t ++ b'[' ∷ n ∷ [];
  structure_type = λ u ms. codes "structure";
  enumeration_type = λ vs w s. codes "enumeration";
  typedef_type = λ n w. n;
  new_tag_type = λ n i. n;
  auto_type_id = λ s n. s ++ n;
}

-- What is inserted is found, and the rest is as before.
found {ℓ} : {V : Type ℓ} (a : ℕ) (v : V) (m : Map ℕ V) → lookup a (insert a v m) ≡ some v
found a v m = lookup-insert a a v m ∙ same (==-refl a)
  where
    same : (a == a) ≡ true → (if a == a then some v else lookup a m) ≡ some v
    same e = rw e refl

missed {ℓ} :
    {V : Type ℓ} (a b : ℕ) (v : V) (m : Map ℕ V) → a ≢ b → lookup b (insert a v m) ≡ lookup b m
missed a b v m n = elim (Bool-cases (a == b)) [
  | inl e ↦ absurd (n ((nat_eq.same_iff a b).0 e))
  | inr e ↦ lookup-insert a b v m ∙ other e
]
  where
    other : (a == b) ≡ false → (if a == b then some v else lookup b m) ≡ lookup b m
    other e = rw e refl

pub small-CommentLaws : CommentLaws small_api
unfolding is_commenting
small-CommentLaws = record {
  written = λ a t v. ap (λ o. get_or o []) (found a t v.comments);
  elsewhere = λ a b t v n. ap (λ o. get_or o []) (missed a b t v.comments n);
  untouched = untouched;
}
  where
    untouched :
        (e : Edit small_handles) (a : ℕ) (v : SmallView)
        → is_commenting e ≡ false
        → get_or (lookup a (small_edit e v).comments) [] ≡ get_or (lookup a v.comments) []
    untouched (set_comment_for_address _ _) a v q = cc
    untouched _ a v q = refl

small-naming :
    (e : Edit small_handles) (a : ℕ) (v : SmallView)
    → is_naming e ≡ false
    → lookup a (small_edit e v).names ≡ lookup a v.names
unfolding is_naming
small-naming (define_user_symbol _ _ _) a v q = cc
small-naming _ a v q = refl

pub small-NameLaws : NameLaws small_api
small-NameLaws = record {
  defined = λ t n a v. found a n v.names;
  elsewhere = λ t n a b v m. missed a b n v.names m;
  untouched = λ e a n v q f h. small-naming e a v q ∙ h;
}

pub small-LeavesFree : (a : ℕ) → LeavesFree small_api a
small-LeavesFree a e v q h = subst (λ o. is_free o ≡ true) (sym (small-naming e a v q)) h

find-member : (a : ℕ) (fs : List ℕ) → is_some (find (λ f. f == a) fs) ≡ member a fs
unfolding member
find-member a [] = refl
find-member a (f ∷ fs) = elim (Bool-cases (f == a)) [
  | inl e ↦ rw e refl
  | inr e ↦ rw e (find-member a fs)
]

small-kept :
    (e : Edit small_handles) (a : ℕ) (v : SmallView)
    → member a v.functions ≡ true
    → member a (small_edit e v).functions ≡ true
small-kept (create_user_function plat b) a v h = member-add b a v.functions ∙ ground (arith, h)
small-kept _ a v h = h

pub small-FunctionLaws : FunctionLaws small_api
unfolding function_starting
small-FunctionLaws = record {
  made = λ plat a v.
      find-member a (add a v.functions)
      ∙ (member-add a a v.functions ∙ ap (λ b. b || member a v.functions) (==-refl a));
  kept = λ e a v h.
      find-member a (small_edit e v).functions
      ∙ small-kept e a v (sym (find-member a v.functions) ∙ h);
}
