-- ===== src/Wire/Signatures.antt =====
-- The signatures of an export are those of its functions.
use ghidra_svr_bridge.Prelude.{
  Bool, true, false, not, ◌||◌, List, [], ◌∷◌, codes, ℤ, Exc, ok, traverse, traverse-All, ◌≡◌, refl,
  sym, inl, inr, ◌⊎◌, Bool-cases, ◌==◌, int_eq, ==-refl, is_empty, if◌then◌else◌, keep, map, arith,
  member, All, All-mono, subst,
}
use ghidra_svr_bridge.Model.Export.{GhidraFuncFlags, GhidraFuncSig, GhidraDbExport}
use ghidra_svr_bridge.Wire.Library.{JsonLib}
use ghidra_svr_bridge.Wire.Decode.{elements, decode_func, parse_db_export_json, has_sig}

-- A signature says something, and it is one of a function of the export.
abbrev pub SigOf : List GhidraFuncFlags → GhidraFuncSig → Type 0
SigOf flags sig =
    ((not (is_empty sig.calling_convention) || not (is_empty sig.return_type_name)) ≡ true)
    × (member sig.key (map (λ (f : GhidraFuncFlags). f.key) flags) ≡ true)

abbrev pub Signed : GhidraDbExport → Type 0
Signed e = All (SigOf e.func_flags) e.func_sigs

abbrev Paired : GhidraFuncFlags × GhidraFuncSig → Type 0
Paired f = f.1.key ≡ f.0.key

member-behind : (k j : ℤ) (ks : List ℤ) → member k ks ≡ true → member k (j ∷ ks) ≡ true
unfolding member
member-behind k j ks h = elim (Bool-cases (j == k)) [ inl e ↦ rw e refl | inr e ↦ rw e h ]

member-front : (k j : ℤ) (ks : List ℤ) → k ≡ j → member k (j ∷ ks) ≡ true
unfolding member
member-front k j ks e = rw (e, ==-refl j) refl

ok-injective : {A : Type 0} {x y : A} → ok x ≡ ok y → x ≡ y
ok-injective e = cc

opened :
    {A : Type 0} (b : Bool) (m : Exc (List A)) (xs : List A)
    → (if b then m else ok []) ≡ ok xs
    → (m ≡ ok xs) ⊎ (xs ≡ [])
opened true m xs h = inl h
opened false m xs h = inr (ok-injective (sym h))

module _ (lib : JsonLib) where
  later :
      (f : GhidraFuncFlags × GhidraFuncSig) (fs : List (GhidraFuncFlags × GhidraFuncSig))
      → All
          (SigOf (map (λ (f : GhidraFuncFlags × GhidraFuncSig). f.0) fs))
          (map (λ (f : GhidraFuncFlags × GhidraFuncSig). f.1) (keep (has_sig lib) fs))
      → All
          (SigOf (f.0 ∷ map (λ (f : GhidraFuncFlags × GhidraFuncSig). f.0) fs))
          (map (λ (f : GhidraFuncFlags × GhidraFuncSig). f.1) (keep (has_sig lib) fs))
  later f fs =
      All-mono
        (λ sig q. (
          q.0,
          member-behind sig.key f.0.key
              (map (λ (f : GhidraFuncFlags). f.key)
                (map (λ (f : GhidraFuncFlags × GhidraFuncSig). f.0) fs))
              q.1,
        ))
        (map (λ (f : GhidraFuncFlags × GhidraFuncSig). f.1) (keep (has_sig lib) fs))

  signed :
      (fs : List (GhidraFuncFlags × GhidraFuncSig))
      → All Paired fs
      → All
          (SigOf (map (λ (f : GhidraFuncFlags × GhidraFuncSig). f.0) fs))
          (map (λ (f : GhidraFuncFlags × GhidraFuncSig). f.1) (keep (has_sig lib) fs))
  signed [] p = tt
  signed (f ∷ fs) p = elim (Bool-cases (has_sig lib f)) [
    | inl h ↦
        rw (h, keep, map) ((h, member-front f.1.key f.0.key _ p.0), later f fs (signed fs p.1))
    | inr h ↦ rw (h, keep, map) (later f fs (signed fs p.1))
  ]

  decode_func-Paired :
      (j : lib.Json) (f : GhidraFuncFlags × GhidraFuncSig) → decode_func lib j ≡ ok f → Paired f
  unfolding decode_func
  decode_func-Paired j f h = ground arith

  parsed :
      (resp : lib.Json) (e : GhidraDbExport)
      → parse_db_export_json lib resp ≡ ok e
      → (fs : List (GhidraFuncFlags × GhidraFuncSig)) × (elements lib
            (decode_func lib)
            resp
            (codes "func_flags")
          ≡ ok fs)
        × (map (λ (f : GhidraFuncFlags × GhidraFuncSig). f.0) fs ≡ e.func_flags)
        × (map (λ (f : GhidraFuncFlags × GhidraFuncSig). f.1) (keep (has_sig lib) fs) ≡ e.func_sigs)
  unfolding parse_db_export_json
  parsed resp e h = ground arith

  listed :
      (resp : lib.Json) (fs : List (GhidraFuncFlags × GhidraFuncSig))
      → elements lib (decode_func lib) resp (codes "func_flags") ≡ ok fs
      → All Paired fs
  unfolding elements
  listed resp fs h =
      elim (opened (lib.contains resp (codes "func_flags"))
        (traverse (decode_func lib) (lib.items (lib.at resp (codes "func_flags")))) fs h) [
          | inl c ↦
              traverse-All Paired (decode_func lib) decode_func-Paired
                (lib.items (lib.at resp (codes "func_flags"))) fs c
          | inr c ↦ subst (All Paired) (sym c) tt
        ]

  -- Where the bridge's answer is read as an export, every signature of it names a calling
  -- convention or a return type and is the signature of a function that the export lists.
  pub parse_db_export_json-Signed :
      (resp : lib.Json) (e : GhidraDbExport) → parse_db_export_json lib resp ≡ ok e → Signed e
  parse_db_export_json-Signed resp e h =
      let (fs, read, flags, sigs) = parsed resp e h in
      subst (λ (p : List GhidraFuncFlags × List GhidraFuncSig). All (SigOf p.0) p.1)
        (λ i. (flags i, sigs i)) (signed fs (listed resp fs read))
