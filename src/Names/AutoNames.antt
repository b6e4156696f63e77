-- ===== src/Names/AutoNames.antt =====
-- What the two tests for a made-up name accept.
use ghidra_svr_bridge.Prelude.{
  ◌≤◌, ◌≡◌, refl, ◌↔◌, Bool, true, false, ◌||◌, [], ◌∷◌, ◌++◌, Str, codes, nat_eq, length, drop,
  all, arith, if◌then◌else◌,
}
use ghidra_svr_bridge.Names.Text.{starts_with}
use ghidra_svr_bridge.Names.{
  is_hex_char, coded, is_auto_gen_name, is_coded_name, is_auto_generated_symbol_name,
}

-- The prefixes that an analysis puts in front of an address.
pub data Prefix (p : Str) : Type 0 where
  sub : p ≡ codes "sub_" → Prefix p
  fun : p ≡ codes "FUN_" → Prefix p
  off : p ≡ codes "off_" → Prefix p
  unk : p ≡ codes "unk_" → Prefix p
  var : p ≡ codes "data_" → Prefix p
  jump : p ≡ codes "j_" → Prefix p

-- A made-up name: a prefix and an address of four digits or more, or `j_` and a made-up name.
pub data AutoName : Str → Type 0 where
  address :
      {n : Str} (p d : Str)
      → Prefix p
      → 4 ≤ length d
      → all is_hex_char d ≡ true
      → n ≡ p ++ d
      → AutoName n
  thunk : {n : Str} (t : Str) → AutoName t → n ≡ codes "j_" ++ t → AutoName n

drop-append : (p d : Str) → drop (length p) (p ++ d) ≡ d
drop-append [] d = refl
drop-append (c ∷ p) d = drop-append p d

starts_with-append : (p d : Str) → starts_with p (p ++ d) ≡ true
starts_with-append [] d = refl
starts_with-append (c ∷ p) d = ground (arith, starts_with-append p d)

append-drop : (p n : Str) → starts_with p n ≡ true → n ≡ p ++ drop (length p) n
append-drop [] n h = refl
append-drop (c ∷ p) [] h = cc
append-drop (c ∷ p) (x ∷ n) h = ground (arith, append-drop p n)

coded-append :
    (p d : Str) → 4 ≤ length d → all is_hex_char d ≡ true → coded p (length p) (p ++ d) ≡ true
coded-append p d four hex = rw (starts_with-append p d, drop-append p d, hex) (ground arith)

coded-AutoName : {n : Str} (p : Str) → Prefix p → coded p (length p) n ≡ true → AutoName n
coded-AutoName {n} p known h =
    address p (drop (length p) n) known (ground arith) (ground arith)
      (append-drop p n (ground arith))

||-elim {ℓ} : {P : Type ℓ} (a b : Bool) → (a ≡ true → P) → (b ≡ true → P) → (a || b) ≡ true → P
||-elim true b f g h = f refl
||-elim false b f g h = g h

if-elim {ℓ} :
    {P : Type ℓ} (a b : Bool) → (a ≡ true → P) → (b ≡ true → P) → (if a then true else b) ≡ true → P
if-elim true b f g h = f refl
if-elim false b f g h = g h

is_coded_name-AutoName : (n : Str) → is_coded_name n ≡ true → AutoName n
unfolding is_coded_name
is_coded_name-AutoName n = if-elim _ _ (coded-AutoName (codes "sub_") (sub refl)) (
    if-elim _ _ (coded-AutoName (codes "FUN_") (fun refl)) (
      if-elim _ _ (coded-AutoName (codes "off_") (off refl)) (
        if-elim _ _ (coded-AutoName (codes "unk_") (unk refl)) (
          if-elim _ _ (coded-AutoName (codes "data_") (var refl))
            (if-elim _ _ (coded-AutoName (codes "j_") (jump refl)) (λ h. cc))))))

if_self : (b : Bool) → b ≡ true → (if b then true else false) ≡ true
if_self b h = rw h

AutoName-is_coded_name :
    (p d : Str) → Prefix p → coded p (length p) (p ++ d) ≡ true → is_coded_name (p ++ d) ≡ true
unfolding is_coded_name
AutoName-is_coded_name p d (sub e) h = rw e (if_self _ (rw e at h))
AutoName-is_coded_name p d (fun e) h = rw e (if_self _ (rw e at h))
AutoName-is_coded_name p d (off e) h = rw e (if_self _ (rw e at h))
AutoName-is_coded_name p d (unk e) h = rw e (if_self _ (rw e at h))
AutoName-is_coded_name p d (var e) h = rw e (if_self _ (rw e at h))
AutoName-is_coded_name p d (jump e) h = rw e (if_self _ (rw e at h))

auto-AutoName : (n : Str) → is_auto_generated_symbol_name n ≡ true → AutoName n
unfolding is_auto_generated_symbol_name
auto-AutoName [] = is_coded_name-AutoName []
auto-AutoName (a ∷ []) = is_coded_name-AutoName (a ∷ [])
auto-AutoName (a ∷ b ∷ n) =
    ||-elim _ _ (is_coded_name-AutoName (a ∷ b ∷ n))
      (λ h. thunk n (auto-AutoName n (ground arith)) (ground arith))

||-true : (b : Bool) → (b || true) ≡ true
||-true b = ground arith

thunk-auto :
    (t : Str)
    → is_auto_generated_symbol_name t ≡ true
    → is_auto_generated_symbol_name (codes "j_" ++ t) ≡ true
unfolding is_auto_generated_symbol_name
thunk-auto t h = rw h (||-true _)

auto_of_coded : (n : Str) → is_coded_name n ≡ true → is_auto_generated_symbol_name n ≡ true
unfolding is_auto_generated_symbol_name
auto_of_coded [] h = h
auto_of_coded (a ∷ []) h = h
auto_of_coded (a ∷ b ∷ n) h = rw h

AutoName-auto : {n : Str} → AutoName n → is_auto_generated_symbol_name n ≡ true
AutoName-auto (address p d known four hex e) =
    rw e (auto_of_coded (p ++ d) (AutoName-is_coded_name p d known (coded-append p d four hex)))
AutoName-auto (thunk t a e) = rw e (thunk-auto t (AutoName-auto a))

-- The check-in's test accepts the made-up names and no other.
pub is_auto_generated_symbol_name_iff :
    (n : Str) → (is_auto_generated_symbol_name n ≡ true) ↔ AutoName n
is_auto_generated_symbol_name_iff n = (auto-AutoName n, AutoName-auto)

-- What the import takes for made up, the check-in does too: the check-in's test only adds the
-- prefix `data_` and thunks of made-up names.
pub is_auto_gen_name-is_auto_generated :
    (n : Str) → is_auto_gen_name n ≡ true → is_auto_generated_symbol_name n ≡ true
unfolding is_auto_gen_name
is_auto_gen_name-is_auto_generated n h = AutoName-auto (
    if-elim _ _ (coded-AutoName (codes "sub_") (sub refl))
      (if-elim _ _ (coded-AutoName (codes "FUN_") (fun refl)) (
        if-elim _ _ (coded-AutoName (codes "off_") (off refl)) (
          if-elim _ _ (coded-AutoName (codes "unk_") (unk refl))
            (if-elim _ _ (coded-AutoName (codes "j_") (jump refl)) (λ h. cc)))))
      h)
