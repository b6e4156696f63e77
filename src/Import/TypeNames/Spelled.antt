-- ===== src/Import/TypeNames/Spelled.antt =====
-- `resolveTypeName` on the names that Ghidra writes for pointers and arrays.
use ghidra_svr_bridge.Prelude.{
  ℕ, ◌^◌, ◌<◌, true, false, ◌&&◌, not, [], ◌∷◌, ◌++◌, Option, none, some, Str, ℤ, pos, ◌≡◌, refl,
  sym, ap, ◌∙◌, arith, length, is_empty, nat_eq, ◌==◌, nat_to_string, append_assoc, ltb,
  if◌then◌else◌,
}
use ghidra_svr_bridge.Names.Text.{rtrim, back, rfind, back-concat, pop_back-concat}
use ghidra_svr_bridge.Names.Digits.{
  IsNumeral, decimal_digits-IsNumeral, decimal_digits-value, some_digits, is_empty-append,
}
use ghidra_svr_bridge.Import.Api.{BnApi}
use ghidra_svr_bridge.Import.TypeNames.{
  named, pointee, array_at, resolve_step, resolve_type_name, stoull,
}
use ghidra_svr_bridge.Import.TypeNames.Fuel.{resolve_type_name-recursive}
use ghidra_svr_bridge.Import.TypeNames.Ends.{
  blanks, rtrim-padded, rtrim-end, rfind-last, rfind-numeral, take-front, drop-front, length-array,
  stoull-numeral,
}

-- A type as Ghidra writes it: a name, a pointer to one with blanks in front of the star, or an
-- array.
pub data TypeExpr : Type 0 where
  base : Str → TypeExpr
  pointer : TypeExpr → ℕ → TypeExpr
  array : TypeExpr → ℕ → TypeExpr

unfoldable pub spelled : TypeExpr → Str
unfolding blanks
spelled (base n) = n
spelled (pointer t k) = (spelled t ++ blanks k) ++ b'*' ∷ []
spelled (array t n) = spelled t ++ b'[' ∷ (nat_to_string n ++ b']' ∷ [])

-- A name with no bracket, no star at its end, and no blank there.
pub record IsPlain (n : Str) : Type 0 where
  pub filled : is_empty n ≡ false
  pub trimmed : rtrim n ≡ n
  pub no_star : (back n == b'*') ≡ false
  pub no_bracket : rfind b'[' n ≡ none

all_blank : is_empty (rtrim []) ≡ false → ⊥
unfolding rtrim
all_blank e = ground (arith, e)

module _ (api : BnApi) (view : api.View) (type_of : Str → api.handles.TypeRef) where
  -- The view, or the table, has the plain names; the arrays have 64-bit counts and are not empty.
  abbrev pub Known : TypeExpr → Type 0
  Known (base n) = IsPlain n × (named api view n (pos 0) ≡ some (type_of n))
  Known (pointer t k) = Known t
  Known (array t n) = Known t × (0 < n) × (n < 2 ^ 64)

  -- The type that is meant.
  abbrev pub meant : TypeExpr → api.handles.TypeRef
  meant (base n) = type_of n
  meant (pointer t k) = api.pointer_type (api.address_size view) (meant t) 255
  meant (array t n) = api.array_type (meant t) 255 n

  filled-spelled : (t : TypeExpr) → Known t → is_empty (spelled t) ≡ false
  unfolding spelled
  filled-spelled (base n) h = h.0.filled
  filled-spelled (pointer t k) h = is_empty-append (spelled t ++ blanks k) [] b'*'
  filled-spelled (array t n) h = is_empty-append (spelled t) _ b'['

  array-end : (s d : Str) → s ++ b'[' ∷ (d ++ b']' ∷ []) ≡ (s ++ b'[' ∷ d) ++ b']' ∷ []
  array-end s d = sym (append_assoc s (b'[' ∷ d) (b']' ∷ []))

  rtrim-array : (s d : Str) → rtrim (s ++ b'[' ∷ (d ++ b']' ∷ [])) ≡ s ++ b'[' ∷ (d ++ b']' ∷ [])
  rtrim-array s d =
      ap rtrim (array-end s d) ∙ (rtrim-end (s ++ b'[' ∷ d) b']' refl ∙ sym (array-end s d))

  back-array : (s d : Str) → back (s ++ b'[' ∷ (d ++ b']' ∷ [])) ≡ b']'
  back-array s d = ap back (array-end s d) ∙ back-concat (s ++ b'[' ∷ d) b']'

  rtrim-spelled : (t : TypeExpr) → Known t → rtrim (spelled t) ≡ spelled t
  unfolding spelled
  rtrim-spelled (base n) h = h.0.trimmed
  rtrim-spelled (pointer t k) h = rtrim-end (spelled t ++ blanks k) b'*' refl
  rtrim-spelled (array t n) h = rtrim-array (spelled t) (nat_to_string n)

  module _ (rec : Str → Option api.handles.TypeRef) where
    pointee-some :
        (s : Str) (x : api.handles.TypeRef)
        → is_empty s ≡ false
        → rec s ≡ some x
        → pointee api rec s ≡ x
    unfolding pointee
    pointee-some s x e h = rw (e, h) refl

    -- What a step makes of a name that is not empty.
    step-pointer :
        (s : Str) (hint : ℤ) (x : api.handles.TypeRef)
        → is_empty (rtrim s) ≡ false
        → rec (rtrim s) ≡ some x
        → resolve_step api rec view (s ++ b'*' ∷ []) hint
          ≡ some (api.pointer_type (api.address_size view) x 255)
    unfolding resolve_step
    step-pointer [] hint x e h = absurd (all_blank e)
    step-pointer (c ∷ s) hint x e h =
        rw
          (
            rtrim-end (c ∷ s) b'*' refl,
            back-concat (c ∷ s) b'*',
            pop_back-concat (c ∷ s) b'*',
            pointee-some (rtrim (c ∷ s)) x e h,
          )
          refl

    step-plain :
        (n : Str) (hint : ℤ) → IsPlain n → resolve_step api rec view n hint ≡ named api view n hint
    unfolding resolve_step array_at
    step-plain [] hint p = ground (arith, p.filled)
    step-plain (c ∷ s) hint p = rw (p.trimmed, p.no_star, p.no_bracket) refl

    array-some :
        (s d : Str) (n : ℕ) (x : api.handles.TypeRef)
        → is_empty (rtrim s) ≡ false
        → rec (rtrim s) ≡ some x
        → stoull d ≡ some n
        → 0 < n
        → array_at api rec (s ++ b'[' ∷ (d ++ b']' ∷ [])) (some (length s))
          ≡ some (api.array_type x 255 n)
    unfolding array_at
    array-some s d n x e h v p =
        let tail = d ++ b']' ∷ [] in
        rw
          (
            take-front s (b'[' ∷ tail),
            drop-front s tail b'[',
            length-array s d,
            take-front d (b']' ∷ []),
            back-array s d,
            v,
            h,
            e,
          )
          (positive p)
      where
        positive :
            0 < n
            → (if ltb 0 n && not false then some (api.array_type x 255 n) else none)
              ≡ some (api.array_type x 255 n)
        positive p = let q : ltb 0 n ≡ true = ground (arith, p) in rw q refl

    step-array :
        (s d : Str) (n : ℕ) (hint : ℤ) (x : api.handles.TypeRef)
        → IsNumeral d
        → is_empty (rtrim s) ≡ false
        → rec (rtrim s) ≡ some x
        → stoull d ≡ some n
        → 0 < n
        → resolve_step api rec view (s ++ b'[' ∷ (d ++ b']' ∷ [])) hint
          ≡ some (api.array_type x 255 n)
    unfolding resolve_step
    step-array [] d n hint x i e h v p = absurd (all_blank e)
    step-array (c ∷ s) d n hint x i e h v p =
        rw
          (
            rtrim-array (c ∷ s) d,
            back-array (c ∷ s) d,
            rfind-last b'[' (c ∷ s) (d ++ b']' ∷ []) (rfind-numeral d i),
            array-some (c ∷ s) d n x e h v p,
          )
          refl

  -- A pointer or an array, as Ghidra writes it, resolves to the type that is meant, however deep the
  -- types are nested, where the view or the table of primitive types has the names, each of them not
  -- empty, with no bracket, and with no star or blank at its end, and the counts of the arrays are
  -- above 0 and below 2 ^ 64.
  pub resolve_type_name-spelled :
      (t : TypeExpr) → Known t → resolve_type_name api view (spelled t) (pos 0) ≡ some (meant t)
  unfolding spelled nat_to_string
  resolve_type_name-spelled (base n) h =
      (resolve_type_name-recursive api view n (pos 0)).0 ∙ (step-plain _ n (pos 0) h.0 ∙ h.1)
  resolve_type_name-spelled (pointer t k) h =
      let padded = rtrim-padded (spelled t) k ∙ rtrim-spelled t h in
      (resolve_type_name-recursive api view (spelled (pointer t k)) (pos 0)).0
      ∙ step-pointer _ (spelled t ++ blanks k) (pos 0) (meant t)
          (ap is_empty padded ∙ filled-spelled t h)
          (ap (λ s. resolve_type_name api view s (pos 0)) padded ∙ resolve_type_name-spelled t h)
  resolve_type_name-spelled (array t n) h =
      let same = rtrim-spelled t h.0 in
      let digits : IsNumeral (nat_to_string n) = decimal_digits-IsNumeral 20 n in
      let value =
        stoull-numeral n (nat_to_string n) digits (some_digits 19 n) (decimal_digits-value n h.2)
          h.2 in
      (resolve_type_name-recursive api view (spelled (array t n)) (pos 0)).0
      ∙ step-array _ (spelled t) (nat_to_string n) n (pos 0) (meant t) digits
          (ap is_empty same ∙ filled-spelled t h.0)
          (ap (λ s. resolve_type_name api view s (pos 0)) same ∙ resolve_type_name-spelled t h.0)
          value h.1
