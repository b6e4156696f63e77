-- ===== src/Import/TypeNames/Fuel.antt =====
-- `resolveTypeName`: the fuel is enough.
use ghidra_svr_bridge.Prelude.{
  ℕ, zero, suc, ◌<◌, ◌≤◌, true, [], ◌∷◌, Option, none, some, Str, ℤ, pos, ◌≡◌, refl, ap, arith, inl,
  inr, Bool-cases, Option-cases, length, take, nat_eq, ◌==◌,
}
use ghidra_svr_bridge.Names.Text.{rtrim, back, pop_back, rfind, length-rtrim}
use ghidra_svr_bridge.Import.Api.{BnApi}
use ghidra_svr_bridge.Import.TypeNames.{pointee, array_at, resolve_step, resolve, resolve_type_name}

length-pop_back : (c : ℕ) (s : Str) → length (pop_back (c ∷ s)) ≡ length s
length-pop_back c [] = refl
length-pop_back c (d ∷ s) = ap suc (length-pop_back d s)

length-take : (n : ℕ) (s : Str) → length (take n s) ≤ n
length-take zero s = omega arith
length-take (suc n) [] = omega arith
length-take (suc n) (c ∷ s) = omega (arith, length-take n s)

rfind-bound : (c : ℕ) (s : Str) (i : ℕ) → rfind c s ≡ some i → i < length s
unfolding rfind
rfind-bound c [] i e = cc
rfind-bound c (d ∷ s) i e = elim (Option-cases (rfind c s)) [
  | inl h ↦ ground (arith, h, e)
  | inr (j, h) ↦ ground (arith, h, e, rfind-bound c s j h)
]

-- A name without its star, and one in front of its bracket, are shorter.
star-shorter : (t : Str) → (back t == b'*') ≡ true → length (rtrim (pop_back t)) < length t
star-shorter [] e = cc
star-shorter (c ∷ s) e = omega (arith, length-rtrim (pop_back (c ∷ s)), length-pop_back c s)

base-shorter :
    (name : Str)
    → (back (rtrim name) == b'*') ≡ true
    → length (rtrim (pop_back (rtrim name))) < length name
base-shorter name e = omega (arith, star-shorter (rtrim name) e, length-rtrim name)

elem-shorter :
    (name : Str) (i : ℕ) → rfind b'[' name ≡ some i → length (rtrim (take i name)) < length name
elem-shorter name i e =
    omega (arith, rfind-bound b'[' name i e, length-rtrim (take i name), length-take i name)

module _ (api : BnApi) where
  abbrev TypeRef : Type 0
  TypeRef = api.handles.TypeRef

  pointee-cong :
      (rec other : Str → Option TypeRef) (s : Str)
      → rec s ≡ other s
      → pointee api rec s ≡ pointee api other s
  unfolding pointee
  pointee-cong rec other [] h = refl
  pointee-cong rec other (c ∷ s) h = rw h refl

  array_at-cong :
      (rec other : Str → Option TypeRef) (s : Str) (o : Option ℕ)
      → ((i : ℕ) → o ≡ some i → rec (rtrim (take i s)) ≡ other (rtrim (take i s)))
      → array_at api rec s o ≡ array_at api other s o
  unfolding array_at
  array_at-cong rec other s none h = refl
  array_at-cong rec other s (some i) h = rw (h i refl) refl

  -- One call looks at the others on shorter names alone.
  step-cong :
      (rec other : Str → Option TypeRef) (view : api.View) (name : Str) (hint : ℤ)
      → ((s : Str) → length s < length name → rec s ≡ other s)
      → resolve_step api rec view name hint ≡ resolve_step api other view name hint
  unfolding resolve_step
  step-cong rec other view [] hint h = refl
  step-cong rec other view (c ∷ s) hint h = elim (Bool-cases (back (rtrim (c ∷ s)) == b'*')) [
    | inl e ↦ rw (e, pointee-cong rec other _ (h _ (base-shorter (c ∷ s) e))) refl
    | inr e ↦
        rw
          (
            e,
            array_at-cong rec other (c ∷ s) (rfind b'[' (c ∷ s))
                (λ i k. h _ (elem-shorter (c ∷ s) i k)),
          )
          refl
  ]

  resolve-fuel :
      (fuel more : ℕ) (view : api.View) (name : Str) (hint : ℤ)
      → length name < fuel
      → length name < more
      → resolve api fuel view name hint ≡ resolve api more view name hint
  unfolding resolve
  resolve-fuel zero more view name hint h k = absurd (omega (arith, h))
  resolve-fuel (suc fuel) zero view name hint h k = absurd (omega (arith, k))
  resolve-fuel (suc fuel) (suc more) view name hint h k =
      step-cong (λ s. resolve api fuel view s (pos 0)) (λ s. resolve api more view s (pos 0)) view
        name hint
        (λ s l. resolve-fuel fuel more view s (pos 0) (omega (arith, h, l)) (omega (arith, k, l)))

  -- The type of a name is that of one call with itself for the calls that it makes: the fuel never
  -- runs out, and any greater fuel gives the same.
  pub resolve_type_name-recursive :
      (view : api.View) (name : Str) (hint : ℤ)
      → (resolve_type_name api view name hint
          ≡ resolve_step api (λ s. resolve_type_name api view s (pos 0)) view name hint)
        × ((fuel : ℕ)
            → length name < fuel
            → resolve api fuel view name hint ≡ resolve_type_name api view name hint)
  unfolding resolve_type_name resolve
  resolve_type_name-recursive view name hint = (
    step-cong (λ s. resolve api (length name) view s (pos 0))
        (λ s. resolve_type_name api view s (pos 0)) view name hint
        (λ s l. resolve-fuel (length name) (suc (length s)) view s (pos 0) l (omega arith)),
    λ fuel l. resolve-fuel fuel (suc (length name)) view name hint l (omega arith),
  )
