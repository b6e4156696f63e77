-- ===== src/Client/Framing/Sending.antt =====
-- What `sendRaw` hands to the socket.
use ghidra_svr_bridge.Prelude.{
  ℕ, zero, suc, ◌-◌, ◌<◌, ◌≤◌, ◌^◌, Bool, true, false, [], ◌∷◌, ◌++◌, Option, none, some, Str, pos,
  ◌≡◌, refl, ap, subst, sym, ◌%◌, ◌∙◌, arith, length, take, drop, Option-cases, Bool-cases, inl,
  inr, to_int, int_of_low, ltb, if◌then◌else◌,
}
use ghidra_svr_bridge.Client.Framing.{send_loop, send_raw}

-- What is taken of the bytes on offer, and the rest of them.
take-drop :
    (n m : ℕ) (p : Str)
    → take (suc n) (take (suc m) p) ++ take (m - n) (drop (suc n) p) ≡ take (suc m) p
take-drop n m [] = nothing (m - n)
  where
    nothing : (k : ℕ) → take {A = ℕ} k [] ≡ []
    nothing zero = refl
    nothing (suc k) = refl
take-drop zero m (c ∷ p) = let e : m - 0 ≡ m = omega arith in ap (λ k. c ∷ take k p) e
take-drop (suc n) zero (c ∷ p) =
    let e : 0 - suc n ≡ 0 = omega arith in ap (λ k. c ∷ take k (drop (suc n) p)) e
take-drop (suc n) (suc m) (c ∷ p) =
    let e : suc m - suc n ≡ m - n = omega arith in
    ap (λ k. c ∷ (take (suc n) (take (suc m) p) ++ take k (drop (suc n) p))) e
    ∙ ap (◌∷◌ c) (take-drop n m p)

take-all : (p : Str) → take (length p) p ≡ p
take-all [] = refl
take-all (c ∷ p) = ap (◌∷◌ c) (take-all p)

length-drop : (n : ℕ) (p : Str) → length p - n ≤ length (drop n p)
length-drop zero p = omega arith
length-drop (suc n) [] = omega arith
length-drop (suc n) (c ∷ p) = omega (arith, length-drop n p)

-- A loop that reports success has sent what it had to.
send_loop-whole :
    (os : Str → Option ℕ) (fuel r : ℕ) (p : Str)
    → (send_loop os fuel (pos r) p).1 ≡ true
    → (send_loop os fuel (pos r) p).0 ≡ take r p
unfolding send_loop
send_loop-whole os fuel zero p h = refl
send_loop-whole os zero (suc r) p h = cc
send_loop-whole os (suc fuel) (suc r) p h = elim (Option-cases (os (take (suc r) p))) [
  | inl e ↦ absurd (no_answer e)
  | inr (zero, e) ↦ absurd (no_byte e)
  | inr (suc n, e) ↦
      rw (e, send_loop)
        (ap (λ (sent : Str). take (suc n) (take (suc r) p) ++ sent)
            (send_loop-whole os fuel (r - n) (drop (suc n) p) (later n e))
          ∙ take-drop n r p)
]
  where
    no_answer : os (take (suc r) p) ≡ none → ⊥
    no_answer e = ground (arith, h, e)

    no_byte : os (take (suc r) p) ≡ some zero → ⊥
    no_byte e = ground (arith, h, e)

    later :
        (n : ℕ)
        → os (take (suc r) p) ≡ some (suc n)
        → (send_loop os fuel (pos (r - n)) (drop (suc n) p)).1 ≡ true
    later n e = ground (arith, h, e)

-- A length that an `int` holds is not changed.
short-int : (n : ℕ) → n < 2 ^ 31 → to_int (pos n) ≡ pos n
unfolding to_int int_of_low
short-int n h = ground (arith, h)

-- A line of fewer than 2 ^ 31 bytes that `sendRaw` reports as sent was sent whole, whatever the
-- socket took at a time.
pub send_raw-whole :
    (connected : Bool) (os : Str → Option ℕ) (line : Str)
    → length line < 2 ^ 31
    → (send_raw connected os line).1 ≡ true
    → (send_raw connected os line).0 ≡ line
unfolding send_raw
send_raw-whole true os line l h =
    subst
      (λ z.
        (send_loop os (length line) z line).1 ≡ true → (send_loop os (length line) z line).0 ≡ line)
      (sym (short-int (length line) l))
      (λ k. send_loop-whole os (length line) (length line) line k ∙ take-all line) h
send_raw-whole false os line l h = cc

-- Where the socket takes a byte at least of what it is offered.
abbrev pub Takes : (Str → Option ℕ) → Type 0
Takes os = (c : ℕ) (p : Str) → (n : ℕ) × (os (c ∷ p) ≡ some (suc n))

send_loop-Takes :
    (os : Str → Option ℕ) (fuel r : ℕ) (p : Str)
    → Takes os
    → r ≤ fuel
    → r ≤ length p
    → send_loop os fuel (pos r) p ≡ (take r p, true)
unfolding send_loop
send_loop-Takes os fuel zero p t h l = refl
send_loop-Takes os zero (suc r) p t h l = absurd (omega (arith, h))
send_loop-Takes os (suc fuel) (suc r) [] t h l = absurd (omega (arith, l))
send_loop-Takes os (suc fuel) (suc r) (c ∷ p) t h l =
    let (n, e) = t c (take r p) in
    rw (e, send_loop)
      (ap (λ (x : Str × Bool). (take (suc n) (take (suc r) (c ∷ p)) ++ x.0, x.1))
          (send_loop-Takes os fuel (r - n) (drop n p) t (omega (arith, h))
            (omega (arith, l, length-drop n p)))
        ∙ ap (λ (s : Str). (s, true)) (take-drop n r (c ∷ p)))

-- How many bytes the loop is to send of a line of so many: the low 32 bits, or none where they are a
-- negative `int`.
abbrev pub sendable : ℕ → ℕ
sendable n = if ltb (n % 2 ^ 32) (2 ^ 31) then n % 2 ^ 32 else 0

-- A connected client whose socket takes a byte at least at a time reports every line as sent, and
-- sends as many bytes from its front as the low 32 bits of its length say, or nothing where they
-- are a negative `int`: the whole line if it has fewer than 2 ^ 31 bytes, and nothing of one with
-- 2 ^ 31 bytes.
pub send_raw-Takes :
    (os : Str → Option ℕ) (line : Str)
    → Takes os
    → send_raw true os line ≡ (take (sendable (length line)) line, true)
unfolding send_raw send_loop to_int int_of_low
send_raw-Takes os line t = elim (Bool-cases (ltb (length line % 2 ^ 32) (2 ^ 31))) [
  | inl e ↦
      rw e
        (send_loop-Takes os (length line) (length line % 2 ^ 32) line t (omega arith) (omega arith))
  | inr e ↦ rw e refl
]
