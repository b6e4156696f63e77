-- ===== src/Client/Sync/Answered.antt =====
-- `sendSync` returns the bridge's answer.
use ghidra_svr_bridge.Prelude.{
  ℕ, true, false, not, List, [], ◌∷◌, ◌++◌, Option, none, some, Str, codes, ℤ, Exc, ok, throw, Eq,
  ◌==◌, int_eq, nat_eq, if◌then◌else◌, ◌≡◌, ◌≢◌, refl, sym, ap, subst, ◌∙◌, arith, ◌⊎◌, inl, inr,
  Bool-cases, Option-cases, Exc-cases, lookup, erase, lookup-insert, lookup-erase, ==-refl, All,
  map,
}
use ghidra_svr_bridge.Wire.Library.{JsonLib}
use ghidra_svr_bridge.Client.Framing.{send_raw}
use ghidra_svr_bridge.Client.Requests.{
  BridgeClient, Call, response, event, register, answer, dispatch, event_calls, request_line,
  send_async, receive_line,
}
use ghidra_svr_bridge.Client.Sync.{Arrival, line, arrive, arrivals, fulfilled, awaited, send_sync}

module _ (lib : JsonLib) where
  abbrev with_id : lib.Json → Exc ℤ → Option (ℤ × lib.Json)
  with_id msg (throw what) = none
  with_id msg (ok id) = some (id, msg)

  abbrev of_message : Exc lib.Json → Option (ℤ × lib.Json)
  of_message (throw what) = none
  of_message (ok msg) =
      if lib.contains msg (codes "event")
      then none
      else if not (lib.contains msg (codes "id"))
      then none
      else with_id msg (lib.get_int (lib.at msg (codes "id")))

  -- The request that a line answers, and the answer: no event, and an id that is a number.
  unfoldable pub answered : Str → Option (ℤ × lib.Json)
  answered l = of_message (lib.parse l)

module _ (lib : JsonLib) (Callback : Type 0) ⦃eq : Eq Callback⦄ (cb : Callback) where
  abbrev Client : Type 0
  Client = BridgeClient lib Callback

  event-unfulfilled :
      (o : Option Callback) (msg : lib.Json)
      → fulfilled lib Callback cb (event_calls lib Callback o msg) ≡ none
  unfolding fulfilled
  event-unfulfilled none msg = refl
  event-unfulfilled (some h) msg = refl

  -- What a line does: it answers a request, or it fulfils nothing and changes nothing.
  data Effect (s : Client) (l : Str) : Type 0 where
    idle :
        (receive_line lib Callback s l).0 ≡ s
        → fulfilled lib Callback cb (receive_line lib Callback s l).1 ≡ none
        → answered lib l ≡ none
        → Effect s l
    dispatched :
        (id : ℤ) (msg : lib.Json)
        → answered lib l ≡ some (id, msg)
        → receive_line lib Callback s l ≡ answer lib Callback id msg s
        → Effect s l

  effect : (s : Client) (l : Str) → Effect s l
  unfolding receive_line dispatch answered fulfilled
  effect s l = elim (Exc-cases (lib.parse l)) [
    | inl (what, p) ↦ idle (rw p refl) (rw p refl) (rw p refl)
    | inr (msg, p) ↦ elim (Bool-cases (lib.contains msg (codes "event"))) [
      | inl e ↦
          idle (rw (p, e) refl) (rw (p, e) (event-unfulfilled s.event_callback msg))
            (rw (p, e) refl)
      | inr e ↦ elim (Bool-cases (lib.contains msg (codes "id"))) [
        | inr i ↦ idle (rw (p, e, i) refl) (rw (p, e, i) refl) (rw (p, e, i) refl)
        | inl i ↦ elim (Exc-cases (lib.get_int (lib.at msg (codes "id")))) [
          | inl (what, g) ↦
              idle (rw (p, e, i, g) refl) (rw (p, e, i, g) refl) (rw (p, e, i, g) refl)
          | inr (id, g) ↦ dispatched id msg (rw (p, e, i, g) refl) (rw (p, e, i, g) refl)
        ]
      ]
    ]
  ]

  fulfilled-later :
      (a b : List (Call lib Callback))
      → fulfilled lib Callback cb a ≡ none
      → fulfilled lib Callback cb (a ++ b) ≡ fulfilled lib Callback cb b
  unfolding fulfilled
  fulfilled-later [] b h = refl
  fulfilled-later (response c msg ∷ a) b h = elim (Bool-cases (c == cb)) [
    | inl e ↦ absurd (found e)
    | inr e ↦ rw e (fulfilled-later a b (missed e))
  ]
    where
      found : (c == cb) ≡ true → ⊥
      found e = ground (arith, h, e)

      missed : (c == cb) ≡ false → fulfilled lib Callback cb a ≡ none
      missed e = ground (arith, h, e)
  fulfilled-later (event c msg ∷ a) b h = fulfilled-later a b h

  fulfilled-first :
      (a b : List (Call lib Callback)) (m : lib.Json)
      → fulfilled lib Callback cb a ≡ some m
      → fulfilled lib Callback cb (a ++ b) ≡ some m
  unfolding fulfilled
  fulfilled-first [] b m h = cc
  fulfilled-first (response c msg ∷ a) b m h = elim (Bool-cases (c == cb)) [
    | inl e ↦ rw e (found e)
    | inr e ↦ rw e (fulfilled-first a b m (missed e))
  ]
    where
      found : (c == cb) ≡ true → some msg ≡ some m
      found e = ground (arith, h, e)

      missed : (c == cb) ≡ false → fulfilled lib Callback cb a ≡ some m
      missed e = ground (arith, h, e)
  fulfilled-first (event c msg ∷ a) b m h = fulfilled-first a b m h

  module _ (id : ℤ) where
    -- The request waits with this callback, and no other does.
    abbrev Waiting : Client → Type 0
    Waiting s = (lookup id s.pending ≡ some cb) × ((j : ℤ) → j ≢ id → lookup j s.pending ≢ some cb)

    erase-Waiting :
        (j : ℤ) (s : Client)
        → j ≢ id
        → Waiting s
        → Waiting (record s { pending = erase j s.pending })
    erase-Waiting j s n w = (
      lookup-erase j id s.pending ∙ kept (Bool-cases (j == id)),
      λ k m e. w.1 k m (others k (sym (lookup-erase j k s.pending) ∙ e)),
    )
      where
        kept :
            (((j == id) ≡ true) ⊎ ((j == id) ≡ false))
            → (if j == id then none else lookup id s.pending) ≡ some cb
        kept (inl e) = absurd (n ((int_eq.same_iff j id).0 e))
        kept (inr e) = rw e w.0

        others :
            (k : ℤ)
            → (if j == k then none else lookup k s.pending) ≡ some cb
            → lookup k s.pending ≡ some cb
        others k e = ground (arith, e)

    other-Waiting :
        (j : ℤ) (msg : lib.Json) (s : Client)
        → j ≢ id
        → Waiting s
        → Waiting (answer lib Callback j msg s).0
          × (fulfilled lib Callback cb (answer lib Callback j msg s).1 ≡ none)
    unfolding answer fulfilled
    other-Waiting j msg s n w = elim (Option-cases (lookup j s.pending)) [
      | inl e ↦ rw (e, answer) (w, refl)
      | inr (c, e) ↦ elim (Bool-cases (c == cb)) [
        | inl b ↦ absurd (w.1 j n (e ∙ ap some ((eq.same_iff c cb).0 b)))
        | inr b ↦ rw (e, b, answer) (erase-Waiting j s n w, refl)
      ]
    ]

    line-Waiting :
        (l : Str) (s : Client)
        → ((msg : lib.Json) → answered lib l ≢ some (id, msg))
        → Waiting s
        → Waiting (receive_line lib Callback s l).0
          × (fulfilled lib Callback cb (receive_line lib Callback s l).1 ≡ none)
    line-Waiting l s n w = elim (effect s l) [
      | idle same none_there a ↦ (subst Waiting (sym same) w, none_there)
      | dispatched j msg a r ↦
          subst
            (λ (q : Client × List (Call lib Callback)).
              Waiting q.0 × (fulfilled lib Callback cb q.1 ≡ none))
            (sym r) (other-Waiting j msg s (λ e. n msg (a ∙ ap (λ k. some (k, msg)) e)) w)
    ]

    called :
        (msg : lib.Json) (s : Client)
        → Waiting s
        → fulfilled lib Callback cb (answer lib Callback id msg s).1 ≡ some msg
    unfolding answer fulfilled
    called msg s w = rw (w.0, ==-refl cb, answer) refl

    answer-Waiting :
        (l : Str) (msg : lib.Json) (s : Client)
        → answered lib l ≡ some (id, msg)
        → Waiting s
        → fulfilled lib Callback cb (receive_line lib Callback s l).1 ≡ some msg
    answer-Waiting l msg s a w = elim (effect s l) [
      | idle same none_there b ↦ absurd (apart (sym b ∙ a))
      | dispatched j other b r ↦
          subst
            (λ (q : Client × List (Call lib Callback)). fulfilled lib Callback cb q.1 ≡ some msg)
            (sym r)
            (subst
              (λ (k : ℤ × lib.Json).
                fulfilled lib Callback cb (answer lib Callback k.0 k.1 s).1 ≡ some msg)
              (pairs (sym a ∙ b)) (called msg s w))
    ]
      where
        apart : {q : ℤ × lib.Json} → none ≡ some q → ⊥
        apart e = cc

        pairs : {p q : ℤ × lib.Json} → some p ≡ some q → p ≡ q
        pairs e = ground (arith, e)

    waits :
        (front : List Str) (l : Str) (msg : lib.Json) (rest : List (Arrival lib Callback))
        (s : Client)
        → All (λ f. (m : lib.Json) → answered lib f ≢ some (id, m)) front
        → answered lib l ≡ some (id, msg)
        → Waiting s
        → fulfilled lib Callback cb (arrivals lib Callback (map line front ++ line l ∷ rest) s).1
          ≡ some msg
    unfolding arrivals arrive
    waits [] l msg rest s n a w = fulfilled-first _ _ msg (answer-Waiting l msg s a w)
    waits (f ∷ front) l msg rest s n a w =
        let q = line-Waiting f s n.0 w in
        fulfilled-later _ _ q.1 ∙ waits front l msg rest _ n.1 a q.0

  -- The request is registered with the client's next id.
  registered-Waiting :
      (s : Client)
      → ((j : ℤ) → lookup j s.pending ≢ some cb)
      → Waiting s.next_id (register lib Callback cb s)
  unfolding register
  registered-Waiting s fresh = (
    lookup-insert s.next_id s.next_id cb s.pending ∙ own (==-refl s.next_id),
    λ j n e. other j n (sym (lookup-insert s.next_id j cb s.pending) ∙ e),
  )
    where
      own :
          (s.next_id == s.next_id) ≡ true
          → (if s.next_id == s.next_id then some cb else lookup s.next_id s.pending) ≡ some cb
      own e = rw e refl

      other :
          (j : ℤ)
          → j ≢ s.next_id
          → (if s.next_id == j then some cb else lookup j s.pending) ≢ some cb
      other j n e = elim (Bool-cases (s.next_id == j)) [
        | inl h ↦ n (sym ((int_eq.same_iff s.next_id j).0 h))
        | inr h ↦ fresh j (ground (arith, e, h))
      ]

  -- Where the callback waits for no other request, the request is sent, and of the lines that arrive
  -- in time the first that answers its id answers it with a message, `sendSync` returns the message,
  -- whatever else arrives before and behind it.
  pub send_sync-answered :
      (os : Str → Option ℕ) (request : lib.Json) (timeout_ms : ℕ) (front : List Str) (l : Str)
      (msg : lib.Json) (rest : List (Arrival lib Callback)) (s : Client)
      → ((j : ℤ) → lookup j s.pending ≢ some cb)
      → (send_raw s.connected os (request_line lib Callback request s.next_id)).1 ≡ true
      → All (λ f. (m : lib.Json) → answered lib f ≢ some (s.next_id, m)) front
      → answered lib l ≡ some (s.next_id, msg)
      → (send_sync lib Callback os request timeout_ms (map line front ++ line l ∷ rest) cb s).3
        ≡ ok msg
  unfolding send_sync send_async
  send_sync-answered os request timeout_ms front l msg rest s fresh sent n a = rw sent (
      ap (awaited lib Callback timeout_ms) (
        waits s.next_id front l msg rest (register lib Callback cb s) n a
          (registered-Waiting s fresh)))
