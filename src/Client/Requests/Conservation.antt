-- ===== src/Client/Requests/Conservation.antt =====
-- Every callback is called once, or waits still.
use ghidra_svr_bridge.Prelude.{
  ℕ, suc, ◌+◌, ◌-◌, ◌^◌, ◌<◌, ◌≤◌, Bool, true, false, List, [], ◌∷◌, ◌++◌, Option, none, some, Str,
  codes, ℤ, pos, ◌≡◌, refl, ap, ◌∙◌, inl, inr, arith, Bool-cases, Option-cases, ◌==◌, nat_eq,
  int_eq, int_beq, if◌then◌else◌, Map, lookup, insert, lookup-insert, lookup-erase, Exc-cases, map,
  length,
}
use ghidra_svr_bridge.Wire.Library.{JsonLib}
use ghidra_svr_bridge.Client.Requests.{
  next_int, BridgeClient, Call, response, event, initial_client, failure, disconnect, answer,
  register, dispatch, receive_line, event_calls, or_unchanged,
}
use ghidra_svr_bridge.Client.Requests.Distinct.{
  Distinct, Distinct-erase, Distinct-insert, length-insert, length-erase,
}

next_int-pos : (n : ℕ) → n < 2 ^ 31 - 1 → next_int (pos n) ≡ pos (suc n)
unfolding next_int
next_int-pos n h = ground arith

pos-apart : (n j : ℕ) → suc n ≤ j → (pos n == pos j) ≡ false
unfolding int_beq
pos-apart n j h = ground arith

module _ (lib : JsonLib) (Callback : Type 0) where
  -- What the threads do to a client, one lock at a time: `sendAsync` registers a request, and takes
  -- it back where the socket is gone; the receiving thread reads a line; a thread disconnects.
  pub data Op : Type 0 where
    registered : Callback → Op
    send_failed : ℤ → Op
    received : Str → Op
    disconnected : Op

  abbrev Client : Type 0
  Client = BridgeClient lib Callback

  abbrev Calls : Type 0
  Calls = List (Call lib Callback)

  abbrev pub run_op : Op → Client → Client × Calls
  run_op (registered cb) s = (register lib Callback cb s, [])
  run_op (send_failed id) s =
      answer lib Callback id (failure lib Callback id (codes "send failed")) s
  run_op (received line) s = receive_line lib Callback s line
  run_op disconnected s = disconnect lib Callback s

  abbrev pub run : List Op → Client → Client × Calls
  run [] s = (s, [])
  run (op ∷ ops) s =
      let (next, calls) = run_op op s in let (last, more) = run ops next in (last, calls ++ more)

  abbrev pub requests : List Op → ℕ
  requests [] = 0
  requests (registered cb ∷ ops) = suc (requests ops)
  requests (_ ∷ ops) = requests ops

  -- The responses among the calls.
  abbrev pub responses : Calls → ℕ
  responses [] = 0
  responses (response cb msg ∷ calls) = suc (responses calls)
  responses (event cb msg ∷ calls) = responses calls

  responses-append : (xs ys : Calls) → responses (xs ++ ys) ≡ responses xs + responses ys
  responses-append [] ys = omega arith
  responses-append (response cb msg ∷ xs) ys = omega (arith, responses-append xs ys)
  responses-append (event cb msg ∷ xs) ys = omega (arith, responses-append xs ys)

  -- The ids in use are below the next one, and each is used once.
  abbrev pub Good : ℕ → Client → Type 0
  Good n s =
      (s.next_id ≡ pos n) × Distinct s.pending × ((j : ℕ) → n ≤ j → lookup (pos j) s.pending ≡ none)

  -- A step that answers what it takes out.
  abbrev Balanced : ℕ → Client → Client × Calls → Type 0
  Balanced n s r = Good n r.0 × (responses r.1 + length r.0.pending ≡ length s.pending)

  answer-Balanced :
      (n : ℕ) (s : Client) (id : ℤ) (msg : lib.Json)
      → Good n s
      → Balanced n s (answer lib Callback id msg s)
  unfolding answer
  answer-Balanced n s id msg g = elim (Option-cases (lookup id s.pending)) [
    | inl e ↦ rw (e, answer) ((g, omega arith))
    | inr (cb, e) ↦
        rw (e, answer)
          ((
            (
              g.0,
              Distinct-erase id s.pending g.1,
              λ j h. lookup-erase id (pos j) s.pending ∙ off (id == pos j) (g.2 j h),
            ),
            omega (arith, length-erase id cb s.pending g.1 e),
          ))
  ]
    where
      off : (b : Bool) {o : Option Callback} → o ≡ none → (if b then none else o) ≡ none
      off true h = refl
      off false h = h

  dispatch-Balanced :
      (n : ℕ) (s : Client) (msg : lib.Json)
      → Good n s
      → Balanced n s (or_unchanged lib Callback s (dispatch lib Callback msg s))
  unfolding dispatch
  dispatch-Balanced n s msg g = elim (Bool-cases (lib.contains msg (codes "event"))) [
    | inl e ↦ rw e (events s.event_callback)
    | inr e ↦ elim (Bool-cases (lib.contains msg (codes "id"))) [
      | inr d ↦ rw (e, d) ((g, omega arith))
      | inl d ↦ elim (Exc-cases (lib.get_int (lib.at msg (codes "id")))) [
        | inl (what, f) ↦ rw (e, d, f) ((g, omega arith))
        | inr (id, f) ↦ rw (e, d, f) (answer-Balanced n s id msg g)
      ]
    ]
  ]
    where
      events : (o : Option Callback) → Balanced n s (s, event_calls lib Callback o msg)
      events none = (g, omega arith)
      events (some cb) = (g, omega arith)

  receive_line-Balanced :
      (n : ℕ) (s : Client) (line : Str) → Good n s → Balanced n s (receive_line lib Callback s line)
  unfolding receive_line
  receive_line-Balanced n s line g = elim (Exc-cases (lib.parse line)) [
    | inl (what, e) ↦ rw e ((g, omega arith))
    | inr (msg, e) ↦ rw e (dispatched msg)
  ]
    where
      dispatched :
          (msg : lib.Json)
          → Balanced n s (or_unchanged lib Callback s (dispatch lib Callback msg s))
      dispatched msg = dispatch-Balanced n s msg g

  failures : (m : Map ℤ Callback) → Calls
  failures m =
      map
        (λ (p : ℤ × Callback).
          response p.1 (failure lib Callback p.0 (codes "BridgeClient disconnected")))
        m

  responses-failures : (m : Map ℤ Callback) → responses (failures m) ≡ length m
  unfolding failures
  responses-failures [] = refl
  responses-failures (p ∷ m) = ap suc (responses-failures m)

  disconnect-Balanced : (n : ℕ) (s : Client) → Good n s → Balanced n s (disconnect lib Callback s)
  unfolding disconnect lookup failures
  disconnect-Balanced n s g = ((g.0, tt, λ j h. refl), omega (arith, responses-failures s.pending))

  -- A balanced step in front of balanced ones.
  behind :
      (ops : List Op) (n : ℕ) (s : Client) (r : Client × Calls)
      → Balanced n s r
      → responses (run ops r.0).1 + length (run ops r.0).0.pending
        ≡ requests ops + length r.0.pending
      → responses (r.1 ++ (run ops r.0).1) + length (run ops r.0).0.pending
        ≡ requests ops + length s.pending
  behind ops n s r b h = omega (arith, responses-append r.1 (run ops r.0).1, b.1, h)

  registered-Good :
      (n : ℕ) (s : Client) (cb : Callback)
      → n < 2 ^ 31 - 1
      → Good n s
      → Good (suc n) (register lib Callback cb s)
        × (length (register lib Callback cb s).pending ≡ suc (length s.pending))
  unfolding register
  registered-Good n s cb small g = (
    (
      ap next_int g.0 ∙ next_int-pos n small,
      Distinct-insert s.next_id cb s.pending fresh g.1,
      below,
    ),
    length-insert s.next_id cb s.pending fresh,
  )
    where
      fresh : lookup s.next_id s.pending ≡ none
      fresh = ap (λ i. lookup i s.pending) g.0 ∙ g.2 n (omega arith)

      below : (j : ℕ) → suc n ≤ j → lookup (pos j) (insert s.next_id cb s.pending) ≡ none
      below j h =
          lookup-insert s.next_id (pos j) cb s.pending
          ∙ rw (ap (λ i. i == pos j) g.0 ∙ pos-apart n j h) (g.2 j (omega (arith, h)))

  run-Balanced :
      (ops : List Op) (n : ℕ) (s : Client)
      → Good n s
      → n + requests ops < 2 ^ 31
      → responses (run ops s).1 + length (run ops s).0.pending ≡ requests ops + length s.pending
  run-Balanced [] n s g small = omega arith
  run-Balanced (registered cb ∷ ops) n s g small =
      let q = registered-Good n s cb (omega (arith, small)) g in
      omega (
        arith,
        run-Balanced ops (suc n) (register lib Callback cb s) q.0 (omega (arith, small)),
        q.1,
      )
  run-Balanced (send_failed id ∷ ops) n s g small =
      behind ops n s (run_op (send_failed id) s)
        (answer-Balanced n s id (failure lib Callback id (codes "send failed")) g)
        (run-Balanced ops n (run_op (send_failed id) s).0
          (answer-Balanced n s id (failure lib Callback id (codes "send failed")) g).0 small)
  run-Balanced (received line ∷ ops) n s g small =
      behind ops n s (run_op (received line) s) (receive_line-Balanced n s line g)
        (run-Balanced ops n (run_op (received line) s).0 (receive_line-Balanced n s line g).0 small)
  run-Balanced (disconnected ∷ ops) n s g small =
      behind ops n s (run_op disconnected s) (disconnect-Balanced n s g)
        (run-Balanced ops n (run_op disconnected s).0 (disconnect-Balanced n s g).0 small)

  -- Fewer than 2 ^ 31 - 1 requests of a new client, registered, failed, answered, repeated and cut off
  -- in any order: the callbacks that were called with a response and those that wait are together
  -- as many as the requests.
  pub run-responses :
      (ops : List Op)
      → requests ops < 2 ^ 31 - 1
      → responses (run ops (initial_client lib Callback)).1
          + length (run ops (initial_client lib Callback)).0.pending
        ≡ requests ops
  unfolding lookup
  run-responses ops small =
      run-Balanced ops 1 (initial_client lib Callback) (refl, tt, λ j h. refl)
        (omega (arith, small))
      ∙ omega arith

  disconnected-pending :
      (ops : List Op) (s : Client) → (run (ops ++ disconnected ∷ []) s).0.pending ≡ []
  unfolding disconnect
  disconnected-pending [] s = refl
  disconnected-pending (op ∷ ops) s = disconnected-pending ops (run_op op s).0

  requests-disconnected : (ops : List Op) → requests (ops ++ disconnected ∷ []) ≡ requests ops
  requests-disconnected [] = refl
  requests-disconnected (registered cb ∷ ops) = ap suc (requests-disconnected ops)
  requests-disconnected (send_failed id ∷ ops) = requests-disconnected ops
  requests-disconnected (received line ∷ ops) = requests-disconnected ops
  requests-disconnected (disconnected ∷ ops) = requests-disconnected ops

  -- A client that disconnects after fewer than 2 ^ 31 - 1 requests has called a callback for each,
  -- and none waits.
  pub disconnected-responses :
      (ops : List Op)
      → requests ops < 2 ^ 31 - 1
      → (responses (run (ops ++ disconnected ∷ []) (initial_client lib Callback)).1 ≡ requests ops)
        × ((run (ops ++ disconnected ∷ []) (initial_client lib Callback)).0.pending ≡ [])
  disconnected-responses ops small =
      let last = disconnected-pending ops (initial_client lib Callback) in
      let count = requests-disconnected ops in
      (
        omega (
          arith,
          run-responses (ops ++ disconnected ∷ []) (omega (arith, small, count)),
          count,
          ap length last,
        ),
        last,
      )
