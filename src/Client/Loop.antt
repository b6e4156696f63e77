-- ===== src/Client/Loop.antt =====
-- `receiveLoop` as a whole: from the answers of `recv` to the calls of callbacks.
use ghidra_svr_bridge.Prelude.{
  false, List, [], ◌∷◌, ◌++◌, Str, ◌≡◌, refl, ◌∙◌, Option-cases, inl, inr, int_eq, lookup, ℤ,
  Bool-cases, Exc-cases, codes,
}
use ghidra_svr_bridge.Wire.Library.{JsonLib}
use ghidra_svr_bridge.Client.Framing.{receive_chunks, messages}
use ghidra_svr_bridge.Client.Requests.{BridgeClient, Call, answer, dispatch, receive_line}

module _ (lib : JsonLib) (Callback : Type 0) where
  unfoldable pub receive_lines :
      List Str → BridgeClient lib Callback → BridgeClient lib Callback × List (Call lib Callback)
  receive_lines [] s = (s, [])
  receive_lines (l ∷ lines) s =
      let (t, calls) = receive_line lib Callback s l in
      let (u, later) = receive_lines lines t in (u, calls ++ later)

  -- The chunks until the connection ends, and `m_running = false`.
  unfoldable pub receive_loop :
      List Str → BridgeClient lib Callback → BridgeClient lib Callback × List (Call lib Callback)
  receive_loop chunks s =
      let (t, calls) = receive_lines (messages (receive_chunks [] chunks).0) s in
      (record t { running = false }, calls)

  answer-connected :
      (s : BridgeClient lib Callback) (j : ℤ) (msg : lib.Json)
      → (answer lib Callback j msg s).0.connected ≡ s.connected
  unfolding answer
  answer-connected s j msg = elim (Option-cases (lookup j s.pending)) [
    | inl e ↦ rw (e, answer) refl
    | inr (c, e) ↦ rw (e, answer) refl
  ]

  line-connected :
      (s : BridgeClient lib Callback) (l : Str)
      → (receive_line lib Callback s l).0.connected ≡ s.connected
  unfolding receive_line dispatch
  line-connected s l = elim (Exc-cases (lib.parse l)) [
    | inl (what, p) ↦ rw p refl
    | inr (msg, p) ↦ elim (Bool-cases (lib.contains msg (codes "event"))) [
      | inl e ↦ rw (p, e) refl
      | inr e ↦ elim (Bool-cases (lib.contains msg (codes "id"))) [
        | inr i ↦ rw (p, e, i) refl
        | inl i ↦ elim (Exc-cases (lib.get_int (lib.at msg (codes "id")))) [
          | inl (what, g) ↦ rw (p, e, i, g) refl
          | inr (id, g) ↦ rw (p, e, i, g) (answer-connected s id msg)
        ]
      ]
    ]
  ]

  lines-connected :
      (lines : List Str) (s : BridgeClient lib Callback)
      → (receive_lines lines s).0.connected ≡ s.connected
  unfolding receive_lines
  lines-connected [] s = refl
  lines-connected (l ∷ lines) s =
      lines-connected lines (receive_line lib Callback s l).0 ∙ line-connected s l

  pub receive_loop-connected :
      (chunks : List Str) (s : BridgeClient lib Callback)
      → (receive_loop chunks s).0.connected ≡ s.connected
  unfolding receive_loop
  receive_loop-connected chunks s = lines-connected (messages (receive_chunks [] chunks).0) s
