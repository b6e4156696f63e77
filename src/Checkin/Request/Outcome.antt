-- ===== src/Checkin/Request/Outcome.antt =====
-- What a check-in leaves, whether it fails or not.
use ghidra_svr_bridge.Prelude.{
  ℕ, Bool, ◌⊎◌, true, false, [], ◌∷◌, ◌++◌, Option, none, some, Str, Map, Exc, ok, throw, ◌≡◌, refl,
  sym, ◌∙◌, inl, inr, subst, Exc-cases, Bool-cases, codes, is_empty,
}
use ghidra_svr_bridge.Address.{rebase_of}
use ghidra_svr_bridge.Model.Preview.{GhidraCheckinPreview}
use ghidra_svr_bridge.Model.Baseline.{CheckinState}
use ghidra_svr_bridge.Model.View.{BnView}
use ghidra_svr_bridge.Collect.Symbols.{collect_renames, collect_new_symbols}
use ghidra_svr_bridge.Collect.Preview.{collect_preview}
use ghidra_svr_bridge.Wire.Library.{JsonLib}
use ghidra_svr_bridge.Checkin.Update.{update_baseline}
use ghidra_svr_bridge.Checkin.Converge.Symbols.{symbols_settle}
use ghidra_svr_bridge.Checkin.Request.{Links, checkin_request, added_ids, accept, outcome, checkin}

module _ (lib : JsonLib) (send : Map Str lib.Json → Exc lib.Json) (links : Links) (start : ℕ)
    (p : GhidraCheckinPreview) (comment : Str) (s : CheckinState) where
  -- The answer to the request of the check-in.
  abbrev pub reply : Exc lib.Json
  reply = send (checkin_request lib s p (rebase_of start s.image_base) comment)

  abbrev flag_of : lib.Json → Exc Bool
  flag_of resp = lib.value_bool resp (codes "ok") false

  -- Why a check-in fails, and with which text: a guard, the connection, or the answer.
  pub data Refusal (what : Str) : Type 0 where
    no_bridge : links.bridge ≡ false → what ≡ codes "Bridge not connected" → Refusal what
    no_server : links.server ≡ false → what ≡ codes "Not connected to server" → Refusal what
    no_import :
        is_empty s.checkin_item ≡ true
        → what ≡ codes "No import " ++ (226 ∷ 128 ∷ 148 ∷ codes " import first")
        → Refusal what
    unanswered : reply ≡ throw what → Refusal what
    no_flag : (resp : lib.Json) → reply ≡ ok resp → flag_of resp ≡ throw what → Refusal what
    rejected :
        (resp : lib.Json)
        → reply ≡ ok resp
        → flag_of resp ≡ ok false
        → (lib.value_text resp (codes "error") (codes "checkin failed") ≡ ok what)
          ⊎ (lib.value_text resp (codes "error") (codes "checkin failed") ≡ throw what)
        → Refusal what

  -- Either there is a reason to fail, the state is as before and the error is that reason's text; or
  -- every guard is passed, the answer has its flag set, the baselines are updated with the ids of
  -- the answer, and there is no error.
  pub data Settled (r : CheckinState × Option Str) : Type 0 where
    unchanged : (what : Str) → Refusal what → r.0 ≡ s → r.1 ≡ some what → Settled r
    updated :
        (resp : lib.Json)
        → links.bridge ≡ true
        → links.server ≡ true
        → is_empty s.checkin_item ≡ false
        → reply ≡ ok resp
        → flag_of resp ≡ ok true
        → r.0 ≡ update_baseline (rebase_of start s.image_base) s (added_ids lib resp) p
        → r.1 ≡ none
        → Settled r

  accept-Settled :
      (resp : lib.Json)
      → links.bridge ≡ true
      → links.server ≡ true
      → is_empty s.checkin_item ≡ false
      → reply ≡ ok resp
      → Settled (outcome lib s (accept lib (rebase_of start s.image_base) s p resp))
  unfolding accept
  accept-Settled resp a b c h = elim (Exc-cases (flag_of resp)) [
    | inl (what, e) ↦ rw e (unchanged what (no_flag resp h e) refl refl)
    | inr (true, e) ↦ rw e (updated resp a b c h e refl refl)
    | inr (false, e) ↦
        elim (Exc-cases (lib.value_text resp (codes "error") (codes "checkin failed"))) [
          | inl (what, f) ↦ rw (e, f) (unchanged what (rejected resp h e (inr f)) refl refl)
          | inr (what, f) ↦ rw (e, f) (unchanged what (rejected resp h e (inl f)) refl refl)
        ]
  ]

  -- A check-in that fails has a reason to: the bridge or the server is not connected, nothing was
  -- imported, no answer came, or the answer's flag is not set; it leaves the state as it was and
  -- the reason's text. One that succeeds passed the guards, its answer's flag is set, and it updates
  -- the baselines with the preview and the answer's ids.
  pub checkin-Settled : Settled (checkin lib send links start p comment s)
  unfolding checkin
  checkin-Settled = elim (Bool-cases links.bridge) [
    | inr a ↦ simp a (unchanged (codes "Bridge not connected") (no_bridge a refl) refl refl)
    | inl a ↦ elim (Bool-cases links.server) [
      | inr b ↦
          simp (a, b) (unchanged (codes "Not connected to server") (no_server b refl) refl refl)
      | inl b ↦ elim (Bool-cases (is_empty s.checkin_item)) [
        | inl c ↦ simp (a, b, c) (unchanged _ (no_import c refl) refl refl)
        | inr c ↦ elim (Exc-cases reply) [
          | inl (what, e) ↦ simp (a, b, c, e) (unchanged what (unanswered e) refl refl)
          | inr (resp, e) ↦ simp (a, b, c, e) (accept-Settled resp a b c e)
        ]
      ]
    ]
  ]

-- A check-in of a view's preview that reports no error leaves a state in which the same view has
-- no renamed and no new symbol.
pub checkin-symbols :
    (lib : JsonLib) (send : Map Str lib.Json → Exc lib.Json) (links : Links) (view : BnView)
    (comment : Str) (s : CheckinState)
    → (checkin lib send links view.start (collect_preview view s) comment s).1 ≡ none
    → (collect_renames view (checkin lib send links view.start (collect_preview view s) comment s).0
        ≡ [])
      × (collect_new_symbols view
            (checkin lib send links view.start (collect_preview view s) comment s).0
          ≡ [])
checkin-symbols lib send links view comment s h =
    elim (checkin-Settled lib send links view.start (collect_preview view s) comment s) [
      | unchanged what why same e ↦ absurd (apart (sym h ∙ e))
      | updated resp a b c h f e none_left ↦
          subst (λ t. (collect_renames view t ≡ []) × (collect_new_symbols view t ≡ [])) (sym e)
            (symbols_settle view s (rebase_of view.start s.image_base) (added_ids lib resp))
    ]
  where
    apart : {what : Str} → none ≡ some what → ⊥
    apart e = cc
