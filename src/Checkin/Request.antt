-- ===== src/Checkin/Request.antt =====
-- `checkin` as a whole: its guards, the request, the answer, and the update behind a success. The
-- warnings that it logs about counts are left out.
pub mod Outcome
use ghidra_svr_bridge.Prelude.{
  ℕ, Bool, true, false, not, ◌&&◌, List, [], ◌∷◌, ◌++◌, Option, none, some, Str, codes, ℤ, Map, Exc,
  ok, throw, ◌>>=◌, str_eq, if◌then◌else◌, is_empty, map, fold, insert,
}
use ghidra_svr_bridge.Address.{rebase_of}
use ghidra_svr_bridge.Model.Preview.{GhidraCheckinPreview}
use ghidra_svr_bridge.Model.Baseline.{CheckinState}
use ghidra_svr_bridge.Wire.Library.{JsonLib}
use ghidra_svr_bridge.Wire.Encode.{build_checkin_json}
use ghidra_svr_bridge.Checkin.Update.{update_baseline}

-- `isBridgeConnected()` and `m_serverConnected`.
pub record Links : Type 0 where
  pub bridge : Bool
  pub server : Bool

module _ (lib : JsonLib) where
  -- `req.update(body)`
  unfoldable pub checkin_request : CheckinState → GhidraCheckinPreview → ℕ → Str → Map Str lib.Json
  checkin_request s p rebase comment =
      fold (λ req (m : Str × lib.Json). insert m.0 m.1 req)
        ((codes "op", lib.of_text (codes "checkin"))
          ∷ (codes "repo", lib.of_text s.checkin_repo)
          ∷ (codes "folder", lib.of_text s.checkin_folder)
          ∷ (codes "item", lib.of_text s.checkin_item)
          ∷ (codes "comment", lib.of_text comment)
          ∷ [])
        (build_checkin_json lib p rebase s.addr_to_original_func_comment s.addr_to_comment_field)

  abbrev pub id_of : Str × lib.Json → Str × Option ℤ
  id_of (n, v) = (n, if lib.is_number v then some (lib.get_long v) else none)

  -- `added_type_ids` of the answer.
  unfoldable pub added_ids : lib.Json → List (Str × Option ℤ)
  added_ids resp =
      if lib.contains resp (codes "added_type_ids")
        && lib.is_object (lib.at resp (codes "added_type_ids"))
      then map id_of (lib.members (lib.at resp (codes "added_type_ids")))
      else []

  abbrev pub refused : lib.Json → Exc CheckinState
  refused resp = do e ← lib.value_text resp (codes "error") (codes "checkin failed"); throw e

  -- The state behind an answer; an error is thrown with its text.
  unfoldable pub accept : ℕ → CheckinState → GhidraCheckinPreview → lib.Json → Exc CheckinState
  accept rebase s p resp = do
    flag ← lib.value_bool resp (codes "ok") false
    (if flag then ok (update_baseline rebase s (added_ids resp) p) else refused resp)

  abbrev pub outcome : CheckinState → Exc CheckinState → CheckinState × Option Str
  outcome s (throw e) = (s, some e)
  outcome s (ok t) = (t, none)

  -- `send` is `sendSync` of the client. The state behind the call, and `errorOut` where it fails.
  unfoldable pub checkin :
      (Map Str lib.Json → Exc lib.Json)
      → Links
      → ℕ
      → GhidraCheckinPreview
      → Str
      → CheckinState
      → CheckinState × Option Str
  checkin send links start p comment s =
      let rebase = rebase_of start s.image_base in
      if not links.bridge
      then (s, some (codes "Bridge not connected"))
      else if not links.server
      then (s, some (codes "Not connected to server"))
      else if is_empty s.checkin_item
      then (s, some (codes "No import " ++ (226 ∷ 128 ∷ 148 ∷ codes " import first")))
      else outcome s (do resp ← send (checkin_request s p rebase comment); accept rebase s p resp)
