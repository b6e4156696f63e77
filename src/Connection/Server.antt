-- ===== src/Connection/Server.antt =====
-- The server's connection: `connectToServer`, `disconnectFromServer`, `disconnectBridge`, and
-- `uploadBinary`, which sends the session's credentials.
use ghidra_svr_bridge.Prelude.{
  ℕ, Bool, true, false, not, ◌&&◌, List, [], ◌∷◌, Option, none, some, Str, codes, ℤ, pos, Map, ok,
  if◌then◌else◌, is_empty, is_some,
}
use ghidra_svr_bridge.Wire.Library.{JsonLib}
use ghidra_svr_bridge.Process.Posix.{Outcome, done, failed, thrown}
use ghidra_svr_bridge.Connection.Repository.{Reply, guarded}
use ghidra_svr_bridge.Connection.Bridge.{
  Settings, World, GhidraConnection, is_bridge_connected, connect_bridge,
}

module _ (lib : JsonLib) (Callback : Type 0) where
  abbrev Outside : Type 0
  Outside = World lib Callback

  abbrev Connection : Type 0
  Connection = GhidraConnection lib Callback

  abbrev text_member : Str → Str → Str × lib.Json
  text_member k v = (k, lib.of_text v)

  unfoldable pub connect_request : Str → ℤ → Str → Str → Map Str lib.Json
  connect_request host port user password =
      text_member (codes "op") (codes "connect")
      ∷ text_member (codes "host") host
      ∷ (codes "port", lib.of_int port)
      ∷ text_member (codes "user") user
      ∷ text_member (codes "password") password
      ∷ []

  -- The `try` block of `connectToServer`.
  unfoldable pub log_in : Outside → Str → ℤ → Str → Str → Connection → Connection × Reply Bool
  log_in w host port user password c =
      let reply =
        guarded lib false (codes "unknown error") (λ resp. ok true)
          (w.send (connect_request host port user password) 15000) in
      (
        if reply.0
            then record c {
              server_connected = true;
              user = user;
              host = host;
              port = port;
              password = password;
            }
            else c,
        reply,
      )

  -- What `connectToServer` does behind `connectBridge`; `none` where an exception leaves the call.
  unfoldable pub behind_bridge :
      Outside → Str → ℤ → Str → Str → Connection × Outcome → Connection × Option (Reply Bool)
  behind_bridge w host port user password (c, done) =
      let (d, reply) = log_in w host port user password c in (d, some reply)
  behind_bridge w host port user password (c, failed what) = (c, some (false, some what))
  behind_bridge w host port user password (c, thrown what) = (c, none)

  unfoldable pub connect_to_server :
      Settings → Outside → Str → ℤ → Str → Str → Connection → Connection × Option (Reply Bool)
  connect_to_server st w host port user password c = behind_bridge w host port user password (
      if is_bridge_connected lib Callback st w c
      then (c, done)
      else connect_bridge lib Callback st w host c)

  -- The request, if one is sent, with its timeout, and the state; what it answers is dropped.
  unfoldable pub disconnect_from_server : Connection → Connection × List (Map Str lib.Json × ℕ)
  disconnect_from_server c = (
    record c { server_connected = false; user = []; host = []; port = pos 0; password = [] },
    if is_some c.client && c.server_connected
        then (text_member (codes "op") (codes "disconnect") ∷ [], 3000) ∷ []
        else [],
  )

  unfoldable pub disconnect_bridge : Connection → Connection
  disconnect_bridge c = record (disconnect_from_server c).0 { client = none; process = none }

  unfoldable pub upload_request :
      (Str → Str) → Str → Str → Str → Str → Str → Bool → Str → Connection → Map Str lib.Json
  upload_request to_base64 repo folder item bytes comment keep_checkout analysis_json c =
      text_member (codes "op") (codes "upload_binary")
      ∷ text_member (codes "repo") repo
      ∷ text_member (codes "folder") folder
      ∷ text_member (codes "item") item
      ∷ text_member (codes "data") (to_base64 bytes)
      ∷ text_member (codes "comment") comment
      ∷ (codes "keep_checkout", lib.of_bool keep_checkout)
      ∷ text_member (codes "host") c.host
      ∷ (codes "port", lib.of_int c.port)
      ∷ text_member (codes "user") c.user
      ∷ text_member (codes "password") c.password
      ∷ text_member (codes "analysis_json") analysis_json
      ∷ []

  unfoldable pub upload_binary :
      Settings
      → Outside
      → (Str → Str)
      → Str
      → Str
      → Str
      → Str
      → Str
      → Bool
      → Str
      → Connection
      → Reply Bool
  upload_binary st w to_base64 repo folder item bytes comment keep_checkout analysis_json c =
      if not (is_bridge_connected lib Callback st w c)
      then (false, some (codes "Bridge not connected"))
      else if not c.server_connected
      then (false, some (codes "Not connected to server"))
      else if is_empty bytes
      then (false, some (codes "Binary data is empty"))
      else guarded lib false (codes "upload_binary failed") (λ resp. ok true)
          (w.send
            (upload_request to_base64 repo folder item bytes comment keep_checkout analysis_json c)
            660000)
