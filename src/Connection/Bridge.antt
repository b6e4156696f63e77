-- ===== src/Connection/Bridge.antt =====
-- The bridge's connection: `startLocalBridge`, `connectBridge`, `isBridgeConnected`.
use ghidra_svr_bridge.Prelude.{
  ℕ, Bool, true, false, not, ◌&&◌, List, [], ◌∷◌, ◌++◌, Option, none, some, Str, codes, ℤ, pos, Map,
  Exc, ok, throw, ◌==◌, str_eq, if◌then◌else◌, is_empty, int_to_string,
}
use ghidra_svr_bridge.Wire.Library.{JsonLib}
use ghidra_svr_bridge.Client.Requests.{
  BridgeClient, Call, Network, initial_client, connect, set_event_callback,
}
use ghidra_svr_bridge.Process.Command.{arguments}
use ghidra_svr_bridge.Process.Posix.{
  BridgeProcess, new_process, Launch, Outcome, done, failed, thrown, start, is_running,
}
use ghidra_svr_bridge.Connection.Locate.{auto_detect_ghidra_home, auto_detect_bridge_jar}

-- The settings of the application.
pub record Settings : Type 0 where
  pub bridge_mode : Str
  pub bridge_port : ℤ
  pub java_exe : Str
  pub bridge_jar : Str
  pub ghidra_home : Str
  pub trust_all : Bool

module _ (lib : JsonLib) (Callback : Type 0) where
  -- What the system and the bridge answer during one operation: whether a child is alive, the launch
  -- of a command, the network, `sendSync`, and the file system.
  pub record World : Type 0 where
    pub alive : ℕ → Bool
    pub launch : List Str → Launch
    pub network : Network
    pub send : Map Str lib.Json → ℕ → Exc lib.Json
    pub plugin_file : Option Str
    pub entries : Str → Option (List Str)
    pub default_home : Str
    pub on_event : Callback

  pub record GhidraConnection : Type 0 where
    pub process : Option BridgeProcess
    pub client : Option (BridgeClient lib Callback)
    pub server_connected : Bool
    pub user : Str
    pub host : Str
    pub port : ℤ
    pub password : Str

  abbrev pub initial_connection : GhidraConnection
  initial_connection = record {
    process = none;
    client = none;
    server_connected = false;
    user = [];
    host = [];
    port = pos 0;
    password = [];
  }

  abbrev pub client_connected : Option (BridgeClient lib Callback) → Bool
  client_connected none = false
  client_connected (some k) = k.connected

  abbrev pub process_running : World → Option BridgeProcess → Bool
  process_running w none = false
  process_running w (some p) = is_running w.alive p

  -- In local mode a child that has ended ends the connection.
  abbrev pub process_ended : World → Option BridgeProcess → Bool
  process_ended w none = false
  process_ended w (some p) = not (is_running w.alive p)

  unfoldable pub is_bridge_connected : Settings → World → GhidraConnection → Bool
  is_bridge_connected st w c =
      if not (client_connected c.client)
      then false
      else if st.bridge_mode == codes "local" && process_ended w c.process
      then false
      else true

  -- Behind `m_client->connect`, with the event's callback; `throw` stands for a `false` with the
  -- error's text.
  unfoldable pub opened_client :
      World
      → BridgeClient lib Callback × List (Call lib Callback) × Option Str
      → Exc (BridgeClient lib Callback)
  opened_client w (k, calls, some what) = throw what
  opened_client w (k, calls, none) = ok (set_event_callback lib Callback (some w.on_event) k)

  -- The client of a bridge at an address.
  unfoldable pub open_client : World → Str → ℤ → Exc (BridgeClient lib Callback)
  open_client w host port =
      opened_client w (connect lib Callback w.network host port (initial_client lib Callback))

  abbrev jar_missing : Str
  jar_missing =
      codes "Bridge JAR not found. Set ghidra.bridgeJar in Settings, or build with "
      ++ codes "'./build.sh bridge' and install."

  abbrev home_missing : Str
  home_missing = codes "Ghidra installation not found. Set ghidra.ghidraHome in Settings."

  abbrev pub or_else : Str → Str → Str
  or_else s d = if is_empty s then d else s

  -- The process is there: the client, or the process goes too.
  unfoldable pub attach : World → GhidraConnection → BridgeProcess → GhidraConnection × Outcome
  attach w c p = elim (open_client w (codes "127.0.0.1") p.port) [
    | throw what ↦ (record c { process = none; client = none }, failed what)
    | ok k ↦ (record c { process = some p; client = some k }, done)
  ]

  -- Behind `m_process->start`. An exception leaves the process where it is.
  unfoldable pub started :
      World → GhidraConnection → BridgeProcess → Outcome → GhidraConnection × Outcome
  started w c p (failed what) = (record c { process = none }, failed what)
  started w c p (thrown what) = (record c { process = some p }, thrown what)
  started w c p done = attach w c p

  unfoldable pub launch_bridge :
      Settings → World → Str → Str → GhidraConnection → GhidraConnection × Outcome
  launch_bridge st w jar home c =
      let (p, _, outcome) =
        start (w.launch (arguments st.java_exe jar home st.trust_all)) new_process in
      if is_empty jar
      then (c, failed jar_missing)
      else if is_empty home
      then (c, failed home_missing)
      else started w c p outcome

  unfoldable pub start_local_bridge :
      Settings → World → GhidraConnection → GhidraConnection × Outcome
  start_local_bridge st w c =
      if process_running w c.process && client_connected c.client
      then (c, done)
      else launch_bridge st w (or_else st.bridge_jar (auto_detect_bridge_jar w.plugin_file))
          (or_else st.ghidra_home (auto_detect_ghidra_home w.entries w.default_home w.plugin_file))
          (record c { client = none; process = none })

  abbrev unreachable : Str → ℤ → Str → Str
  unreachable host port what =
      codes "Cannot reach Ghidra bridge at "
      ++ (host
          ++ (codes ":"
              ++ (int_to_string port
                  ++ (codes " "
                      ++ ((226 ∷ 128 ∷ 148 ∷ [])
                          ++ (codes " is start-bridge.sh running on the server? ("
                              ++ (what ++ codes ")")))))))

  -- Remote mode.
  unfoldable pub connect_remote :
      Settings → World → Str → GhidraConnection → GhidraConnection × Outcome
  connect_remote st w host c = elim (open_client w host st.bridge_port) [
    | throw what ↦ (record c { client = none }, failed (unreachable host st.bridge_port what))
    | ok k ↦ (record c { client = some k }, done)
  ]

  unfoldable pub connect_bridge :
      Settings → World → Str → GhidraConnection → GhidraConnection × Outcome
  connect_bridge st w host c =
      if is_bridge_connected st w c
      then (c, done)
      else if st.bridge_mode == codes "local"
      then start_local_bridge st w c
      else connect_remote st w host c
