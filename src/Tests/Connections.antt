-- ===== src/Tests/Connections.antt =====
-- The theorems on the bridge's process and on the connection, at work.
use ghidra_svr_bridge.Prelude.{
  refl, str_beq, ℕ, ◌+◌, true, false, List, [], ◌∷◌, ◌++◌, none, some, Str, codes, pos, Map, Exc,
  ok, ◌≡◌, fold, All, arith,
}
use ghidra_svr_bridge.Wire.Decode.{parse_db_export_json}
use ghidra_svr_bridge.Client.Requests.{BridgeClient, Network, initial_client}
use ghidra_svr_bridge.Client.Loop.{receive_loop}
use ghidra_svr_bridge.Client.Framing.Lines.{lines_of, concat}
use ghidra_svr_bridge.Process.Posix.{new_process, Launch, done, start}
use ghidra_svr_bridge.Process.Output.{port_of, read_ready_line, log_chunks}
use ghidra_svr_bridge.Process.Descriptors.{
  closed, held, opened, waited, forked, in_option, IsClean, start-Accounted,
}
use ghidra_svr_bridge.Process.Handshake.{
  IsNoise, handshake_line, printed, read_ready_line-handshake,
}
use ghidra_svr_bridge.Client.Framing.{strip_cr}
use ghidra_svr_bridge.Process.Lines.{first_port, flushed, read_ready_line-lines, log_chunks-lines}
use ghidra_svr_bridge.Connection.Records.{item_from_json, checkout_from_json, version_from_json}
use ghidra_svr_bridge.Connection.Repository.{
  elements_of, empty_export, list_items, get_subfolders, get_versions, get_checkouts, open_database,
}
use ghidra_svr_bridge.Connection.Outcome.{
  Settled, at_folder_answer, at_item_answer, operations-Settled,
}
use ghidra_svr_bridge.Connection.Bridge.{Settings, World, initial_connection, connect_bridge}
use ghidra_svr_bridge.Connection.Server.{connect_to_server}
use ghidra_svr_bridge.Connection.Logged.{Attempt, connect_to_server-Attempt}
use ghidra_svr_bridge.Connection.Lost.{lost-kept}
use ghidra_svr_bridge.Connection.Session.{
  Op, server_connected, server_disconnected, step, IsSound, run-IsSound,
}
use ghidra_svr_bridge.Tests.Wire.{small_json, Value, members, entry, end, flag}

abbrev handshake : Str
handshake = codes "loading" ++ b'\n' ∷ codes "READY port=8080" ++ b'\n' ∷ []

abbrev small_launch : Launch
small_launch = record {
  stdout_pipe = some (3, 4);
  stderr_pipe = some (5, 6);
  forked = some 77;
  output = handshake;
  error_text = [];
}

start-Accounted_example :
    (closed 3 (start small_launch new_process).1 + held 3 (start small_launch new_process).0
      ≡ held 3 new_process + opened 3 small_launch)
    × (waited 3 (start small_launch new_process).1
          + in_option 3 (start small_launch new_process).0.pid
        ≡ in_option 3 new_process.pid + forked 3 small_launch)
    × IsClean (start small_launch new_process).2 (start small_launch new_process).0
start-Accounted_example = start-Accounted 3 small_launch new_process

read_ready_line-lines_example : read_ready_line [] handshake ≡ first_port (lines_of handshake).0
read_ready_line-lines_example = read_ready_line-lines handshake

abbrev noise : List Str
noise = codes "loading" ∷ codes "no READY port=1" ∷ []

noise-IsNoise : All IsNoise noise
unfolding port_of strip_cr
noise-IsNoise = ((ground arith, refl), ((ground arith, refl), tt))

read_ready_line-handshake_example :
    read_ready_line [] (printed noise (handshake_line 8080 ++ b'\n' ∷ codes "READY port=9"))
    ≡ some (ok (pos 8080))
read_ready_line-handshake_example =
    read_ready_line-handshake noise 8080 (codes "READY port=9") noise-IsNoise (ground arith)

log_chunks-lines_example :
    log_chunks (codes "warn" ∷ handshake ∷ codes "end" ∷ [])
    ≡ flushed (lines_of (concat (codes "warn" ∷ handshake ∷ codes "end" ∷ [])))
log_chunks-lines_example = log_chunks-lines (codes "warn" ∷ handshake ∷ codes "end" ∷ [])

abbrev open_network : Network
open_network = record { opens = true; is_address = λ h. true; accepts = λ h p. true }

-- A bridge that says yes to every request.
abbrev small_send : Map Str Value → ℕ → Exc Value
small_send request timeout = ok (members (entry (codes "ok") (flag true) end))

abbrev small_world : World small_json ℕ
small_world = record {
  alive = λ child. true;
  launch = λ command. small_launch;
  network = open_network;
  send = small_send;
  plugin_file = none;
  entries = λ dir. none;
  default_home = [];
  on_event = 1;
}

abbrev remote_settings : Settings
remote_settings = record {
  bridge_mode = codes "remote";
  bridge_port = pos 9999;
  java_exe = [];
  bridge_jar = [];
  ghidra_home = [];
  trust_all = false;
}

abbrev one_session : List (Op small_json ℕ)
one_session =
    server_connected remote_settings small_world (codes "10.0.0.1") (pos 13100) (codes "me")
      (codes "secret")
    ∷ server_disconnected
    ∷ []

run-IsSound_example :
    IsSound small_json ℕ (fold (step small_json ℕ) (initial_connection small_json ℕ) one_session)
run-IsSound_example = run-IsSound small_json ℕ one_session

connect_to_server-Attempt_example :
    Attempt small_json ℕ small_world
      (codes "10.0.0.1")
      (pos 13100)
      (codes "me")
      (codes "secret")
      (initial_connection small_json ℕ)
      (connect_to_server small_json ℕ remote_settings small_world
        (codes "10.0.0.1")
        (pos 13100)
        (codes "me")
        (codes "secret")
        (initial_connection small_json ℕ)).0
      (connect_to_server small_json ℕ remote_settings small_world
        (codes "10.0.0.1")
        (pos 13100)
        (codes "me")
        (codes "secret")
        (initial_connection small_json ℕ)).1
connect_to_server-Attempt_example =
    connect_to_server-Attempt small_json ℕ small_world (codes "10.0.0.1") (pos 13100) (codes "me")
      (codes "secret") remote_settings (initial_connection small_json ℕ)

operations-Settled_example :
    Settled small_json []
      (elements_of small_json (item_from_json small_json) (codes "items"))
      (at_folder_answer small_json small_send (codes "list_items") (codes "r") (codes "/"))
      (list_items small_json small_send (codes "r") (codes "/"))
    × Settled small_json []
        (elements_of small_json small_json.get_text (codes "subfolders"))
        (at_folder_answer small_json small_send (codes "get_subfolders") (codes "r") (codes "/"))
        (get_subfolders small_json small_send (codes "r") (codes "/"))
    × Settled small_json []
        (elements_of small_json (version_from_json small_json) (codes "versions"))
        (at_item_answer small_json small_send
          (codes "get_versions")
          (codes "r")
          (codes "/")
          (codes "a"))
        (get_versions small_json small_send (codes "r") (codes "/") (codes "a"))
    × Settled small_json []
        (elements_of small_json (checkout_from_json small_json) (codes "checkouts"))
        (at_item_answer small_json small_send
          (codes "get_checkouts")
          (codes "r")
          (codes "/")
          (codes "a"))
        (get_checkouts small_json small_send (codes "r") (codes "/") (codes "a"))
    × Settled small_json empty_export
        (parse_db_export_json small_json)
        (small_send [] 120000)
        (open_database small_json small_send (codes "r") (codes "/") (codes "a") (pos 1))
operations-Settled_example =
    operations-Settled small_json small_send (codes "r") (codes "/") (codes "a") (pos 1)

abbrev remote_client : BridgeClient small_json ℕ
remote_client = record (initial_client small_json ℕ) { connected = true; running = true }

lost-kept_example :
    connect_bridge small_json ℕ remote_settings small_world
      (codes "10.0.0.1")
      (record (initial_connection small_json ℕ) {
        client = some (receive_loop small_json ℕ (codes "{}" ∷ []) remote_client).0;
      })
    ≡ (
      record (initial_connection small_json ℕ) {
        client = some (receive_loop small_json ℕ (codes "{}" ∷ []) remote_client).0;
      },
      done,
    )
unfolding str_beq
lost-kept_example =
    lost-kept small_json ℕ remote_settings small_world (initial_connection small_json ℕ)
      remote_client (codes "{}" ∷ []) (codes "10.0.0.1") refl refl
