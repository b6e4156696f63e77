-- ===== src/Connection/Lost.antt =====
-- A remote bridge that goes away.
use ghidra_svr_bridge.Prelude.{true, false, List, some, Str, codes, ◌≡◌, refl, ◌∙◌, ◌==◌, str_eq}
use ghidra_svr_bridge.Wire.Library.{JsonLib}
use ghidra_svr_bridge.Client.Requests.{BridgeClient}
use ghidra_svr_bridge.Client.Loop.{receive_loop, receive_loop-connected}
use ghidra_svr_bridge.Process.Posix.{done}
use ghidra_svr_bridge.Connection.Bridge.{
  Settings, World, GhidraConnection, is_bridge_connected, connect_bridge,
}

module _ (lib : JsonLib) (Callback : Type 0) (st : Settings) (w : World lib Callback) where
  socket-connected :
      (c : GhidraConnection lib Callback) (k : BridgeClient lib Callback)
      → (st.bridge_mode == codes "local") ≡ false
      → k.connected ≡ true
      → is_bridge_connected lib Callback st w (record c { client = some k }) ≡ true
  unfolding is_bridge_connected
  socket-connected c k m h = rw (m, h) refl

  -- In remote mode, when a connected client's receiving loop has ended because the bridge closed the
  -- connection, whatever it received before, connecting to the bridge reports success and changes
  -- nothing: the connection is not made again.
  pub lost-kept :
      (c : GhidraConnection lib Callback) (k : BridgeClient lib Callback) (chunks : List Str)
      (host : Str)
      → (st.bridge_mode == codes "local") ≡ false
      → k.connected ≡ true
      → connect_bridge lib Callback st w host
          (record c { client = some (receive_loop lib Callback chunks k).0 })
        ≡ (record c { client = some (receive_loop lib Callback chunks k).0 }, done)
  unfolding connect_bridge
  lost-kept c k chunks host m h =
      rw
        (socket-connected c (receive_loop lib Callback chunks k).0 m
          (receive_loop-connected lib Callback chunks k ∙ h))
        refl
