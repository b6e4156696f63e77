-- ===== src/Connection/Session.antt =====
-- What holds of a connection over any sequence of its operations.
use ghidra_svr_bridge.Prelude.{
  Bool, true, false, ◌&&◌, List, [], ◌∷◌, Option, none, some, Str, codes, ℤ, pos, Exc, ok, throw,
  ◌≡◌, refl, subst, ◌⊎◌, inl, inr, Bool-cases, Option-cases, Exc-cases, if◌then◌else◌, is_empty,
  ◌==◌, str_eq, fold, fold-inv, All,
}
use ghidra_svr_bridge.Wire.Library.{JsonLib}
use ghidra_svr_bridge.Client.Requests.{
  BridgeClient, initial_client, connect, open_socket, set_event_callback,
}
use ghidra_svr_bridge.Process.Posix.{BridgeProcess, Outcome, done, failed, thrown}
use ghidra_svr_bridge.Connection.Repository.{guarded}
use ghidra_svr_bridge.Connection.Bridge.{
  Settings, World, GhidraConnection, initial_connection, client_connected, process_running,
  is_bridge_connected, opened_client, open_client, attach, started, launch_bridge,
  start_local_bridge, connect_remote, connect_bridge,
}
use ghidra_svr_bridge.Connection.Server.{
  connect_request, log_in, behind_bridge, connect_to_server, disconnect_from_server,
  disconnect_bridge,
}

module _ (lib : JsonLib) (Callback : Type 0) where
  abbrev Outside : Type 0
  Outside = World lib Callback

  abbrev Connection : Type 0
  Connection = GhidraConnection lib Callback

  -- A client that is there has a socket.
  abbrev IsLive : Option (BridgeClient lib Callback) → Type 0
  IsLive none = Unit
  IsLive (some k) = k.connected ≡ true

  -- No credentials are kept without a session at the server.
  abbrev IsCleared : Connection → Type 0
  IsCleared c =
      (c.server_connected ≡ true)
      ⊎ ((c.user ≡ []) × (c.host ≡ []) × (c.port ≡ pos 0) × (c.password ≡ []))

  unfoldable pub IsSound : Connection → Type 0
  IsSound c = IsLive c.client × IsCleared c

  abbrev IsOpen : Exc (BridgeClient lib Callback) → Type 0
  IsOpen (throw what) = Unit
  IsOpen (ok k) = k.connected ≡ true

  connect-IsOpen :
      (w : Outside) (host : Str) (port : ℤ) (k : BridgeClient lib Callback)
      → IsOpen (opened_client lib Callback w (connect lib Callback w.network host port k))
  unfolding connect opened_client set_event_callback
  connect-IsOpen w host port k =
      elim (Option-cases (open_socket lib Callback w.network host port)) [
        | inl h ↦ rw (h, connect) refl
        | inr (what, h) ↦ rw (h, connect) tt
      ]

  open_client-IsOpen :
      (w : Outside) (host : Str) (port : ℤ) → IsOpen (open_client lib Callback w host port)
  unfolding open_client
  open_client-IsOpen w host port = connect-IsOpen w host port (initial_client lib Callback)

  pub opened-IsLive :
      (w : Outside) (host : Str) (port : ℤ) (k : BridgeClient lib Callback)
      → open_client lib Callback w host port ≡ ok k
      → k.connected ≡ true
  opened-IsLive w host port k e = subst IsOpen e (open_client-IsOpen w host port)

  -- No client, and the rest as before.
  abbrev Keeps : Connection → Connection → Type 0
  Keeps c d = IsLive d.client × (IsCleared c → IsCleared d)

  attach-Keeps :
      (w : Outside) (c : Connection) (p : BridgeProcess) → Keeps c (attach lib Callback w c p).0
  unfolding attach
  attach-Keeps w c p = elim (Exc-cases (open_client lib Callback w (codes "127.0.0.1") p.port)) [
    | inl (what, e) ↦ rw (e, attach) (tt, λ h. h)
    | inr (k, e) ↦ rw (e, attach) (opened-IsLive w (codes "127.0.0.1") p.port k e, λ h. h)
  ]

  started-Keeps :
      (w : Outside) (c : Connection) (p : BridgeProcess) (o : Outcome)
      → IsLive c.client
      → Keeps c (started lib Callback w c p o).0
  unfolding started
  started-Keeps w c p done h = attach-Keeps w c p
  started-Keeps w c p (failed what) h = (h, λ k. k)
  started-Keeps w c p (thrown what) h = (h, λ k. k)

  launch-Keeps :
      (st : Settings) (w : Outside) (jar home : Str) (c : Connection)
      → IsLive c.client
      → Keeps c (launch_bridge lib Callback st w jar home c).0
  unfolding launch_bridge
  launch-Keeps st w jar home c h = elim (Bool-cases (is_empty jar)) [
    | inl a ↦ rw a (h, λ k. k)
    | inr a ↦ elim (Bool-cases (is_empty home)) [
      | inl b ↦ rw (a, b) (h, λ k. k)
      | inr b ↦ rw (a, b) (started-Keeps w c _ _ h)
    ]
  ]

  if-Keeps :
      (b : Bool) (c : Connection) (x y : Connection × Outcome)
      → Keeps c x.0
      → Keeps c y.0
      → Keeps c (if b then x else y).0
  if-Keeps true c x y h k = h
  if-Keeps false c x y h k = k

  local-Keeps :
      (st : Settings) (w : Outside) (c : Connection)
      → IsLive c.client
      → Keeps c (start_local_bridge lib Callback st w c).0
  unfolding start_local_bridge
  local-Keeps st w c h =
      elim (Bool-cases
        (process_running lib Callback w c.process && client_connected lib Callback c.client)) [
          | inl e ↦ rw e (h, λ k. k)
          | inr e ↦ rw e (launch-Keeps st w _ _ (record c { client = none; process = none }) tt)
        ]

  remote-Keeps :
      (st : Settings) (w : Outside) (host : Str) (c : Connection)
      → Keeps c (connect_remote lib Callback st w host c).0
  unfolding connect_remote
  remote-Keeps st w host c = elim (Exc-cases (open_client lib Callback w host st.bridge_port)) [
    | inl (what, e) ↦ rw (e, connect_remote) (tt, λ h. h)
    | inr (k, e) ↦ rw (e, connect_remote) (opened-IsLive w host st.bridge_port k e, λ h. h)
  ]

  bridge-Keeps :
      (st : Settings) (w : Outside) (host : Str) (c : Connection)
      → IsLive c.client
      → Keeps c (connect_bridge lib Callback st w host c).0
  unfolding connect_bridge
  bridge-Keeps st w host c h =
      let near = start_local_bridge lib Callback st w c in
      let far = connect_remote lib Callback st w host c in
      let is_near = st.bridge_mode == codes "local" in
      if-Keeps (is_bridge_connected lib Callback st w c) c (c, done) (if is_near then near else far)
        (h, λ k. k) (if-Keeps is_near c near far (local-Keeps st w c h) (remote-Keeps st w host c))

  log_in-IsSound :
      (w : Outside) (host : Str) (port : ℤ) (user password : Str) (c : Connection)
      → IsSound c
      → IsSound (log_in lib Callback w host port user password c).0
  unfolding log_in IsSound
  log_in-IsSound w host port user password c h =
      noted
        (guarded lib false (codes "unknown error") (λ resp. ok true)
          (w.send (connect_request lib Callback host port user password) 15000)).0
    where
      noted :
          (b : Bool)
          → IsSound (
              if b
              then record c {
                server_connected = true;
                user = user;
                host = host;
                port = port;
                password = password;
              }
              else c)
      noted true = (h.0, inl refl)
      noted false = h

  behind-IsSound :
      (w : Outside) (host : Str) (port : ℤ) (user password : Str) (r : Connection × Outcome)
      → IsSound r.0
      → IsSound (behind_bridge lib Callback w host port user password r).0
  unfolding behind_bridge
  behind-IsSound w host port user password (c, done) h =
      log_in-IsSound w host port user password c h
  behind-IsSound w host port user password (c, failed what) h = h
  behind-IsSound w host port user password (c, thrown what) h = h

  -- The operations, with what the outside answers to each.
  pub data Op : Type 0 where
    bridge_connected : Settings → Outside → Str → Op
    server_connected : Settings → Outside → Str → ℤ → Str → Str → Op
    server_disconnected : Op
    bridge_disconnected : Op

  abbrev pub step : Connection → Op → Connection
  step c (bridge_connected st w host) = (connect_bridge lib Callback st w host c).0
  step c (server_connected st w host port user password) =
      (connect_to_server lib Callback st w host port user password c).0
  step c server_disconnected = (disconnect_from_server lib Callback c).0
  step c bridge_disconnected = disconnect_bridge lib Callback c

  bridge-IsSound :
      (st : Settings) (w : Outside) (host : Str) (c : Connection)
      → IsSound c
      → IsSound (connect_bridge lib Callback st w host c).0
  unfolding IsSound
  bridge-IsSound st w host c h = let k = bridge-Keeps st w host c h.0 in (k.0, k.1 h.1)

  ready-IsSound :
      (b : Bool) (st : Settings) (w : Outside) (host : Str) (c : Connection)
      → IsSound c
      → IsSound (if b then (c, done) else connect_bridge lib Callback st w host c).0
  ready-IsSound true st w host c h = h
  ready-IsSound false st w host c h = bridge-IsSound st w host c h

  step-IsSound : (c : Connection) (op : Op) → IsSound c → IsSound (step c op)
  unfolding connect_to_server disconnect_from_server disconnect_bridge IsSound
  step-IsSound c (bridge_connected st w host) h = bridge-IsSound st w host c h
  step-IsSound c (server_connected st w host port user password) h =
      behind-IsSound w host port user password _
        (ready-IsSound (is_bridge_connected lib Callback st w c) st w host c h)
  step-IsSound c server_disconnected h = (h.0, inr (refl, refl, refl, refl))
  step-IsSound c bridge_disconnected h = (tt, inr (refl, refl, refl, refl))

  -- Whatever operations a new connection goes through, and whatever the system and the bridge answer,
  -- its client, if there is one, has a socket, and no user, host, port or password is kept while it
  -- is not connected to a server.
  pub run-IsSound : (ops : List Op) → IsSound (fold step (initial_connection lib Callback) ops)
  unfolding IsSound
  run-IsSound ops =
      fold-inv IsSound (λ op. Unit) step (λ c op u h. step-IsSound c op h) _ ops (units ops)
        (tt, inr (refl, refl, refl, refl))
    where
      units : (os : List Op) → All (λ o. Unit {0}) os
      units [] = tt
      units (o ∷ os) = (tt, units os)
