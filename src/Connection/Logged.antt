-- ===== src/Connection/Logged.antt =====
-- What `connectToServer` leaves behind, whatever it returns.
use ghidra_svr_bridge.Prelude.{
  Bool, true, false, ◌&&◌, Option, none, some, Str, codes, ℤ, ok, ◌≡◌, refl, ap, inl, inr,
  Bool-cases, Exc-cases, if◌then◌else◌, is_empty, not, arith, ◌==◌, str_eq,
}
use ghidra_svr_bridge.Wire.Library.{JsonLib}
use ghidra_svr_bridge.Process.Posix.{BridgeProcess, Outcome, done, failed, thrown}
use ghidra_svr_bridge.Connection.Repository.{Reply}
use ghidra_svr_bridge.Connection.Bridge.{
  Settings, World, GhidraConnection, client_connected, process_running, process_ended,
  is_bridge_connected, open_client, attach, started, launch_bridge, start_local_bridge,
  connect_remote, connect_bridge,
}
use ghidra_svr_bridge.Connection.Server.{connect_request, log_in, behind_bridge, connect_to_server}
use ghidra_svr_bridge.Connection.Session.{opened-IsLive}
use ghidra_svr_bridge.Connection.Outcome.{Settled, taken, refused, guarded-Settled}

module _ (lib : JsonLib) (Callback : Type 0) where
  abbrev Outside : Type 0
  Outside = World lib Callback

  abbrev Connection : Type 0
  Connection = GhidraConnection lib Callback

  -- The session at the server: its flag, and the credentials.
  pub record Login : Type 0 where
    pub is_open : Bool
    pub user : Str
    pub host : Str
    pub port : ℤ
    pub password : Str

  abbrev pub login : Connection → Login
  login c = record {
    is_open = c.server_connected;
    user = c.user;
    host = c.host;
    port = c.port;
    password = c.password;
  }

  -- The client has a socket where a step ends well, and no step changes the session.
  abbrev Reached : Connection → Connection × Outcome → Type 0
  Reached c (d, done) = (login d ≡ login c) × (client_connected lib Callback d.client ≡ true)
  Reached c (d, failed what) = (login d ≡ login c) × Unit {0}
  Reached c (d, thrown what) = (login d ≡ login c) × Unit {0}

  attach-Reached :
      (w : Outside) (c : Connection) (p : BridgeProcess) → Reached c (attach lib Callback w c p)
  unfolding attach
  attach-Reached w c p = elim (Exc-cases (open_client lib Callback w (codes "127.0.0.1") p.port)) [
    | inl (what, e) ↦ rw (e, attach) (refl, tt)
    | inr (k, e) ↦
        rw (e, attach) (refl, opened-IsLive lib Callback w (codes "127.0.0.1") p.port k e)
  ]

  started-Reached :
      (w : Outside) (c : Connection) (p : BridgeProcess) (o : Outcome)
      → Reached c (started lib Callback w c p o)
  unfolding started
  started-Reached w c p done = attach-Reached w c p
  started-Reached w c p (failed what) = (refl, tt)
  started-Reached w c p (thrown what) = (refl, tt)

  launch-Reached :
      (st : Settings) (w : Outside) (jar home : Str) (c : Connection)
      → Reached c (launch_bridge lib Callback st w jar home c)
  unfolding launch_bridge
  launch-Reached st w jar home c = elim (Bool-cases (is_empty jar)) [
    | inl a ↦ rw a (refl, tt)
    | inr a ↦ elim (Bool-cases (is_empty home)) [
      | inl b ↦ rw (a, b) (refl, tt)
      | inr b ↦ rw (a, b) (started-Reached w c _ _)
    ]
  ]

  and-right : (a b : Bool) → (a && b) ≡ true → b ≡ true
  and-right true b h = h
  and-right false b h = ground (arith, h)

  local-Reached :
      (st : Settings) (w : Outside) (c : Connection)
      → Reached c (start_local_bridge lib Callback st w c)
  unfolding start_local_bridge
  local-Reached st w c =
      elim (Bool-cases
        (process_running lib Callback w c.process && client_connected lib Callback c.client)) [
          | inl e ↦ rw e (
            refl,
            and-right (process_running lib Callback w c.process)
                (client_connected lib Callback c.client) e,
          )
          | inr e ↦ rw e (launch-Reached st w _ _ (record c { client = none; process = none }))
        ]

  remote-Reached :
      (st : Settings) (w : Outside) (host : Str) (c : Connection)
      → Reached c (connect_remote lib Callback st w host c)
  unfolding connect_remote
  remote-Reached st w host c = elim (Exc-cases (open_client lib Callback w host st.bridge_port)) [
    | inl (what, e) ↦ rw (e, connect_remote) (refl, tt)
    | inr (k, e) ↦
        rw (e, connect_remote) (refl, opened-IsLive lib Callback w host st.bridge_port k e)
  ]

  if-Reached :
      (b : Bool) (c : Connection) (x y : Connection × Outcome)
      → (b ≡ true → Reached c x)
      → Reached c y
      → Reached c (if b then x else y)
  if-Reached true c x y h k = h refl
  if-Reached false c x y h k = k

  alive-connected :
      (st : Settings) (w : Outside) (c : Connection)
      → is_bridge_connected lib Callback st w c ≡ true
      → client_connected lib Callback c.client ≡ true
  unfolding is_bridge_connected
  alive-connected st w c h =
      alive (client_connected lib Callback c.client)
        (st.bridge_mode == codes "local" && process_ended lib Callback w c.process) h
    where
      alive : (a b : Bool) → (if not a then false else if b then false else true) ≡ true → a ≡ true
      alive true b h = refl
      alive false b h = h

  bridge-Reached :
      (st : Settings) (w : Outside) (host : Str) (c : Connection)
      → Reached c (connect_bridge lib Callback st w host c)
  unfolding connect_bridge
  bridge-Reached st w host c =
      if-Reached (is_bridge_connected lib Callback st w c) c (c, done) _
        (λ e. (refl, alive-connected st w c e))
        (if-Reached (st.bridge_mode == codes "local") c _ _ (λ e. local-Reached st w c)
          (remote-Reached st w host c))

  module _ (w : Outside) (host : Str) (port : ℤ) (user password : Str) where
    abbrev pub given : Login
    given = record { is_open = true; user = user; host = host; port = port; password = password }

    -- A session is open with the credentials that were given, over a client with a socket, and the
    -- bridge's answer has its flag set; or there is an error's text, or an exception, and the
    -- session is as before.
    pub data Attempt (c d : Connection) (reply : Option (Reply Bool)) : Type 0 where
      opened :
          (resp : lib.Json)
          → w.send (connect_request lib Callback host port user password) 15000 ≡ ok resp
          → lib.value_bool resp (codes "ok") false ≡ ok true
          → reply ≡ some (true, none)
          → login d ≡ given
          → client_connected lib Callback d.client ≡ true
          → Attempt c d reply
      rejected :
          (what : Str) → reply ≡ some (false, some what) → login d ≡ login c → Attempt c d reply
      left : reply ≡ none → login d ≡ login c → Attempt c d reply

    noted :
        (c d : Connection) (b : Bool) (e : Option Str)
        → Settled lib false
            (λ resp. ok true)
            (w.send (connect_request lib Callback host port user password) 15000)
            (b, e)
        → login d ≡ login c
        → client_connected lib Callback d.client ≡ true
        → Attempt c
            (if b
              then record d {
                server_connected = true;
                user = user;
                host = host;
                port = port;
                password = password;
              }
              else d)
            (some (b, e))
    noted c d true e (taken resp a f r n) h k = opened resp a f (ap (λ o. some (true, o)) n) refl k
    noted c d true e (refused x what n) h k = absurd (ground (arith, x))
    noted c d false e (taken resp a f r n) h k = absurd (ground (arith, r))
    noted c d false e (refused x what n) h k = rejected what (ap (λ o. some (false, o)) n) h

    behind-Attempt :
        (c : Connection) (r : Connection × Outcome)
        → Reached c r
        → Attempt c
            (behind_bridge lib Callback w host port user password r).0
            (behind_bridge lib Callback w host port user password r).1
    unfolding behind_bridge log_in
    behind-Attempt c (d, done) h = noted c d _ _ (guarded-Settled lib false _ _ _) h.0 h.1
    behind-Attempt c (d, failed what) h = rejected what refl h.0
    behind-Attempt c (d, thrown what) h = left refl h.0

    -- Whatever the system and the bridge answer: where a connection to a server reports success, the
    -- bridge's answer had its flag set, the session has the credentials that were given, and the
    -- client has a socket; where it reports an error's text, or an exception leaves it, the session
    -- is as before.
    pub connect_to_server-Attempt :
        (st : Settings) (c : Connection)
        → Attempt c
            (connect_to_server lib Callback st w host port user password c).0
            (connect_to_server lib Callback st w host port user password c).1
    unfolding connect_to_server
    connect_to_server-Attempt st c = behind-Attempt c _ (
        if-Reached (is_bridge_connected lib Callback st w c) c (c, done) _
          (λ e. (refl, alive-connected st w c e)) (bridge-Reached st w host c))
