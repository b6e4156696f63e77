-- ===== src/Client/Requests.antt =====
-- The requests of `BridgeClient`: ids, callbacks that wait, and how each of them is called. A
-- callback is a token; what it does is not modelled.
pub mod Distinct
pub mod Conservation
use ghidra_svr_bridge.Prelude.{
  ℕ, zero, suc, ◌-◌, ◌^◌, Bool, true, false, not, List, [], ◌∷◌, ◌++◌, Option, none, some, Str,
  codes, ℤ, pos, negsuc, Exc, ok, throw, ◌>>=◌, ◌==◌, nat_eq, int_eq, if◌then◌else◌, Map, lookup,
  insert, erase, map, fold, is_empty, int_to_string,
}
use ghidra_svr_bridge.Wire.Library.{JsonLib}
use ghidra_svr_bridge.Client.Framing.{send_raw, messages, receive_chunk}

-- An `int` that is counted up wraps.
unfoldable pub next_int : ℤ → ℤ
next_int (pos n) = if n == 2 ^ 31 - 1 then negsuc (2 ^ 31 - 1) else pos (suc n)
next_int (negsuc zero) = pos 0
next_int (negsuc (suc n)) = negsuc n

-- What the system's calls answer when a connection is made.
pub record Network : Type 0 where
  pub opens : Bool
  pub is_address : Str → Bool
  pub accepts : Str → ℤ → Bool

module _ (lib : JsonLib) (Callback : Type 0) where
  pub record BridgeClient : Type 0 where
    pub connected : Bool
    pub running : Bool
    pub next_id : ℤ
    pub pending : Map ℤ Callback
    pub event_callback : Option Callback

  pub data Call : Type 0 where
    response : Callback → lib.Json → Call
    event : Callback → lib.Json → Call

  abbrev pub initial_client : BridgeClient
  initial_client = record {
    connected = false;
    running = false;
    next_id = pos 1;
    pending = [];
    event_callback = none;
  }

  -- The answer that the client makes up itself.
  unfoldable pub failure : ℤ → Str → lib.Json
  failure id what = lib.object (
      (codes "id", lib.of_int id)
      ∷ (codes "ok", lib.of_bool false)
      ∷ (codes "error", lib.of_text what)
      ∷ [])

  unfoldable pub disconnect : BridgeClient → BridgeClient × List Call
  disconnect s = (
    record s { connected = false; running = false; pending = [] },
    map (λ (p : ℤ × Callback). response p.1 (failure p.0 (codes "BridgeClient disconnected")))
        s.pending,
  )

  -- The connection behind the `disconnect`, or the text of an error.
  unfoldable pub open_socket : Network → Str → ℤ → Option Str
  open_socket net host port =
      let h = if is_empty host then codes "127.0.0.1" else host in
      if not net.opens
      then some (codes "socket() failed")
      else if not (net.is_address h)
      then some (codes "Invalid bridge host address: " ++ h)
      else if not (net.accepts h port)
      then some (codes "connect() to " ++ h ++ codes ":" ++ int_to_string port ++ codes " failed")
      else none

  unfoldable pub connect : Network → Str → ℤ → BridgeClient → BridgeClient × List Call × Option Str
  connect net host port s =
      let (closed, calls) = disconnect s in
      elim (open_socket net host port) [
        | some what ↦ (closed, calls, some what)
        | none ↦ (record closed { connected = true; running = true }, calls, none)
      ]

  -- The callback that is taken out of `m_pending`, and called with an answer.
  unfoldable pub answer : ℤ → lib.Json → BridgeClient → BridgeClient × List Call
  answer id msg s = elim (lookup id s.pending) [
    | none ↦ (s, [])
    | some cb ↦ (record s { pending = erase id s.pending }, response cb msg ∷ [])
  ]

  unfoldable pub register : Callback → BridgeClient → BridgeClient
  register cb s = record s { next_id = next_int s.next_id; pending = insert s.next_id cb s.pending }

  abbrev pub request_line : lib.Json → ℤ → Str
  request_line request id =
      lib.dump (lib.set_member request (codes "id") (lib.of_int id)) ++ b'\n' ∷ []

  -- The client behind the call, the bytes that were sent, and the calls that were made.
  unfoldable pub send_async :
      (Str → Option ℕ) → lib.Json → Callback → BridgeClient → BridgeClient × Str × List Call
  send_async os request cb s =
      let (sent, done) = send_raw s.connected os (request_line request s.next_id) in
      let (failed, calls) =
        answer s.next_id (failure s.next_id (codes "send failed")) (register cb s) in
      if done then (register cb s, sent, []) else (failed, sent, calls)

  unfoldable pub set_event_callback : Option Callback → BridgeClient → BridgeClient
  set_event_callback cb s = record s { event_callback = cb }

  abbrev pub event_calls : Option Callback → lib.Json → List Call
  event_calls none msg = []
  event_calls (some cb) msg = event cb msg ∷ []

  unfoldable pub dispatch : lib.Json → BridgeClient → Exc (BridgeClient × List Call)
  dispatch msg s =
      if lib.contains msg (codes "event")
      then ok (s, event_calls s.event_callback msg)
      else if not (lib.contains msg (codes "id"))
      then ok (s, [])
      else (do id ← lib.get_int (lib.at msg (codes "id")); ok (answer id msg s))

  -- A line that cannot be parsed or dispatched is passed over.
  abbrev pub or_unchanged : BridgeClient → Exc (BridgeClient × List Call) → BridgeClient × List Call
  or_unchanged s (throw what) = (s, [])
  or_unchanged s (ok r) = r

  unfoldable pub receive_line : BridgeClient → Str → BridgeClient × List Call
  receive_line s line = or_unchanged s (do msg ← lib.parse line; dispatch msg s)
