-- ===== src/Client/Sync.antt =====
-- `sendSync`: a request whose caller waits for the answer, or for the end of its patience. The
-- promise is the token of the callback that fulfils it.
pub mod Answered
use ghidra_svr_bridge.Prelude.{
  ℕ, Bool, true, false, not, List, [], ◌∷◌, ◌++◌, Option, none, some, Str, codes, ℤ, Exc, ok, throw,
  ◌>>=◌, Eq, ◌==◌, if◌then◌else◌, nat_to_string,
}
use ghidra_svr_bridge.Wire.Library.{JsonLib}
use ghidra_svr_bridge.Client.Requests.{
  BridgeClient, Call, response, event, send_async, receive_line, disconnect,
}

module _ (lib : JsonLib) (Callback : Type 0) ⦃eq : Eq Callback⦄ where
  -- What the other threads do during the wait: a line arrives, or the client is disconnected.
  pub data Arrival : Type 0 where
    line : Str → Arrival
    closed : Arrival

  unfoldable pub arrive :
      Arrival → BridgeClient lib Callback → BridgeClient lib Callback × List (Call lib Callback)
  arrive (line l) s = receive_line lib Callback s l
  arrive closed s = disconnect lib Callback s

  unfoldable pub arrivals :
      List Arrival
      → BridgeClient lib Callback
      → BridgeClient lib Callback × List (Call lib Callback)
  arrivals [] s = (s, [])
  arrivals (a ∷ more) s =
      let (t, calls) = arrive a s in let (u, later) = arrivals more t in (u, calls ++ later)

  -- `prom->set_value`: the first answer that a promise's callback is called with.
  unfoldable pub fulfilled : Callback → List (Call lib Callback) → Option lib.Json
  fulfilled cb [] = none
  fulfilled cb (response c msg ∷ calls) =
      let later = fulfilled cb calls in if c == cb then some msg else later
  fulfilled cb (event c msg ∷ calls) = fulfilled cb calls

  abbrev pub timed_out : ℕ → Str
  timed_out timeout_ms =
      codes "Ghidra bridge request timed out after " ++ (nat_to_string timeout_ms ++ codes "ms")

  abbrev pub awaited : ℕ → Option lib.Json → Exc lib.Json
  awaited timeout_ms none = throw (timed_out timeout_ms)
  awaited timeout_ms (some msg) = ok msg

  -- `during` is what arrives before the time is up. The client behind the call, the bytes that were
  -- sent, the calls that were made, and what is returned or thrown.
  unfoldable pub send_sync :
      (Str → Option ℕ)
      → lib.Json
      → ℕ
      → List Arrival
      → Callback
      → BridgeClient lib Callback
      → BridgeClient lib Callback × Str × List (Call lib Callback) × Exc lib.Json
  send_sync os request timeout_ms during cb s =
      let (t, sent, calls) = send_async lib Callback os request cb s in
      let (u, later) = arrivals during t in
      (u, sent, calls ++ later, awaited timeout_ms (fulfilled cb (calls ++ later)))
