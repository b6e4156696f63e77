-- ===== src/Tests/Client.antt =====
-- The theorems on lines and on requests, at work.
use ghidra_svr_bridge.Prelude.{
  ℕ, ◌+◌, to_int, int_of_low, true, List, [], ◌∷◌, ◌++◌, Option, some, Str, codes, ◌≡◌, refl, arith,
  length, map, lookup, str_beq, ok, pos, nat_eq,
}
use ghidra_svr_bridge.Names.Text.{find_char}
use ghidra_svr_bridge.Client.Framing.{receive_chunks, messages, send_raw, send_loop}
use ghidra_svr_bridge.Client.Framing.Lines.{
  concat, lines_of, receive_chunks-lines_of, messages-receive_chunks,
}
use ghidra_svr_bridge.Client.Framing.Sending.{send_raw-whole, send_raw-Takes}
use ghidra_svr_bridge.Client.Requests.{BridgeClient, initial_client}
use ghidra_svr_bridge.Client.Requests.Conservation.{
  Op, registered, received, disconnected, run, responses, run-responses, disconnected-responses,
}
use ghidra_svr_bridge.Client.Sync.{line, closed, send_sync}
use ghidra_svr_bridge.Client.Sync.Answered.{answered, send_sync-answered}
use ghidra_svr_bridge.Tests.Wire.{small_json, Value, members, entry, end, number}

abbrev two_chunks : List Str
two_chunks = codes "{1" ∷ (codes "}" ++ b'\n' ∷ codes "{2}" ++ b'\n' ∷ []) ∷ []

receive_chunks-lines_of_example : receive_chunks [] two_chunks ≡ lines_of (concat two_chunks)
receive_chunks-lines_of_example = receive_chunks-lines_of two_chunks

messages-receive_chunks_example :
    messages (receive_chunks [] two_chunks).0 ≡ codes "{1}" ∷ codes "{2}" ∷ []
unfolding find_char
messages-receive_chunks_example =
    messages-receive_chunks (codes "{1}" ∷ codes "{2}" ∷ []) two_chunks
      ((refl, refl, refl), ((refl, refl, refl), tt)) refl

-- A socket that takes one byte at a time.
abbrev slow : Str → Option ℕ
slow p = some 1

send_raw-whole_example : (send_raw true slow (codes "{1}")).0 ≡ codes "{1}"
unfolding send_raw send_loop to_int int_of_low
send_raw-whole_example = send_raw-whole true slow (codes "{1}") (omega arith) refl

send_raw-Takes_example : send_raw true slow (codes "{1}") ≡ (codes "{1}", true)
send_raw-Takes_example = send_raw-Takes slow (codes "{1}") (λ c p. (0, refl))

abbrev three_steps : List (Op small_json ℕ)
three_steps = registered 5 ∷ received (codes "{\"id\":1}") ∷ registered 6 ∷ []

run-responses_example :
    responses small_json ℕ (run small_json ℕ three_steps (initial_client small_json ℕ)).1
      + length (run small_json ℕ three_steps (initial_client small_json ℕ)).0.pending
    ≡ 2
run-responses_example = run-responses small_json ℕ three_steps (omega arith)

disconnected-responses_example :
    (responses small_json ℕ
        (run small_json ℕ (three_steps ++ disconnected ∷ []) (initial_client small_json ℕ)).1
      ≡ 2)
    × ((run small_json ℕ (three_steps ++ disconnected ∷ []) (initial_client small_json ℕ)).0.pending
        ≡ [])
disconnected-responses_example = disconnected-responses small_json ℕ three_steps (omega arith)

-- The promise 5, and the only answer that arrives, before the client is disconnected.
abbrev one_answer : Value
one_answer = members (entry (codes "id") (number (pos 1)) end)

abbrev connected_client : BridgeClient small_json ℕ
connected_client = record (initial_client small_json ℕ) { connected = true; running = true }

send_sync-answered_example :
    (send_sync small_json ℕ slow one_answer 3000
      (map line [] ++ line (codes "{\"id\":1}") ∷ closed ∷ [])
      5
      connected_client).3
    ≡ ok one_answer
unfolding lookup send_raw send_loop to_int int_of_low answered str_beq
send_sync-answered_example =
    send_sync-answered small_json ℕ 5 slow one_answer 3000 [] (codes "{\"id\":1}") one_answer
      (closed ∷ []) connected_client (λ j e. cc) refl tt refl
