-- ===== src/Client/Framing.antt =====
-- `receiveLoop` and `sendRaw`: the bytes of a socket and the lines in them.
pub mod Lines
pub mod Sending
use ghidra_svr_bridge.Prelude.{
  ℕ, zero, suc, Bool, true, false, not, List, [], ◌∷◌, ◌++◌, Option, none, some, Str, ◌==◌, nat_eq,
  ◌-◌, ℤ, pos, negsuc, to_int, if◌then◌else◌, is_empty, length, take, drop, keep, map,
}
use ghidra_svr_bridge.Names.Text.{find_char, back, pop_back}

-- The loop over the line feeds of `partial`, on fuel: each round takes a byte at least. The lines,
-- and what is left of `partial`.
unfoldable pub drain : ℕ → Str → List Str × Str
drain zero partial = ([], partial)
drain (suc fuel) partial = elim (find_char b'\n' partial) [
  | none ↦ ([], partial)
  | some at ↦
      let (lines, rest) = drain fuel (drop (suc at) partial) in (take at partial ∷ lines, rest)
]

-- `partial.append(buf, n)` and the loop.
unfoldable pub receive_chunk : Str → Str → List Str × Str
receive_chunk partial chunk = drain (suc (length (partial ++ chunk))) (partial ++ chunk)

-- The answers of `recv` until the connection ends.
unfoldable pub receive_chunks : Str → List Str → List Str × Str
receive_chunks partial [] = ([], partial)
receive_chunks partial (chunk ∷ chunks) =
    let (lines, rest) = receive_chunk partial chunk in
    let (more, left) = receive_chunks rest chunks in (lines ++ more, left)

-- A carriage return at the end of a line goes.
unfoldable pub strip_cr : Str → Str
strip_cr line = if is_empty line then line else if back line == b'\r' then pop_back line else line

-- The texts that are parsed: the stripped lines that are not empty.
unfoldable pub messages : List Str → List Str
messages lines = keep (λ l. not (is_empty l)) (map strip_cr lines)

-- The loop of `sendRaw`, on the `int` `rem` and what is left behind `p`; `os` is `send` on the bytes
-- it is offered: none for an error, or how many are taken. On fuel: each round takes a byte at
-- least. `send` takes no more than it is offered; a rest below 0 would end the loop as 0 does. The
-- bytes that were sent, and the result.
unfoldable pub send_loop : (Str → Option ℕ) → ℕ → ℤ → Str → Str × Bool
send_loop os fuel (negsuc n) p = ([], true)
send_loop os fuel (pos zero) p = ([], true)
send_loop os zero (pos (suc r)) p = ([], false)
send_loop os (suc fuel) (pos (suc r)) p = elim (os (take (suc r) p)) [
  | none ↦ ([], false)
  | some zero ↦ ([], false)
  | some (suc n) ↦
      let (sent, result) = send_loop os fuel (pos (r - n)) (drop (suc n) p) in
      (take (suc n) (take (suc r) p) ++ sent, result)
]

-- `sendRaw`; without a socket nothing is sent. The length is cut to an `int`.
unfoldable pub send_raw : Bool → (Str → Option ℕ) → Str → Str × Bool
send_raw connected os line =
    if connected then send_loop os (length line) (to_int (pos (length line))) line else ([], false)
