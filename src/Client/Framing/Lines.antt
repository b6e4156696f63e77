-- ===== src/Client/Framing/Lines.antt =====
-- However the network cuts the stream, the lines are those of the whole stream.
use ghidra_svr_bridge.Prelude.{
  ℕ, zero, suc, ◌-◌, ◌<◌, ◌≤◌, false, List, [], ◌∷◌, ◌++◌, append_assoc, append-nil, none, some,
  Str, ◌≡◌, refl, sym, ap, ◌∙◌, inl, inr, arith, ◌==◌, nat_eq, if◌then◌else◌, Bool-cases, is_empty,
  length, take, drop, keep, map, concat_map, All,
}
use ghidra_svr_bridge.Names.Text.{find_char, back}
use ghidra_svr_bridge.Client.Framing.{drain, receive_chunk, receive_chunks, strip_cr, messages}

-- The lines of a text and what stands behind the last line feed.
abbrev pub longer : ℕ → List Str × Str → List Str × Str
longer c ([], rest) = ([], c ∷ rest)
longer c (l ∷ ls, rest) = ((c ∷ l) ∷ ls, rest)

unfoldable pub lines_of : Str → List Str × Str
lines_of [] = ([], [])
lines_of (c ∷ s) =
    let (ls, rest) = lines_of s in if c == b'\n' then ([] ∷ ls, rest) else longer c (ls, rest)

abbrev push : Str → List Str × Str → List Str × Str
push l (ls, rest) = (l ∷ ls, rest)

-- With no line feed the text is a rest; else the first one ends a line.
data Cut (s : Str) : Type 0 where
  rest_only : find_char b'\n' s ≡ none → lines_of s ≡ ([], s) → Cut s
  first_line :
      (at : ℕ)
      → find_char b'\n' s ≡ some at
      → at < length s
      → lines_of s ≡ push (take at s) (lines_of (drop (suc at) s))
      → Cut s

longer-push : (c : ℕ) (l : Str) (p : List Str × Str) → longer c (push l p) ≡ push (c ∷ l) p
longer-push c l (ls, rest) = refl

cut : (s : Str) → Cut s
unfolding lines_of find_char
cut [] = rest_only refl refl
cut (c ∷ s) = elim (Bool-cases (c == b'\n')) [
  | inl e ↦ first_line 0 (rw e refl) (omega arith) (rw e refl)
  | inr e ↦ elim (cut s) [
    | rest_only f h ↦ rest_only (rw (e, f) refl) (rw e (ap (longer c) h))
    | first_line at f b h ↦
        first_line (suc at) (rw (e, f) refl) (omega (arith, b))
          (rw e (ap (longer c) h ∙ longer-push c (take at s) (lines_of (drop (suc at) s))))
  ]
]

length-drop : (n : ℕ) (s : Str) → length (drop n s) ≤ length s - n
length-drop zero s = omega arith
length-drop (suc n) [] = omega arith
length-drop (suc n) (c ∷ s) = omega (arith, length-drop n s)

-- The fuel is enough.
drain-lines_of : (fuel : ℕ) (s : Str) → length s < fuel → drain fuel s ≡ lines_of s
unfolding drain
drain-lines_of zero s h = absurd (omega (arith, h))
drain-lines_of (suc fuel) s h = elim (cut s) [
  | rest_only f e ↦ rw (f, drain) (sym e)
  | first_line at f b e ↦
      rw (f, drain)
        (ap (push (take at s))
            (drain-lines_of fuel (drop (suc at) s) (omega (arith, h, b, length-drop (suc at) s)))
          ∙ sym e)
]

-- A stream that is cut in two.
abbrev join : List Str → List Str × Str → List Str × Str
join ls (more, rest) = (ls ++ more, rest)

longer-join :
    (c : ℕ) (p : List Str × Str) (t : Str)
    → (c == b'\n') ≡ false
    → longer c (join p.0 (lines_of (p.1 ++ t)))
      ≡ join (longer c p).0 (lines_of ((longer c p).1 ++ t))
unfolding lines_of
longer-join c ([], rest) t e = rw e refl
longer-join c (l ∷ ls, rest) t e = refl

lines_of-append :
    (s t : Str) → lines_of (s ++ t) ≡ join (lines_of s).0 (lines_of ((lines_of s).1 ++ t))
unfolding lines_of
lines_of-append [] t = refl
lines_of-append (c ∷ s) t = elim (Bool-cases (c == b'\n')) [
  | inl e ↦ rw e (ap (push []) (lines_of-append s t))
  | inr e ↦ rw e (ap (longer c) (lines_of-append s t) ∙ longer-join c (lines_of s) t e)
]

-- A rest that holds no line.
abbrev Bare : Str → Type 0
Bare s = lines_of s ≡ ([], s)

longer-Bare : (c : ℕ) (p : List Str × Str) → (c == b'\n') ≡ false → Bare p.1 → Bare (longer c p).1
unfolding lines_of
longer-Bare c ([], rest) e h = rw e (ap (longer c) h)
longer-Bare c (l ∷ ls, rest) e h = h

lines_of-Bare : (s : Str) → Bare (lines_of s).1
unfolding lines_of
lines_of-Bare [] = refl
lines_of-Bare (c ∷ s) = elim (Bool-cases (c == b'\n')) [
  | inl e ↦ rw e (lines_of-Bare s)
  | inr e ↦ rw e (longer-Bare c (lines_of s) e (lines_of-Bare s))
]

receive_chunk-lines_of :
    (partial chunk : Str) → receive_chunk partial chunk ≡ lines_of (partial ++ chunk)
unfolding receive_chunk
receive_chunk-lines_of partial chunk =
    drain-lines_of (suc (length (partial ++ chunk))) (partial ++ chunk) (omega arith)

abbrev pub concat : List Str → Str
concat = concat_map (λ s. s)

receive-Bare :
    (partial : Str) (chunks : List Str)
    → Bare partial
    → receive_chunks partial chunks ≡ lines_of (partial ++ concat chunks)
unfolding receive_chunks
receive-Bare partial [] h = sym h ∙ ap lines_of (sym (append-nil partial))
receive-Bare partial (chunk ∷ chunks) h =
    ap (λ (p : List Str × Str). join p.0 (receive_chunks p.1 chunks))
      (receive_chunk-lines_of partial chunk)
    ∙ ap (join (lines_of (partial ++ chunk)).0)
        (receive-Bare (lines_of (partial ++ chunk)).1 chunks (lines_of-Bare (partial ++ chunk)))
    ∙ sym (lines_of-append (partial ++ chunk) (concat chunks))
    ∙ ap lines_of (append_assoc partial chunk (concat chunks))

-- However the network cuts a stream into chunks, the loop finds the lines of the whole stream, and
-- keeps what stands behind the last line feed.
pub receive_chunks-lines_of :
    (chunks : List Str) → receive_chunks [] chunks ≡ lines_of (concat chunks)
unfolding lines_of
receive_chunks-lines_of chunks = receive-Bare [] chunks refl

-- A message that is sent as a line: not empty, with no line feed, and no carriage return at its end.
abbrev pub IsMessage : Str → Type 0
IsMessage m = (find_char b'\n' m ≡ none) × (is_empty m ≡ false) × ((back m == b'\r') ≡ false)

abbrev pub frame : Str → Str
frame m = m ++ b'\n' ∷ []

lines_of-frame :
    (m t : Str) → find_char b'\n' m ≡ none → lines_of (m ++ b'\n' ∷ t) ≡ push m (lines_of t)
unfolding lines_of find_char
lines_of-frame [] t h = refl
lines_of-frame (c ∷ m) t h = elim (Bool-cases (c == b'\n')) [
  | inl e ↦ absurd (ground (arith, h, e))
  | inr e ↦
      rw e
        (ap (longer c) (lines_of-frame m t (ground (arith, h, e))) ∙ longer-push c m (lines_of t))
]

lines_of-frames : (ms : List Str) → All IsMessage ms → lines_of (concat_map frame ms) ≡ (ms, [])
unfolding lines_of
lines_of-frames [] h = refl
lines_of-frames (m ∷ ms) h =
    ap lines_of (append_assoc m (b'\n' ∷ []) (concat_map frame ms))
    ∙ lines_of-frame m (concat_map frame ms) h.0.0
    ∙ ap (push m) (lines_of-frames ms h.1)

strip_cr-IsMessage : (m : Str) → IsMessage m → strip_cr m ≡ m
unfolding strip_cr
strip_cr-IsMessage m h = rw (h.1, h.2) refl

messages-All : (ms : List Str) → All IsMessage ms → messages ms ≡ ms
unfolding messages
messages-All [] h = refl
messages-All (m ∷ ms) h =
    rw (strip_cr-IsMessage m h.0, keep, map, h.0.1) (ap (◌∷◌ m) (messages-All ms h.1))

-- The messages that are sent as lines are the texts that the other side parses, in order, however
-- the network cuts the stream.
pub messages-receive_chunks :
    (ms chunks : List Str)
    → All IsMessage ms
    → concat chunks ≡ concat_map frame ms
    → messages (receive_chunks [] chunks).0 ≡ ms
messages-receive_chunks ms chunks h e =
    ap (λ (p : List Str × Str). messages p.0)
      (receive_chunks-lines_of chunks ∙ ap lines_of e ∙ lines_of-frames ms h)
    ∙ messages-All ms h
