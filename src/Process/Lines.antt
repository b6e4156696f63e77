-- ===== src/Process/Lines.antt =====
-- What `readReadyLine` and the logger find: the lines of the process's output.
use ghidra_svr_bridge.Prelude.{
  ℕ, List, [], ◌∷◌, ◌++◌, Option, none, some, Str, ℤ, Exc, ◌≡◌, refl, sym, ap, ◌∙◌, ◌⊎◌, inl, inr,
  Bool-cases, Option-cases, ◌==◌, nat_eq, if◌then◌else◌, is_empty, fold, fold-append, append_assoc,
  append-nil,
}
use ghidra_svr_bridge.Client.Framing.{strip_cr, messages}
use ghidra_svr_bridge.Client.Framing.Lines.{longer, lines_of, concat}
use ghidra_svr_bridge.Process.Output.{port_of, read_ready_line, log_byte, log_chunk, log_chunks}

-- The port of the first line that is a handshake.
unfoldable pub first_port : List Str → Option (Exc ℤ)
first_port [] = none
first_port (line ∷ lines) = elim (port_of (strip_cr line)) [
  | some port ↦ some port
  | none ↦ first_port lines
]

-- The lines of a text with another in front of it that has no line feed.
abbrev behind : Str → List Str × Str → List Str × Str
behind line ([], rest) = ([], line ++ rest)
behind line (l ∷ ls, rest) = ((line ++ l) ∷ ls, rest)

behind-longer :
    (line : Str) (c : ℕ) (p : List Str × Str) → behind line (longer c p) ≡ behind (line ++ c ∷ []) p
behind-longer line c ([], rest) = ap (λ s. ([], s)) (sym (append_assoc line (c ∷ []) rest))
behind-longer line c (l ∷ ls, rest) =
    ap (λ (s : Str). (s ∷ ls, rest)) (sym (append_assoc line (c ∷ []) l))

behind-nil : (p : List Str × Str) → behind [] p ≡ p
behind-nil ([], rest) = refl
behind-nil (l ∷ ls, rest) = refl

first-behind :
    (line : Str) (o : Option (Exc ℤ)) (ls : List Str)
    → o ≡ first_port ls
    → elim (port_of (strip_cr line)) [ some port ↦ some port | none ↦ o ]
      ≡ first_port ((line ++ []) ∷ ls)
unfolding first_port
first-behind line o ls h =
    cases (Option-cases (port_of (strip_cr line)))
    ∙ ap (λ l. first_port (l ∷ ls)) (sym (append-nil line))
  where
    cases :
        ((port_of (strip_cr line) ≡ none) ⊎ ((a : Exc ℤ) × (port_of (strip_cr line) ≡ some a)))
        → elim (port_of (strip_cr line)) [ some port ↦ some port | none ↦ o ]
          ≡ first_port (line ∷ ls)
    cases (inl e) = rw (e, first_port) h
    cases (inr (a, e)) = rw (e, first_port) refl

ready-lines :
    (line output : Str) → read_ready_line line output ≡ first_port (behind line (lines_of output)).0
unfolding read_ready_line first_port lines_of
ready-lines line [] = refl
ready-lines line (c ∷ output) = elim (Bool-cases (c == b'\n')) [
  | inl e ↦
      rw (e, read_ready_line)
        (first-behind line (read_ready_line [] output) (lines_of output).0 (
          ready-lines [] output
          ∙ ap (λ (p : List Str × Str). first_port p.0) (behind-nil (lines_of output))))
  | inr e ↦
      rw (e, read_ready_line)
        (ready-lines (line ++ c ∷ []) output
          ∙ ap (λ (p : List Str × Str). first_port p.0)
              (sym (behind-longer line c (lines_of output))))
]

-- The port that the start waits for is that of the first handshake among the lines of the process's
-- output, and there is none if no line is; the text behind the last line feed does not count.
pub read_ready_line-lines :
    (output : Str) → read_ready_line [] output ≡ first_port (lines_of output).0
read_ready_line-lines output =
    ready-lines [] output
    ∙ ap (λ (p : List Str × Str). first_port p.0) (behind-nil (lines_of output))

abbrev logged_of : List Str → List Str × Str → Str × List Str
logged_of logged (ls, rest) = (rest, logged ++ messages ls)

-- The line that ends is logged behind the others.
line-logged :
    (line : Str) (logged ls : List Str)
    → (if is_empty (strip_cr line) then logged else logged ++ strip_cr line ∷ []) ++ messages ls
      ≡ logged ++ messages (line ∷ ls)
unfolding messages
line-logged line logged ls = elim (Bool-cases (is_empty (strip_cr line))) [
  | inl e ↦ rw e refl
  | inr e ↦ rw e (append_assoc logged (strip_cr line ∷ []) (messages ls))
]

bytes-logged :
    (line output : Str) (logged : List Str)
    → fold log_byte (line, logged) output ≡ logged_of logged (behind line (lines_of output))
unfolding log_byte lines_of messages
bytes-logged line [] logged = λ i. (sym (append-nil line) i, sym (append-nil logged) i)
bytes-logged line (c ∷ output) logged = elim (Bool-cases (c == b'\n')) [
  | inl e ↦ rw e (
      bytes-logged [] output
        (if is_empty (strip_cr line) then logged else logged ++ strip_cr line ∷ [])
      ∙ (ap (logged_of _) (behind-nil (lines_of output))
          ∙ (ap (λ l. ((lines_of output).1, l)) (line-logged line logged (lines_of output).0)
              ∙ ap (λ l. ((lines_of output).1, logged ++ messages (l ∷ (lines_of output).0)))
                  (sym (append-nil line)))))
  | inr e ↦ rw e (
      bytes-logged (line ++ c ∷ []) output logged
      ∙ ap (logged_of logged) (sym (behind-longer line c (lines_of output))))
]

chunks-bytes :
    (s : Str × List Str) (chunks : List Str)
    → fold log_chunk s chunks ≡ fold log_byte s (concat chunks)
unfolding log_chunk
chunks-bytes s [] = refl
chunks-bytes s (chunk ∷ chunks) =
    chunks-bytes (fold log_byte s chunk) chunks ∙ sym (fold-append log_byte s chunk (concat chunks))

abbrev pub flushed : List Str × Str → List Str
flushed (ls, rest) = if is_empty rest then messages ls else messages ls ++ rest ∷ []

-- However the reads cut the diagnostic output, the logger logs its lines, stripped of a carriage
-- return and the empty ones left out, and at the end the text behind the last line feed, if there is
-- one.
pub log_chunks-lines : (chunks : List Str) → log_chunks chunks ≡ flushed (lines_of (concat chunks))
unfolding log_chunks
log_chunks-lines chunks = ap flush_of (
    chunks-bytes ([], []) chunks
    ∙ (bytes-logged [] (concat chunks) []
        ∙ ap (logged_of []) (behind-nil (lines_of (concat chunks)))))
  where
    flush_of : Str × List Str → List Str
    flush_of (line, logged) = if is_empty line then logged else logged ++ line ∷ []
