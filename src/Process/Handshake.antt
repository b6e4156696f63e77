-- ===== src/Process/Handshake.antt =====
-- The handshake that the bridge prints, and the port that the start reads off it.
use ghidra_svr_bridge.Prelude.{
  ℕ, ◌^◌, ◌<◌, ◌≤◌, [], ◌∷◌, ◌++◌, Str, pos, ok, ◌≡◌, ap, ◌∙◌, arith, nat_eq, decimal_digits,
  decimal_prefix, All, All-append, List, none, append-nil, append_assoc, refl, is_empty, false,
  some, ◌==◌, nat_to_string,
}
use ghidra_svr_bridge.Client.Framing.{strip_cr}
use ghidra_svr_bridge.Names.Text.{back}
use ghidra_svr_bridge.Names.Digits.{
  IsNumeral, decimal_digits-IsNumeral, decimal_digits-value, some_digits,
}
use ghidra_svr_bridge.Hex.{skip_space, is_space}
use ghidra_svr_bridge.Process.Output.{
  int_digits, int_signed, stoi, ready_prefix, port_of, read_ready_line,
}

-- A text of digits that is not empty is read as the number that it spells.
stoi-decimal_digits :
    (n : ℕ) (s : Str)
    → IsNumeral s
    → is_empty s ≡ false
    → decimal_prefix 0 s ≡ n
    → n < 2 ^ 31
    → stoi s ≡ ok (pos n)
unfolding stoi int_signed int_digits skip_space is_space
stoi-decimal_digits n [] d e v h = ground (arith, e)
stoi-decimal_digits n (c ∷ s) d e v h = ground (arith, d.0, v, h)

-- No line feed, and no carriage return.
abbrev Printed : Str → Type 0
Printed s = All (λ c. 14 ≤ c) s

IsNumeral-Printed : (s : Str) → IsNumeral s → Printed s
IsNumeral-Printed [] d = tt
IsNumeral-Printed (c ∷ s) d = (omega (arith, d.0), IsNumeral-Printed s d.1)

back-Printed : (c : ℕ) (s : Str) → Printed (c ∷ s) → (back (c ∷ s) == b'\r') ≡ false
back-Printed c [] a = ground (arith, a.0)
back-Printed c (d ∷ s) a = back-Printed d s a.1

strip_cr-Printed : (s : Str) → Printed s → strip_cr s ≡ s
unfolding strip_cr
strip_cr-Printed [] a = refl
strip_cr-Printed (c ∷ s) a = rw (back-Printed c s a) refl

-- What the bridge prints once it listens on a port.
unfoldable pub handshake_line : ℕ → Str
handshake_line port = ready_prefix ++ nat_to_string port

handshake-port : (n : ℕ) → n < 2 ^ 31 → port_of (handshake_line n) ≡ some (ok (pos n))
unfolding port_of handshake_line nat_to_string
handshake-port n h = ap some (
    stoi-decimal_digits n (decimal_digits 20 n) (decimal_digits-IsNumeral 20 n) (some_digits 19 n)
      (decimal_digits-value n (omega (arith, h))) h)

Printed-handshake : (n : ℕ) → Printed (handshake_line n)
unfolding handshake_line nat_to_string
Printed-handshake n =
    All-append (λ c. 14 ≤ c) ready_prefix (nat_to_string n) (ground arith)
      (IsNumeral-Printed (nat_to_string n) (decimal_digits-IsNumeral 20 n))

abbrev OneLine : Str → Type 0
OneLine s = All (λ c. (c == b'\n') ≡ false) s

OneLine-Printed : (s : Str) → Printed s → OneLine s
OneLine-Printed [] a = tt
OneLine-Printed (c ∷ s) a = (ground (arith, a.0), OneLine-Printed s a.1)

-- A line that is read: it is the handshake, or it is passed over.
read-line :
    (line s t : Str)
    → OneLine s
    → read_ready_line line (s ++ b'\n' ∷ t) ≡ elim (port_of (strip_cr (line ++ s))) [
      | some port ↦ some port
      | none ↦ read_ready_line [] t
    ]
unfolding read_ready_line
read-line line [] t a = rw (append-nil line) refl
read-line line (c ∷ s) t a =
    rw (a.0, read_ready_line)
      (read-line (line ++ c ∷ []) s t a.1 ∙ rw (append_assoc line (c ∷ []) s) refl)

-- The lines of a text, each with its line feed, in front of it.
unfoldable pub printed : List Str → Str → Str
printed [] t = t
printed (l ∷ ls) t = l ++ b'\n' ∷ printed ls t

-- A line that is no handshake.
abbrev pub IsNoise : Str → Type 0
IsNoise l = OneLine l × (port_of (strip_cr l) ≡ none)

-- Whatever lines the bridge prints first, none of them a handshake, and whatever it prints behind,
-- the port of its handshake is the one that the start reads, for every port below 2 ^ 31.
pub read_ready_line-handshake :
    (noise : List Str) (port : ℕ) (behind : Str)
    → All IsNoise noise
    → port < 2 ^ 31
    → read_ready_line [] (printed noise (handshake_line port ++ b'\n' ∷ behind))
      ≡ some (ok (pos port))
unfolding printed
read_ready_line-handshake [] port behind a h =
    read-line [] (handshake_line port) behind
      (OneLine-Printed (handshake_line port) (Printed-handshake port))
    ∙ rw (strip_cr-Printed (handshake_line port) (Printed-handshake port), handshake-port port h)
        refl
read_ready_line-handshake (l ∷ noise) port behind a h =
    read-line [] l _ a.0.0 ∙ rw a.0.1 (read_ready_line-handshake noise port behind a.1 h)
