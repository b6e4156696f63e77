-- ===== src/Process/Descriptors.antt =====
-- The descriptors and the child of a bridge's process, POSIX: none is lost.
use ghidra_svr_bridge.Prelude.{
  ℕ, ◌+◌, List, [], ◌∷◌, ◌++◌, Option, none, some, ℤ, Exc, ok, throw, ◌≡◌, refl, arith, inl, inr,
  Option-cases, ◌==◌, nat_eq, if◌then◌else◌,
}
use ghidra_svr_bridge.Process.Output.{read_ready_line}
use ghidra_svr_bridge.Process.Posix.{
  BridgeProcess, new_process, SysCall, kill, wait_for, close, join_logger, Launch, Outcome, done,
  failed, thrown, stop_calls, stop, await_ready, fork_with, open_pipes, start,
}

-- How often a descriptor or a process is in a place.
abbrev pub one : ℕ → ℕ → ℕ
one n m = if n == m then 1 else 0

abbrev pub in_option : ℕ → Option ℕ → ℕ
in_option n none = 0
in_option n (some m) = one n m

abbrev pub in_pair : ℕ → Option (ℕ × ℕ) → ℕ
in_pair n none = 0
in_pair n (some (r, w)) = one n r + one n w

-- How often a descriptor is closed, is held, and is opened.
unfoldable pub closed : ℕ → List SysCall → ℕ
closed n [] = 0
closed n (close m ∷ calls) = one n m + closed n calls
closed n (_ ∷ calls) = closed n calls

unfoldable pub held : ℕ → BridgeProcess → ℕ
held n p = in_option n p.pipe_fd + in_option n p.stderr_fd

unfoldable pub opened : ℕ → Launch → ℕ
opened n os = elim os.stdout_pipe [
  | none ↦ 0
  | some out ↦ in_pair n (some out) + in_pair n os.stderr_pipe
]

pub closed-append : (n : ℕ) (a b : List SysCall) → closed n (a ++ b) ≡ closed n a + closed n b
unfolding closed
closed-append n [] b = omega arith
closed-append n (close m ∷ a) b = omega (arith, closed-append n a b)
closed-append n (kill m ∷ a) b = closed-append n a b
closed-append n (wait_for m ∷ a) b = closed-append n a b
closed-append n (join_logger ∷ a) b = closed-append n a b

stop-closed : (n : ℕ) (p : BridgeProcess) → closed n (stop_calls p) ≡ held n p
unfolding closed stop_calls held
stop-closed n p = ground arith

-- How often a child is waited for, is the process's, and is made.
unfoldable pub waited : ℕ → List SysCall → ℕ
waited n [] = 0
waited n (wait_for m ∷ calls) = one n m + waited n calls
waited n (_ ∷ calls) = waited n calls

unfoldable pub forked : ℕ → Launch → ℕ
forked n os = elim os.stdout_pipe [
  | none ↦ 0
  | some out ↦ elim os.stderr_pipe [ none ↦ 0 | some err ↦ in_option n os.forked ]
]

pub waited-append : (n : ℕ) (a b : List SysCall) → waited n (a ++ b) ≡ waited n a + waited n b
unfolding waited
waited-append n [] b = omega arith
waited-append n (wait_for m ∷ a) b = omega (arith, waited-append n a b)
waited-append n (kill m ∷ a) b = waited-append n a b
waited-append n (close m ∷ a) b = waited-append n a b
waited-append n (join_logger ∷ a) b = waited-append n a b

stop-waited : (n : ℕ) (p : BridgeProcess) → waited n (stop_calls p) ≡ in_option n p.pid
unfolding waited stop_calls
stop-waited n p = ground arith

-- What is left of a start that fails.
unfoldable pub IsClean : Outcome → BridgeProcess → Type 0
IsClean done p = Unit
IsClean (thrown what) p = Unit
IsClean (failed what) p = p ≡ new_process

-- The descriptors and the child behind the pipes and the fork.
abbrev Accounted : ℕ → ℕ → ℕ → BridgeProcess × List SysCall × Outcome → Type 0
Accounted n fds children r =
    (closed n r.1 + held n r.0 ≡ fds)
    × (waited n r.1 + in_option n r.0.pid ≡ children)
    × IsClean r.2 r.0

ready-Accounted :
    (n : ℕ) (p : BridgeProcess) (o : Option (Exc ℤ))
    → Accounted n (held n p) (in_option n p.pid) (await_ready p o)
unfolding await_ready stop held IsClean closed waited
ready-Accounted n p none = (omega (arith, stop-closed n p), omega (arith, stop-waited n p), refl)
ready-Accounted n p (some (throw what)) = (omega arith, omega arith, tt)
ready-Accounted n p (some (ok port)) = (omega arith, omega arith, tt)

fork-Accounted :
    (n : ℕ) (os : Launch) (out err : ℕ × ℕ)
    → Accounted n
        (in_pair n (some out) + in_pair n (some err))
        (in_option n os.forked)
        (fork_with os out err)
unfolding fork_with closed waited held IsClean
fork-Accounted n os (a, b) (c, d) = elim (Option-cases os.forked) [
  | inl e ↦ rw e (omega arith, omega arith, refl)
  | inr (child, e) ↦
      let p = record new_process { pid = some child; pipe_fd = some a; stderr_fd = some c } in
      let q = ready-Accounted n p (read_ready_line [] os.output) in
      rw e (omega (arith, q.0), omega (arith, q.1), q.2)
]

pipes-Accounted : (n : ℕ) (os : Launch) → Accounted n (opened n os) (forked n os) (open_pipes os)
unfolding open_pipes closed waited held opened forked IsClean fork_with
pipes-Accounted n os = elim (Option-cases os.stdout_pipe) [
  | inl e ↦ rw e (omega arith, omega arith, refl)
  | inr (out, e) ↦ elim (Option-cases os.stderr_pipe) [
    | inl f ↦ rw (e, f) (omega arith, omega arith, refl)
    | inr (err, f) ↦ rw (e, f) (fork-Accounted n os out err)
  ]
]

-- A start of the bridge's process, whatever the system answers, closes each descriptor as often as
-- it was held before or opened by the start, less what the process holds now; it waits for each
-- child as often as it was the process's or was forked, less the one that it has now; and where it
-- reports a failure the process is as a new one, so nothing is held.
pub start-Accounted :
    (n : ℕ) (os : Launch) (p : BridgeProcess)
    → (closed n (start os p).1 + held n (start os p).0 ≡ held n p + opened n os)
      × (waited n (start os p).1 + in_option n (start os p).0.pid ≡ in_option n p.pid + forked n os)
      × IsClean (start os p).2 (start os p).0
unfolding start stop
start-Accounted n os p =
    let q = pipes-Accounted n os in
    (
      omega (arith, q.0, stop-closed n p, closed-append n (stop_calls p) (open_pipes os).1),
      omega (arith, q.1, stop-waited n p, waited-append n (stop_calls p) (open_pipes os).1),
      q.2,
    )
