-- ===== src/Process/Posix.antt =====
-- `BridgeProcess` on POSIX: `start`, `stop`, `isRunning`. The system's calls are a record of their
-- answers, and what the code does to descriptors and processes is a list of calls.
use ghidra_svr_bridge.Prelude.{
  ℕ, Bool, true, false, List, [], ◌∷◌, ◌++◌, Option, none, some, Str, codes, ℤ, negsuc, Exc, ok,
  throw, if◌then◌else◌,
}
use ghidra_svr_bridge.Process.Output.{read_ready_line}

-- `none` stands for -1; `logger` says whether the logger's thread can be joined.
pub record BridgeProcess : Type 0 where
  pub port : ℤ
  pub pid : Option ℕ
  pub pipe_fd : Option ℕ
  pub stderr_fd : Option ℕ
  pub logger : Bool

abbrev pub new_process : BridgeProcess
new_process = record {
  port = negsuc 0;
  pid = none;
  pipe_fd = none;
  stderr_fd = none;
  logger = false;
}

pub data SysCall : Type 0 where
  kill : ℕ → SysCall
  wait_for : ℕ → SysCall
  close : ℕ → SysCall
  join_logger : SysCall

-- What `pipe`, `fork` and the child's output answer, and `strerror` where they fail. The read end
-- of a pipe comes first.
pub record Launch : Type 0 where
  pub stdout_pipe : Option (ℕ × ℕ)
  pub stderr_pipe : Option (ℕ × ℕ)
  pub forked : Option ℕ
  pub output : Str
  pub error_text : Str

-- `true`, `false` with a text in `errorOut`, or an exception that leaves the call.
pub data Outcome : Type 0 where
  done : Outcome
  failed : Str → Outcome
  thrown : Str → Outcome

abbrev with_some : (ℕ → SysCall) → Option ℕ → List SysCall
with_some f none = []
with_some f (some n) = f n ∷ []

unfoldable pub stop_calls : BridgeProcess → List SysCall
stop_calls p =
    with_some kill p.pid
    ++ (with_some close p.stderr_fd
        ++ ((if p.logger then join_logger ∷ [] else [])
            ++ (with_some close p.pipe_fd ++ with_some wait_for p.pid)))

unfoldable pub stop : BridgeProcess → BridgeProcess × List SysCall
stop p = (new_process, stop_calls p)

abbrev pub exited_early : Str
exited_early = codes "Bridge process exited before sending READY"

-- Behind the fork, in the parent: the handshake, and the logger.
unfoldable pub await_ready : BridgeProcess → Option (Exc ℤ) → BridgeProcess × List SysCall × Outcome
await_ready p none = let (q, calls) = stop p in (q, calls, failed exited_early)
await_ready p (some (throw what)) = (p, [], thrown what)
await_ready p (some (ok port)) = (record p { port = port; logger = true }, [], done)

abbrev after :
    List SysCall → BridgeProcess × List SysCall × Outcome → BridgeProcess × List SysCall × Outcome
after calls (p, more, o) = (p, calls ++ more, o)

-- The two pipes are there.
unfoldable pub fork_with : Launch → ℕ × ℕ → ℕ × ℕ → BridgeProcess × List SysCall × Outcome
fork_with os (out_read, out_write) (err_read, err_write) = elim os.forked [
  | none ↦ (
    new_process,
    close out_read ∷ close out_write ∷ close err_read ∷ close err_write ∷ [],
    failed (codes "fork() failed: " ++ os.error_text),
  )
  | some child ↦ after (close out_write ∷ close err_write ∷ []) (
      await_ready
        (record new_process {
          pid = some child;
          pipe_fd = some out_read;
          stderr_fd = some err_read;
        })
        (read_ready_line [] os.output))
]

unfoldable pub open_pipes : Launch → BridgeProcess × List SysCall × Outcome
open_pipes os = elim os.stdout_pipe [
  | none ↦ (new_process, [], failed (codes "pipe() failed: " ++ os.error_text))
  | some out ↦ elim os.stderr_pipe [
    | none ↦ (
      new_process,
      close out.0 ∷ close out.1 ∷ [],
      failed (codes "pipe(stderr) failed: " ++ os.error_text),
    )
    | some err ↦ fork_with os out err
  ]
]

-- The process behind the call, the calls of the parent in order, and what it returns.
unfoldable pub start : Launch → BridgeProcess → BridgeProcess × List SysCall × Outcome
start os p = let (_, calls) = stop p in after calls (open_pipes os)

-- `waitpid` with `WNOHANG`: whether the child has not changed state.
unfoldable pub is_running : (ℕ → Bool) → BridgeProcess → Bool
is_running alive p = elim p.pid [ none ↦ false | some pid ↦ alive pid ]
