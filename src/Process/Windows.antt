-- ===== src/Process/Windows.antt =====
-- `BridgeProcess` on Windows: `start`, `stop`, `isRunning`, with the answers of the system's calls
-- as a record, and what the code does to handles and processes as a list of calls.
use ghidra_svr_bridge.Prelude.{
  ℕ, Bool, false, List, [], ◌∷◌, ◌++◌, Option, none, some, Str, codes, ℤ, negsuc, Exc, ok, throw,
  ◌==◌, nat_eq, if◌then◌else◌, is_empty, nat_to_string,
}
use ghidra_svr_bridge.Process.Output.{read_ready_line}

-- `none` stands for an invalid handle, and for a `m_pi` of zeros. A process comes with its thread.
pub record BridgeProcess : Type 0 where
  pub port : ℤ
  pub child : Option (ℕ × ℕ)
  pub stdout_read : Option ℕ
  pub stderr_read : Option ℕ
  pub stderr_thread : Option ℕ

abbrev pub new_process : BridgeProcess
new_process = record {
  port = negsuc 0;
  child = none;
  stdout_read = none;
  stderr_read = none;
  stderr_thread = none;
}

pub data SysCall : Type 0 where
  terminate : ℕ → SysCall
  wait_for : ℕ → SysCall
  close_handle : ℕ → SysCall

-- What `CreatePipe`, `CreateProcessW` and `CreateThread` answer, the child's output and what
-- `PeekNamedPipe` and `ReadFile` drain of its diagnostic output, and `GetLastError`.
pub record Launch : Type 0 where
  pub stdout_pipe : Option (ℕ × ℕ)
  pub stderr_pipe : Option (ℕ × ℕ)
  pub created : Option (ℕ × ℕ)
  pub logger : ℕ
  pub output : Str
  pub diagnostics : Str
  pub last_error : ℕ

pub data Outcome : Type 0 where
  done : Outcome
  failed : Str → Outcome
  thrown : Str → Outcome

abbrev end_child : Option (ℕ × ℕ) → List SysCall
end_child none = []
end_child (some (process, thread)) =
    terminate process ∷ wait_for process ∷ close_handle process ∷ close_handle thread ∷ []

abbrev end_thread : Option ℕ → List SysCall
end_thread none = []
end_thread (some thread) = wait_for thread ∷ close_handle thread ∷ []

abbrev end_pipe : Option ℕ → List SysCall
end_pipe none = []
end_pipe (some handle) = close_handle handle ∷ []

unfoldable pub stop_calls : BridgeProcess → List SysCall
stop_calls p =
    end_child p.child
    ++ (end_pipe p.stderr_read ++ (end_thread p.stderr_thread ++ end_pipe p.stdout_read))

unfoldable pub stop : BridgeProcess → BridgeProcess × List SysCall
stop p = (new_process, stop_calls p)

-- The error of `readReadyLine`, with what the process wrote about itself.
unfoldable pub early_exit : Str → Str
early_exit diagnostics =
    codes "Bridge process exited before sending READY"
    ++ (if is_empty diagnostics then [] else b':' ∷ b'\n' ∷ diagnostics)

-- Behind the launch: the handshake, and the logger.
unfoldable pub await_ready :
    Launch → BridgeProcess → Option (Exc ℤ) → BridgeProcess × List SysCall × Outcome
await_ready os p none = let (q, calls) = stop p in (q, calls, failed (early_exit os.diagnostics))
await_ready os p (some (throw what)) = (p, [], thrown what)
await_ready os p (some (ok port)) =
    (record p { port = port; stderr_thread = some os.logger }, [], done)

abbrev after :
    List SysCall → BridgeProcess × List SysCall × Outcome → BridgeProcess × List SysCall × Outcome
after calls (p, more, o) = (p, calls ++ more, o)

-- The two pipes are there; the write ends are closed whether the launch succeeds or not.
unfoldable pub launch_with : Launch → ℕ × ℕ → ℕ × ℕ → BridgeProcess × List SysCall × Outcome
launch_with os (out_read, out_write) (err_read, err_write) =
    after (close_handle out_write ∷ close_handle err_write ∷ []) (elim os.created [
      | none ↦ (
        new_process,
        close_handle out_read ∷ close_handle err_read ∷ [],
        failed (codes "CreateProcessW failed: " ++ nat_to_string os.last_error),
      )
      | some pi ↦
          await_ready os
            (record new_process {
              child = some pi;
              stdout_read = some out_read;
              stderr_read = some err_read;
            })
            (read_ready_line [] os.output)
    ])

unfoldable pub open_pipes : Launch → BridgeProcess × List SysCall × Outcome
open_pipes os = elim os.stdout_pipe [
  | none ↦ (new_process, [], failed (codes "CreatePipe failed: " ++ nat_to_string os.last_error))
  | some out ↦ elim os.stderr_pipe [
    | none ↦ (
      new_process,
      close_handle out.0 ∷ close_handle out.1 ∷ [],
      failed (codes "CreatePipe(stderr) failed: " ++ nat_to_string os.last_error),
    )
    | some err ↦ launch_with os out err
  ]
]

unfoldable pub start : Launch → BridgeProcess → BridgeProcess × List SysCall × Outcome
start os p = let (_, calls) = stop p in after calls (open_pipes os)

-- `GetExitCodeProcess`, where it answers; `STILL_ACTIVE` is 259.
unfoldable pub is_running : (ℕ → Option ℕ) → BridgeProcess → Bool
is_running exit_code p = elim p.child [
  | none ↦ false
  | some (process, thread) ↦ elim (exit_code process) [ none ↦ false | some code ↦ code == 259 ]
]
