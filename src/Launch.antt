-- ===== src/Launch.antt =====
-- `process::launch` of src/process.cpp, in the child and in the parent of `fork`, and `process::attach`.
pub mod Reports
use sdb_building_a_debugger.Base.{
  ℕ, zero, suc, Bool, true, false, String, List, [], ◌∷◌, ◌++◌, codes, Option, none, some, ℤ,
}
use sdb_building_a_debugger.Platform.{Platform, Sys, done, failed}
use sdb_building_a_debugger.Process.State.{Process, new_process}
use sdb_building_a_debugger.Process.Run.{
  Failure, error, error_text, errno_error, Outcome, ok, bad, Run, returned, threw, M, pure, ◌>>=◌,
}
use sdb_building_a_debugger.Control.Resume.{wait_on_signal, set_ptrace_options, destroy}
use sdb_building_a_debugger.Pipe.{
  Pipe, PipeCalls, open_pipe, close_read, close_write, destroy_pipe, read_pipe, write_pipe,
}

-- The further system calls, a parameter; `exec` is `execlp`, which returns only where it fails, and
-- `fork` is as the parent sees it, where the number is not 0.
pub record LaunchCalls (W : Type 0) : Type 0 where
  pub pipes : PipeCalls W
  pub fork : W → Sys ℕ × W
  pub setpgid : W → Sys (Unit {0}) × W
  pub personality : W → W
  pub dup2 : ℤ → W → Sys ℕ × W
  pub traceme : W → Sys (Unit {0}) × W
  pub exec : List ℕ → W → Sys (Unit {0}) × W
  pub strerror : ℕ → List ℕ

-- How the child ends: it becomes another program, it exits with -1, or an exception leaves `launch`.
pub data Child (W : Type 0) : Type 0 where
  became_program : W → Child W
  exited_with_error : W → Child W
  child_threw : Failure → W → Child W

-- An exception closes what is open of the pipe, `exit` does not; the second world is without it.
unfoldable pub was_written : {W : Type 0} → Outcome (Unit {0}) → W → W → Child W
was_written (ok _) w closed = exited_with_error w
was_written (bad e) w closed = child_threw e closed

module _ {W : Type 0} (calls : LaunchCalls W) where
  unfoldable pub exit_with_perror : Pipe → String → ℕ → W → Child W
  unfolding write_pipe was_written destroy_pipe
  exit_with_perror channel prefix e w =
      let (wrote, after) =
        write_pipe calls.pipes channel (codes prefix ++ codes ": " ++ calls.strerror e) w in
      was_written wrote after (destroy_pipe calls.pipes channel after)

  unfoldable pub or_exit : {A : Type 0} → Pipe → String → Sys A × W → (W → Child W) → Child W
  unfolding exit_with_perror
  or_exit channel prefix (failed e, w) k = exit_with_perror channel prefix e w
  or_exit channel prefix (done a, w) k = k w

  unfoldable pub replace_stdout : Pipe → Option ℤ → W → (W → Child W) → Child W
  unfolding or_exit
  replace_stdout channel none w k = k w
  replace_stdout channel (some fd) w k =
      or_exit channel "stdout replacement failed" (calls.dup2 fd w) k

  unfoldable pub request_trace : Pipe → Bool → W → (W → Child W) → Child W
  unfolding or_exit
  request_trace channel false w k = k w
  request_trace channel true w k = or_exit channel "tracing failed" (calls.traceme w) k

  -- The branch where `fork` returned 0.
  unfoldable pub run_child : Pipe → List ℕ → Bool → Option ℤ → W → Child W
  unfolding or_exit replace_stdout request_trace close_read
  run_child channel path debug stdout_replacement w =
      or_exit channel "could not set pgid" (calls.setpgid w) (λ grouped.
        let (writer, closed) = close_read calls.pipes channel (calls.personality grouped) in
        replace_stdout writer stdout_replacement closed (λ replaced.
          request_trace writer debug replaced
            (λ traced. or_exit writer "exec failed" (calls.exec path traced) became_program)))

-- How `launch` ends in the parent.
pub data Launched (W : Type 0) : Type 0 where
  launched : Process W → Launched W
  launch_threw : Failure → W → Launched W

module _ {W : Type 0} (pf : Platform W) where
  -- Where the constructed process is not returned, `unique_ptr` destroys it.
  unfoldable pub world_after : Run W (Unit {0}) → W
  world_after (returned _ p) = p.world
  world_after (threw e p) = p.world

  unfoldable pub owned : Run W (Unit {0}) → Launched W
  unfolding world_after
  owned (returned _ p) = launched p
  owned (threw e p) = launch_threw e (world_after (destroy pf p))

  unfoldable pub wait_for_program : ℕ → Bool → M W (Unit {0})
  wait_for_program fuel false = pure tt
  wait_for_program fuel true = do reason ← wait_on_signal pf fuel; set_ptrace_options pf

  -- Behind the read. `user` is what the storage of the registers held, and the two numbers are the
  -- static counters of the stop points.
  unfoldable pub after_read : ℕ → Bool → List ℕ → ℕ → ℕ → ℕ → Outcome (List ℕ) → W → Launched W
  unfolding owned wait_for_program
  after_read fuel debug user breakpoint_id watchpoint_id pid (bad e) w = launch_threw e w
  after_read fuel debug user breakpoint_id watchpoint_id pid (ok []) w =
      owned (
        wait_for_program fuel debug (new_process w pid true debug user breakpoint_id watchpoint_id))
  after_read fuel debug user breakpoint_id watchpoint_id pid (ok (c ∷ chars)) w =
      launch_threw (error_text (c ∷ chars)) (pf.waitpid pid w).1

  -- `PTRACE_ATTACH`, before there is a process object that an exception would destroy.
  unfoldable pub seize : ℕ → W → Sys (Unit {0}) × W → Outcome (Unit {0}) × W
  seize zero before (r, after) = (bad (error "invalid PID"), before)
  seize (suc n) before (failed e, after) = (bad (errno_error "could not attach" e), after)
  seize (suc n) before (done _, after) = (ok tt, after)

  unfoldable pub attach_seized : ℕ → List ℕ → ℕ → ℕ → ℕ → Outcome (Unit {0}) × W → Launched W
  unfolding owned wait_for_program
  attach_seized fuel user breakpoint_id watchpoint_id pid (bad e, w) = launch_threw e w
  attach_seized fuel user breakpoint_id watchpoint_id pid (ok _, w) =
      owned
        (wait_for_program fuel true (new_process w pid false true user breakpoint_id watchpoint_id))

  unfoldable pub attach : ℕ → List ℕ → ℕ → ℕ → ℕ → W → Launched W
  unfolding seize attach_seized
  attach fuel user breakpoint_id watchpoint_id pid w =
      attach_seized fuel user breakpoint_id watchpoint_id pid (seize pid w (pf.attach_to pid w))

module _ {W : Type 0} (pf : Platform W) (calls : LaunchCalls W) where
  -- The branch where `fork` returned the child's number. The destructor of the pipe finds both ends
  -- closed, except where the read throws.
  unfoldable pub run_parent : ℕ → Pipe → Bool → List ℕ → ℕ → ℕ → ℕ → W → Launched W
  unfolding after_read close_write close_read read_pipe
  run_parent fuel channel debug user breakpoint_id watchpoint_id pid w =
      let (reader, closed) = close_write calls.pipes channel w in
      let (data_, behind) = read_pipe calls.pipes reader closed in
      after_read pf fuel debug user breakpoint_id watchpoint_id pid data_
        (close_read calls.pipes reader behind).1

  unfoldable pub fork_child : ℕ → Bool → List ℕ → ℕ → ℕ → Pipe → Sys ℕ × W → Launched W
  unfolding run_parent destroy_pipe
  fork_child fuel debug user breakpoint_id watchpoint_id channel (failed e, w) =
      launch_threw (errno_error "fork failed" e) (destroy_pipe calls.pipes channel w)
  fork_child fuel debug user breakpoint_id watchpoint_id channel (done pid, w) =
      run_parent fuel channel debug user breakpoint_id watchpoint_id pid w

  unfoldable pub launch_with : ℕ → Bool → List ℕ → ℕ → ℕ → Outcome Pipe × W → Launched W
  unfolding fork_child
  launch_with fuel debug user breakpoint_id watchpoint_id (bad e, w) = launch_threw e w
  launch_with fuel debug user breakpoint_id watchpoint_id (ok channel, w) =
      fork_child fuel debug user breakpoint_id watchpoint_id channel (calls.fork w)

  -- `launch` in the parent.
  unfoldable pub launch : ℕ → Bool → List ℕ → ℕ → ℕ → W → Launched W
  unfolding launch_with open_pipe
  launch fuel debug user breakpoint_id watchpoint_id w =
      launch_with fuel debug user breakpoint_id watchpoint_id (open_pipe calls.pipes true w)
