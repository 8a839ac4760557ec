-- ===== src/Pipe.antt =====
-- src/pipe.cpp and include/libsdb/pipe.hpp.
use sdb_building_a_debugger.Base.{ℕ, Bool, List, ℤ, negsuc, int_eq, if◌then◌else◌}
use sdb_building_a_debugger.Platform.{Sys, done, failed}
use sdb_building_a_debugger.Process.Run.{Outcome, ok, bad, errno_error}

-- The system calls, a parameter: `pipe2` with `O_CLOEXEC` or 0, `close`, whose result is not looked at,
-- `read` of so many bytes at most, and `write`.
pub record PipeCalls (W : Type 0) : Type 0 where
  pub pipe2 : Bool → W → Sys (ℤ × ℤ) × W
  pub close : ℤ → W → W
  pub read : ℤ → ℕ → W → Sys (List ℕ) × W
  pub write : ℤ → List ℕ → W → Sys ℕ × W

-- `fds_`; -1 stands for a descriptor that was closed or released.
pub record Pipe : Type 0 where
  pub read_fd : ℤ
  pub write_fd : ℤ

abbrev minus_one : ℤ
minus_one = negsuc 0

unfoldable pub opened : Sys (ℤ × ℤ) → Outcome Pipe
opened (failed e) = bad (errno_error "Pipe creation failed" e)
opened (done (read_fd, write_fd)) = ok (record { read_fd = read_fd; write_fd = write_fd })

unfoldable pub transferred : Sys (List ℕ) → Outcome (List ℕ)
transferred (failed e) = bad (errno_error "could not read from pipe" e)
transferred (done bytes) = ok bytes

unfoldable pub accepted : Sys ℕ → Outcome (Unit {0})
accepted (failed e) = bad (errno_error "could not write to pipe" e)
accepted (done n) = ok tt

unfoldable pub release_read : Pipe → ℤ × Pipe
release_read p = (p.read_fd, record p { read_fd = minus_one })

unfoldable pub release_write : Pipe → ℤ × Pipe
release_write p = (p.write_fd, record p { write_fd = minus_one })

module _ {W : Type 0} (calls : PipeCalls W) where
  unfoldable pub open_pipe : Bool → W → Outcome Pipe × W
  unfolding opened
  open_pipe close_on_exec w = let (fds, after) = calls.pipe2 close_on_exec w in (opened fds, after)

  unfoldable pub close_read : Pipe → W → Pipe × W
  close_read p w =
      if int_eq p.read_fd minus_one
      then (p, w)
      else (record p { read_fd = minus_one }, calls.close p.read_fd w)

  unfoldable pub close_write : Pipe → W → Pipe × W
  close_write p w =
      if int_eq p.write_fd minus_one
      then (p, w)
      else (record p { write_fd = minus_one }, calls.close p.write_fd w)

  -- `pipe::~pipe`.
  unfoldable pub destroy_pipe : Pipe → W → W
  unfolding close_read close_write
  destroy_pipe p w = let (half, after) = close_read p w in (close_write half after).1

  unfoldable pub read_pipe : Pipe → W → Outcome (List ℕ) × W
  unfolding transferred
  read_pipe p w = let (bytes, after) = calls.read p.read_fd 1024 w in (transferred bytes, after)

  unfoldable pub write_pipe : Pipe → List ℕ → W → Outcome (Unit {0}) × W
  unfolding accepted
  write_pipe p bytes w = let (n, after) = calls.write p.write_fd bytes w in (accepted n, after)
