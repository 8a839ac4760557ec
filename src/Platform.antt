-- ===== src/Platform.antt =====
-- What the debugger takes from the operating system, the ABI and the compiler: a parameter of
-- every module below. `W` is the state that the kernel keeps, the inferior included.
use sdb_building_a_debugger.Base.{Option, ℕ, Bool, List}

-- The outcome of a system call: a value, or -1 with `errno`.
pub data Sys (A : Type 0) : Type 0 where
  done : A → Sys A
  failed : ℕ → Sys A

-- The members of `user_regs_struct` that the register table names.
pub data GprField : Type 0 where
  rax rdx rcx rbx rsi rdi rbp rsp : GprField
  r8 r9 r10 r11 r12 r13 r14 r15 : GprField
  rip eflags cs fs gs ss ds es orig_rax : GprField

-- The members of `user_fpregs_struct` that the register table names.
pub data FprField : Type 0 where
  cwd fop frdp frip swd ftw mxcsr mxcr_mask st_space xmm_space : FprField

-- `offsetof` and `sizeof` of `<sys/user.h>`.
pub record UserLayout : Type 0 where
  pub regs : ℕ
  pub i387 : ℕ
  pub i387_size : ℕ
  pub u_debugreg : ℕ
  pub gpr_field : GprField → ℕ
  pub fpr_field : FprField → ℕ
  pub fpr_size : FprField → ℕ

-- The compiler's conversions between floating-point types, on object representations.
pub record FloatCasts : Type 0 where
  pub float_to_double : List ℕ → List ℕ
  pub float_to_long_double : List ℕ → List ℕ
  pub double_to_long_double : List ℕ → List ℕ
  pub long_double_to_double : List ℕ → List ℕ

pub record Platform (W : Type 0) : Type 0 where
  pub layout : UserLayout
  pub floats : FloatCasts
  -- `ptrace(PTRACE_PEEKDATA, pid, address)` and `PTRACE_POKEDATA`.
  pub peek_data : ℕ → ℕ → W → Sys ℕ
  pub poke_data : ℕ → ℕ → ℕ → W → Sys (Unit {0}) × W
  -- `PTRACE_PEEKUSER` and `PTRACE_POKEUSER` at an offset of the user area.
  pub peek_user : ℕ → ℕ → W → Sys ℕ
  pub poke_user : ℕ → ℕ → ℕ → W → Sys (Unit {0}) × W
  -- `PTRACE_GETREGS`, `PTRACE_GETFPREGS` and their writing counterparts, on raw structs.
  pub get_regs : ℕ → W → Sys (List ℕ)
  pub get_fpregs : ℕ → W → Sys (List ℕ)
  pub set_regs : ℕ → List ℕ → W → Sys (Unit {0}) × W
  pub set_fpregs : ℕ → List ℕ → W → Sys (Unit {0}) × W
  -- `si_code` of `PTRACE_GETSIGINFO`.
  pub get_siginfo : ℕ → W → Sys ℕ
  -- `PTRACE_SINGLESTEP`, `PTRACE_CONT`, `PTRACE_SYSCALL`.
  pub single_step : ℕ → W → Sys (Unit {0}) × W
  pub cont : ℕ → W → Sys (Unit {0}) × W
  pub cont_syscall : ℕ → W → Sys (Unit {0}) × W
  -- `PTRACE_ATTACH`, `PTRACE_DETACH`, `PTRACE_SETOPTIONS` with `PTRACE_O_TRACESYSGOOD`.
  pub attach_to : ℕ → W → Sys (Unit {0}) × W
  pub detach : ℕ → W → Sys (Unit {0}) × W
  pub set_options : ℕ → W → Sys (Unit {0}) × W
  -- `kill(pid, signal)` and `waitpid(pid, &status, 0)`.
  pub kill : ℕ → ℕ → W → Sys (Unit {0}) × W
  pub waitpid : ℕ → W → Sys ℕ × W
  -- The macros of `<sys/wait.h>` on a wait status.
  pub if_exited : ℕ → Bool
  pub exit_status : ℕ → ℕ
  pub if_signaled : ℕ → Bool
  pub term_sig : ℕ → ℕ
  pub if_stopped : ℕ → Bool
  pub stop_sig : ℕ → ℕ
  -- `sigabbrev_np`, which has no name for some numbers.
  pub sigabbrev : ℕ → Option (List ℕ)
  -- `process_vm_readv` from a list of (address, size): the bytes that were transferred.
  pub process_vm_readv : ℕ → List (ℕ × ℕ) → W → Sys (List ℕ)
