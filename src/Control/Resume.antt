-- ===== src/Control/Resume.antt =====
-- `process::resume`, `wait_on_signal`, `maybe_resume_from_syscall`, `step_instruction` and the
-- destructor.
use sdb_building_a_debugger.Base.{
  ℕ, zero, suc, Bool, true, false, ◌&&◌, Option, none, some, ◌==◌, if◌then◌else◌,
}
use sdb_building_a_debugger.Platform.{Platform}
use sdb_building_a_debugger.Types.VirtAddr
use sdb_building_a_debugger.Process.State.{
  ProcState, stopped, running, StopReason, TrapType, software_break, hardware_break, syscall,
  single_step, unknown, CatchMode, catches_none, SyscallCatchPolicy,
}
use sdb_building_a_debugger.Process.Run.{
  M, pure, throw, ◌>>=◌, ◌>>◌, get, put, from_outcome, or_throw, calling, ignoring, undefined,
  out_of_fuel,
}
use sdb_building_a_debugger.Process.StopReason.{stop_reason, sigtrap, sigkill, sigcont, sigstop}
use sdb_building_a_debugger.Registers.Access.{get_pc, set_pc}
use sdb_building_a_debugger.Stoppoints.{
  breakpoint_stoppoint, enabled_stoppoint_at_address, contains_address, get_by_address, enabled_ref,
}
use sdb_building_a_debugger.Breakpoint.{enable, disable}
use sdb_building_a_debugger.Control.Syscall.{augment_stop_reason, is_caught}
use sdb_building_a_debugger.Control.Stop.{
  read_all_registers, get_current_hardware_stoppoint, refresh,
}

unfoldable pub set_state : {W : Type 0} → ProcState → M W (Unit {0})
set_state state = do p ← get; put (record p { state = state })

unfoldable pub set_syscall_catch_policy : {W : Type 0} → SyscallCatchPolicy → M W (Unit {0})
set_syscall_catch_policy info = do p ← get; put (record p { syscall_catch_policy = info })

unfoldable pub is_stopped : ProcState → Bool
is_stopped stopped = true
is_stopped _ = false

module _ {W : Type 0} (pf : Platform W) where
  unfoldable pub wait_pid : M W ℕ
  wait_pid = do p ← get; calling "waitpid failed" (pf.waitpid p.pid)

  -- Over an enabled breakpoint: lift it, execute one instruction, put it back.
  unfoldable pub step_over : ℕ → M W (Unit {0})
  step_over pc = do
    p ← get
    i ← from_outcome (get_by_address p.breakpoint_sites pc)
    disable pf i
    calling "failed to single step" (pf.single_step p.pid)
    status ← wait_pid
    enable pf i

  unfoldable pub resume_request : CatchMode → ℕ → M W (Unit {0})
  resume_request catches_none pid = calling "could not resume" (pf.cont pid)
  resume_request _ pid = calling "could not resume" (pf.cont_syscall pid)

  unfoldable pub resume : M W (Unit {0})
  resume = do
    pc ← get_pc pf
    p ← get
    if enabled_stoppoint_at_address p.breakpoint_sites pc then step_over pc else pure tt
    resume_request p.syscall_catch_policy.mode p.pid
    set_state running

  -- `recur` is the call of `wait_on_signal` after the resumption.
  unfoldable pub maybe_resume_from_syscall : M W StopReason → StopReason → M W StopReason
  maybe_resume_from_syscall recur reason = do
    p ← get
    info ← or_throw reason.syscall_info undefined
    if is_caught p.syscall_catch_policy info.id then pure reason else (do resume; recur)

  -- What `wait_on_signal` does at a SIGTRAP, by the kind of trap; `instr_begin` is the address before
  -- the program counter.
  unfoldable pub on_trap : M W StopReason → StopReason → ℕ → TrapType → M W StopReason
  on_trap recur reason instr_begin software_break = do
    p ← get
    let sites = p.breakpoint_sites
    if contains_address sites instr_begin && enabled_ref sites (get_by_address sites instr_begin)
        then set_pc pf instr_begin
        else pure tt
    pure reason
  on_trap recur reason instr_begin hardware_break = do
    id ← get_current_hardware_stoppoint pf
    refresh pf id
    pure reason
  on_trap recur reason instr_begin syscall = maybe_resume_from_syscall recur reason
  on_trap recur reason instr_begin single_step = pure reason
  on_trap recur reason instr_begin unknown = pure reason

  unfoldable pub on_stop : M W StopReason → StopReason → M W StopReason
  on_stop recur stop = do
    read_all_registers pf
    reason ← augment_stop_reason pf stop
    pc ← get_pc pf
    let instr_begin = VirtAddr.sub pc 1
    if reason.info == sigtrap
        then (do
          trap ← or_throw reason.trap_reason undefined
          on_trap recur reason instr_begin trap)
        else pure reason

  unfoldable pub wait_step : M W StopReason → M W StopReason
  wait_step recur = do
    wait_status ← wait_pid
    reason ← from_outcome (stop_reason pf wait_status)
    set_state reason.reason
    p ← get
    if p.is_attached && is_stopped p.state then on_stop recur reason else pure reason

  -- Each round of fuel is one stop that is not reported: a system call that is not to be caught.
  unfoldable pub wait_on_signal : ℕ → M W StopReason
  wait_on_signal zero = throw out_of_fuel
  wait_on_signal (suc fuel) = wait_step (wait_on_signal fuel)

  -- The site that `step_instruction` lifts, if there is one.
  unfoldable pub lift_at : ℕ → M W (Option ℕ)
  lift_at pc = do
    p ← get
    if enabled_stoppoint_at_address p.breakpoint_sites pc
        then (do
          i ← from_outcome (get_by_address p.breakpoint_sites pc)
          disable pf i
          pure (some i))
        else pure none

  unfoldable pub reenable : Option ℕ → M W (Unit {0})
  reenable none = pure tt
  reenable (some i) = enable pf i

  unfoldable pub step_instruction : ℕ → M W StopReason
  step_instruction fuel = do
    pc ← get_pc pf
    to_reenable ← lift_at pc
    p ← get
    calling "could not single step" (pf.single_step p.pid)
    reason ← wait_on_signal fuel
    reenable to_reenable
    pure reason

  unfoldable pub set_ptrace_options : M W (Unit {0})
  set_ptrace_options = do
    p ← get
    calling "failed to set TRACESYSGOOD option" (pf.set_options p.pid)

  -- `process::~process`, which looks at no result.
  unfoldable pub stop_running : ProcState → ℕ → M W (Unit {0})
  stop_running running pid = do ignoring (pf.kill pid sigstop); ignoring (pf.waitpid pid)
  stop_running _ pid = pure tt

  unfoldable pub destroy : M W (Unit {0})
  destroy = do
    p ← get
    if p.pid == 0 then pure tt else (do
      if p.is_attached
          then (do
            stop_running p.state p.pid
            ignoring (pf.detach p.pid)
            ignoring (pf.kill p.pid sigcont))
          else pure tt
      if p.terminate_on_end
          then (do ignoring (pf.kill p.pid sigkill); ignoring (pf.waitpid p.pid))
          else pure tt)
