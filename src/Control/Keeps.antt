-- ===== src/Control/Keeps.antt =====
-- Running the inferior keeps every breakpoint site's address, id and kind.
use sdb_building_a_debugger.Base.{ℕ, zero, suc, refl, Bool, List, [], ◌∷◌, Option, none, some}
use sdb_building_a_debugger.Platform.{Platform}
use sdb_building_a_debugger.Process.State.{
  ProcState, StopReason, TrapType, software_break, hardware_break, syscall, single_step, unknown,
  CatchMode, catches_none,
}
use sdb_building_a_debugger.Process.Run.{M}
use sdb_building_a_debugger.Process.Keeps.{Keeps, keeps, Keeps-put}
use sdb_building_a_debugger.Registers.Keeps.{Keeps-read_by_id_as, Keeps-get_pc, Keeps-set_pc}
use sdb_building_a_debugger.Breakpoint.Keeps.{Keeps-enable, Keeps-disable}
use sdb_building_a_debugger.Watchpoint.Keeps.{Keeps-update_data}
use sdb_building_a_debugger.Base.{overwrite}
use sdb_building_a_debugger.Control.Syscall.{
  set_expecting, read_all, syscall_exit, syscall_entry, augment_stop_reason,
}
use sdb_building_a_debugger.Control.Stop.{
  put_bytes, times, read_debug_register, read_all_registers, get_current_hardware_stoppoint,
  refresh, HardwareStoppoint, breakpoint_id, watchpoint_id,
}
use sdb_building_a_debugger.Control.Resume.{
  set_state, wait_pid, step_over, resume_request, resume, maybe_resume_from_syscall, on_trap,
  on_stop, wait_step, wait_on_signal, lift_at, reenable, step_instruction,
}

module _ {W : Type 0} where
  Keeps-set_expecting : (b : Bool) → Keeps {W = W} (set_expecting b)
  unfolding set_expecting
  Keeps-set_expecting b =
      Keeps-put (λ p. record p { expecting_syscall_exit = b }) (λ p. (refl, refl, refl))

  Keeps-set_state : (state : ProcState) → Keeps {W = W} (set_state state)
  unfolding set_state
  Keeps-set_state state = Keeps-put (λ p. record p { state = state }) (λ p. (refl, refl, refl))

  Keeps-put_bytes : (offset : ℕ) (bytes : List ℕ) → Keeps {W = W} (put_bytes offset bytes)
  unfolding put_bytes
  Keeps-put_bytes offset bytes =
      Keeps-put (λ p. record p { registers = overwrite p.registers offset bytes })
        (λ p. (refl, refl, refl))

  Keeps-times :
      (n : ℕ) (body : ℕ → M W (Unit {0})) (i : ℕ)
      → ((j : ℕ) → Keeps (body j))
      → Keeps (times n body i)
  unfolding times
  Keeps-times zero body i h = search keeps
  Keeps-times (suc n) body i h = search (keeps, h, Keeps-times n body _ h)

module _ {W : Type 0} (pf : Platform W) where
  Keeps-read_all : (ids : List ℕ) → Keeps (read_all pf ids)
  unfolding read_all
  Keeps-read_all [] = search keeps
  Keeps-read_all (id ∷ ids) =
      search (keeps, Keeps-read_by_id_as, λ (_ : ℕ). Keeps-read_all ids) depth 8

  Keeps-syscall_exit : Keeps (syscall_exit pf)
  unfolding syscall_exit
  Keeps-syscall_exit = search (keeps, Keeps-read_by_id_as, Keeps-set_expecting)

  Keeps-syscall_entry : Keeps (syscall_entry pf)
  unfolding syscall_entry
  Keeps-syscall_entry = search (keeps, Keeps-read_by_id_as, Keeps-read_all, Keeps-set_expecting)

  Keeps-augment : (reason : StopReason) → Keeps (augment_stop_reason pf reason)
  unfolding augment_stop_reason
  Keeps-augment reason =
      search (keeps, Keeps-syscall_exit, Keeps-syscall_entry, Keeps-set_expecting) depth 8

  Keeps-read_debug_register : (i : ℕ) → Keeps (read_debug_register pf i)
  unfolding read_debug_register
  Keeps-read_debug_register i = search (keeps, Keeps-put_bytes) depth 8

  Keeps-debug_loop : (i : ℕ) → Keeps (times 8 (read_debug_register pf) 0)
  Keeps-debug_loop i = Keeps-times 8 (read_debug_register pf) 0 Keeps-read_debug_register

  Keeps-debug_loops : Keeps (times 8 (λ _. times 8 (read_debug_register pf) 0) 0)
  Keeps-debug_loops = Keeps-times 8 (λ _. times 8 (read_debug_register pf) 0) 0 Keeps-debug_loop

  Keeps-read_all_registers : Keeps (read_all_registers pf)
  unfolding read_all_registers
  Keeps-read_all_registers = search (keeps, Keeps-put_bytes, λ (_ : ℕ). Keeps-debug_loops) depth 12

  pub Keeps-get_current : Keeps (get_current_hardware_stoppoint pf)
  unfolding get_current_hardware_stoppoint
  Keeps-get_current = search (keeps, Keeps-read_by_id_as) depth 12

  Keeps-refresh : (id : HardwareStoppoint) → Keeps (refresh pf id)
  unfolding refresh
  Keeps-refresh (breakpoint_id id) = search keeps
  Keeps-refresh (watchpoint_id id) = search (keeps, Keeps-update_data)

  Keeps-wait_pid : Keeps (wait_pid pf)
  unfolding wait_pid
  Keeps-wait_pid = search keeps

  Keeps-step_over : (pc : ℕ) → Keeps (step_over pf pc)
  unfolding step_over
  Keeps-step_over pc = search (keeps, Keeps-enable, Keeps-disable, Keeps-wait_pid) depth 12

  Keeps-resume_request : (mode : CatchMode) (pid : ℕ) → Keeps (resume_request pf mode pid)
  unfolding resume_request
  Keeps-resume_request catches_none pid = search keeps
  Keeps-resume_request _ pid = search keeps

  -- `resume` keeps the sites' addresses, ids and kinds and the id counter, whether it succeeds or throws.
  pub Keeps-resume : Keeps (resume pf)
  unfolding resume
  Keeps-resume =
      search (keeps, Keeps-get_pc, Keeps-step_over, Keeps-resume_request, Keeps-set_state) depth 12

  module _ (recur : M W StopReason) (recur-Keeps : Keeps recur) where
    Keeps-maybe : (reason : StopReason) → Keeps (maybe_resume_from_syscall pf recur reason)
    unfolding maybe_resume_from_syscall
    Keeps-maybe reason = search (keeps, λ (_ : ℕ). Keeps-resume) depth 8

    Keeps-on_trap :
        (reason : StopReason) (begin : ℕ) (trap : TrapType)
        → Keeps (on_trap pf recur reason begin trap)
    unfolding on_trap
    Keeps-on_trap reason begin software_break = search (keeps, Keeps-set_pc) depth 8
    Keeps-on_trap reason begin hardware_break =
        search (keeps, Keeps-get_current, Keeps-refresh) depth 8
    Keeps-on_trap reason begin syscall = search Keeps-maybe
    Keeps-on_trap reason begin single_step = search keeps
    Keeps-on_trap reason begin unknown = search keeps

    Keeps-on_stop : (stop : StopReason) → Keeps (on_stop pf recur stop)
    unfolding on_stop
    Keeps-on_stop stop =
        search (keeps, Keeps-read_all_registers, Keeps-augment, Keeps-get_pc, Keeps-on_trap) depth
          12

    Keeps-wait_step : Keeps (wait_step pf recur)
    unfolding wait_step
    Keeps-wait_step = search (keeps, Keeps-wait_pid, Keeps-set_state, Keeps-on_stop) depth 12

  pub Keeps-wait_on_signal : (fuel : ℕ) → Keeps (wait_on_signal pf fuel)
  unfolding wait_on_signal
  Keeps-wait_on_signal zero = search keeps
  Keeps-wait_on_signal (suc fuel) =
      Keeps-wait_step (wait_on_signal pf fuel) (Keeps-wait_on_signal fuel)

  Keeps-lift_at : (pc : ℕ) → Keeps (lift_at pf pc)
  unfolding lift_at
  Keeps-lift_at pc = search (keeps, Keeps-disable) depth 12

  Keeps-reenable : (place : Option ℕ) → Keeps (reenable pf place)
  unfolding reenable
  Keeps-reenable none = search keeps
  Keeps-reenable (some i) = search Keeps-enable

  -- `step_instruction` keeps the sites' addresses, ids and kinds and the id counter, with any number of
  -- system calls that are passed over, and whether it succeeds or throws.
  pub Keeps-step_instruction : (fuel : ℕ) → Keeps (step_instruction pf fuel)
  unfolding step_instruction
  Keeps-step_instruction fuel =
      search (keeps, Keeps-get_pc, Keeps-lift_at, Keeps-wait_on_signal, Keeps-reenable) depth 12
