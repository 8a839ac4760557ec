-- ===== src/Control/Stop.antt =====
-- `process::read_all_registers` and `process::get_current_hardware_stoppoint`, and what
-- `process::wait_on_signal` does at a trap.
use sdb_building_a_debugger.Base.{
  ℕ, zero, suc, ◌+◌, ◌*◌, List, overwrite, get_elem?, ℤ, le_bytes, if◌then◌else◌,
}
use sdb_building_a_debugger.Platform.{Platform}
use sdb_building_a_debugger.Process.Run.{
  M, pure, ◌>>=◌, ◌>>◌, get, put, from_outcome, or_throw, reading, undefined,
}
use sdb_building_a_debugger.Registers.Id
use sdb_building_a_debugger.Registers.Info.{register_info_by_id}
use sdb_building_a_debugger.Registers.Access.{read_by_id_as}
use sdb_building_a_debugger.Stoppoints.{
  breakpoint_stoppoint, watchpoint_stoppoint, contains_address, get_by_address, get_by_id,
}
use sdb_building_a_debugger.Hardware.{count_trailing_zeros}
use sdb_building_a_debugger.Watchpoint.{update_data}

unfoldable pub put_bytes : {W : Type 0} → ℕ → List ℕ → M W (Unit {0})
put_bytes offset bytes = do
  p ← get
  put (record p { registers = overwrite p.registers offset bytes })

unfoldable pub times : {W : Type 0} → ℕ → (ℕ → M W (Unit {0})) → ℕ → M W (Unit {0})
times zero body i = pure tt
times (suc rounds) body i = do body i; times rounds body (i + 1)

-- `std::variant<breakpoint_site::id_type, watchpoint::id_type>`.
pub data HardwareStoppoint : Type 0 where
  breakpoint_id watchpoint_id : ℤ → HardwareStoppoint

module _ {W : Type 0} (pf : Platform W) where
  unfoldable pub read_debug_register : ℕ → M W (Unit {0})
  read_debug_register i = do
    p ← get
    info ← from_outcome (register_info_by_id pf.layout (Id.dr0 + i))
    word ← reading "could not read debug register" (pf.peek_user p.pid info.offset)
    put_bytes (pf.layout.u_debugreg + 8 * i) (le_bytes 8 word)

  -- The eight debug registers are read in a loop that stands in another loop of eight rounds.
  unfoldable pub read_all_registers : M W (Unit {0})
  read_all_registers = do
    p ← get
    gprs ← reading "could not read GPR registers" (pf.get_regs p.pid)
    put_bytes pf.layout.regs gprs
    fprs ← reading "could not read FPR registers" (pf.get_fpregs p.pid)
    put_bytes pf.layout.i387 fprs
    times 8 (λ _. times 8 read_debug_register 0) 0

  unfoldable pub get_current_hardware_stoppoint : M W HardwareStoppoint
  get_current_hardware_stoppoint = do
    status ← read_by_id_as pf Id.dr6
    index ← from_outcome (count_trailing_zeros 64 status)
    addr ← read_by_id_as pf (Id.dr0 + index)
    p ← get
    if contains_address p.breakpoint_sites addr
        then (do
          i ← from_outcome (get_by_address p.breakpoint_sites addr)
          site ← or_throw (get_elem? p.breakpoint_sites i) undefined
          pure (breakpoint_id site.id))
        else (do
          i ← from_outcome (get_by_address p.watchpoints addr)
          point ← or_throw (get_elem? p.watchpoints i) undefined
          pure (watchpoint_id point.id))

  -- The branch of `wait_on_signal` for a hardware break.
  unfoldable pub refresh : HardwareStoppoint → M W (Unit {0})
  refresh (breakpoint_id id) = pure tt
  refresh (watchpoint_id id) = do
    p ← get
    i ← from_outcome (get_by_id p.watchpoints id)
    update_data pf i
