-- ===== src/Hardware/Keeps.antt =====
-- Setting and clearing hardware stop points leaves the breakpoint sites alone.
use sdb_building_a_debugger.Base.{ℕ, ℤ, pos, negsuc}
use sdb_building_a_debugger.Platform.{Platform}
use sdb_building_a_debugger.Types.{StoppointMode}
use sdb_building_a_debugger.Process.Keeps.{Keeps, keeps}
use sdb_building_a_debugger.Registers.Keeps.{Keeps-read_by_id_as, Keeps-write_by_id}
use sdb_building_a_debugger.Hardware.{
  set_hardware_stoppoint, set_hardware_breakpoint, set_watchpoint, clear_hardware_stoppoint,
}

module _ {W : Type 0} (pf : Platform W) where
  Keeps-set_hardware_stoppoint :
      (address : ℕ) (mode : StoppointMode) (size : ℕ)
      → Keeps (set_hardware_stoppoint pf address mode size)
  unfolding set_hardware_stoppoint
  Keeps-set_hardware_stoppoint address mode size =
      search (keeps, Keeps-read_by_id_as, Keeps-write_by_id) depth 12

  pub Keeps-set_hardware_breakpoint :
      (id : ℤ) (address : ℕ) → Keeps (set_hardware_breakpoint pf id address)
  unfolding set_hardware_breakpoint
  Keeps-set_hardware_breakpoint id address = search Keeps-set_hardware_stoppoint

  pub Keeps-clear_hardware_stoppoint : (index : ℤ) → Keeps (clear_hardware_stoppoint pf index)
  unfolding clear_hardware_stoppoint
  Keeps-clear_hardware_stoppoint (negsuc n) = search keeps
  Keeps-clear_hardware_stoppoint (pos index) =
      search (keeps, Keeps-read_by_id_as, Keeps-write_by_id) depth 12

  pub Keeps-set_watchpoint :
      (id : ℤ) (address : ℕ) (mode : StoppointMode) (size : ℕ)
      → Keeps (set_watchpoint pf id address mode size)
  unfolding set_watchpoint
  Keeps-set_watchpoint id address mode size = search Keeps-set_hardware_stoppoint
