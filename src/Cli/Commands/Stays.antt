-- ===== src/Cli/Commands/Stays.antt =====
-- The commands of tools/sdb.cpp on stop points, memory and registers, and their breakpoint sites.
use sdb_building_a_debugger.Base.{ℕ, zero, suc, ◌+◌, Bool, List, [], ◌∷◌, drop, ℤ}
use sdb_building_a_debugger.Platform.{Platform}
use sdb_building_a_debugger.Process.State.{BreakpointSite, Watchpoint, SyscallCatchPolicy}
use sdb_building_a_debugger.Registers.Value.{RegisterInfo}
use sdb_building_a_debugger.Registers.Keeps.{Keeps-write}
use sdb_building_a_debugger.Memory.Keeps.{Keeps-read_memory, Keeps-write_memory}
use sdb_building_a_debugger.Stoppoints.{breakpoint_stoppoint, find_by_id, remove_by_id}
use sdb_building_a_debugger.Breakpoint.{create_breakpoint_site, remove_site_by_id}
use sdb_building_a_debugger.Breakpoint.Keeps.{Keeps-enable, Keeps-disable}
use sdb_building_a_debugger.Watchpoint.Keeps
use sdb_building_a_debugger.Control.Reach.{create_distinct, remove_distinct}
use sdb_building_a_debugger.Control.Resume.{set_syscall_catch_policy}
use sdb_building_a_debugger.Parse.{Parsed}
use sdb_building_a_debugger.Cli.Shell.{perform}
use sdb_building_a_debugger.Cli.Shell.Stays.{Stays, stays, Stays-final, Stays-for_each}
use sdb_building_a_debugger.Cli.Help.{print_help}
use sdb_building_a_debugger.Cli.BreakpointCommand.{
  print_site, list_breakpoints, wants_hardware, set_breakpoint, change_breakpoint,
  handle_breakpoint_command,
}
use sdb_building_a_debugger.Cli.WatchpointCommand.{
  print_point, handle_watchpoint_list, set_point, handle_watchpoint_set, change_watchpoint,
  select_watchpoint, handle_watchpoint_command,
}
use sdb_building_a_debugger.Cli.CatchpointCommand.{
  handle_syscall_catchpoint_command, handle_catchpoint_command,
}
use sdb_building_a_debugger.Cli.MemoryCommand.{
  print_lines, handle_memory_read_command, handle_memory_write_command, handle_memory_command,
}
use sdb_building_a_debugger.Cli.RegisterCommand.{
  FloatParsers, print_register, print_registers, print_named, handle_register_read, write_named,
  handle_register_write, handle_register_command,
}

module _ {W : Type 0} where
  pub Stays-print_help : (args : List (List ℕ)) → Stays {W = W} (print_help args)
  unfolding print_help
  Stays-print_help [] = search stays
  Stays-print_help (command ∷ []) = search stays
  Stays-print_help (command ∷ topic ∷ args) = search stays

  Stays-print_site : (site : BreakpointSite) → Stays {W = W} (print_site site)
  unfolding print_site
  Stays-print_site site = search stays depth 8

  Stays-list_breakpoints : Stays {W = W} list_breakpoints
  unfolding list_breakpoints
  Stays-list_breakpoints = search (stays, Stays-for_each, Stays-print_site) depth 8

  Stays-wants_hardware : (more : List (List ℕ)) → Stays {W = W} (wants_hardware more)
  unfolding wants_hardware
  Stays-wants_hardware [] = search stays
  Stays-wants_hardware (flag ∷ []) = search stays
  Stays-wants_hardware (flag ∷ next ∷ more) = search stays

  Stays-create :
      (address : ℕ) (hardware internal : Bool)
      → Stays {W = W} (perform (create_breakpoint_site address hardware internal))
  Stays-create address hardware internal =
      Stays-final (create_breakpoint_site address hardware internal)
        (λ p d. create_distinct p address hardware internal d)

  Stays-print_point : (point : Watchpoint) → Stays {W = W} (print_point point)
  unfolding print_point
  Stays-print_point point = search stays

  Stays-handle_watchpoint_list : Stays {W = W} handle_watchpoint_list
  unfolding handle_watchpoint_list
  Stays-handle_watchpoint_list = search (stays, Stays-for_each, Stays-print_point) depth 8

  -- The policy for system calls is set, and the sites are left alone.
  Stays-policy :
      (policy : SyscallCatchPolicy) → Stays {W = W} (perform (set_syscall_catch_policy policy))
  unfolding set_syscall_catch_policy
  Stays-policy policy = Stays-final (set_syscall_catch_policy policy) (λ p d. d)

  Stays-syscall_catchpoint :
      (more : List (List ℕ)) → Stays {W = W} (handle_syscall_catchpoint_command more)
  unfolding handle_syscall_catchpoint_command
  Stays-syscall_catchpoint more = search (stays, Stays-policy) depth 8

  pub Stays-handle_catchpoint_command :
      (args : List (List ℕ)) → Stays {W = W} (handle_catchpoint_command args)
  unfolding handle_catchpoint_command
  Stays-handle_catchpoint_command [] = search Stays-print_help
  Stays-handle_catchpoint_command (name ∷ []) = search Stays-print_help
  Stays-handle_catchpoint_command (name ∷ sub ∷ more) =
      search (stays, Stays-syscall_catchpoint) depth 8

  Stays-print_lines :
      (fuel address : ℕ) (data_ : List ℕ) → Stays {W = W} (print_lines fuel address data_)
  unfolding print_lines
  Stays-print_lines zero address data_ = search stays
  Stays-print_lines (suc fuel) address [] = search stays
  Stays-print_lines (suc fuel) address (b ∷ bs) =
      search (stays, λ (_ : Unit {0}). Stays-print_lines fuel (address + 16) (drop 16 (b ∷ bs)))
        depth 8

module _ {W : Type 0} (pf : Platform W) where
  Stays-remove : (id : ℤ) → Stays (perform (remove_site_by_id pf id))
  unfolding remove_site_by_id remove_by_id
  Stays-remove id =
      Stays-final (remove_site_by_id pf id)
        (λ p d. remove_distinct pf (find_by_id p.breakpoint_sites id) p d)

  Stays-set_breakpoint :
      (address : Parsed ℕ) (more : List (List ℕ)) → Stays (set_breakpoint pf address more)
  unfolding set_breakpoint
  Stays-set_breakpoint address more =
      search (stays, Stays-wants_hardware, Stays-create, Keeps-enable) depth 10

  Stays-change_breakpoint : (command : List ℕ) (id : ℤ) → Stays (change_breakpoint pf command id)
  unfolding change_breakpoint
  Stays-change_breakpoint command id =
      search (stays, Keeps-enable, Keeps-disable, Stays-remove) depth 10

  pub Stays-handle_breakpoint_command :
      (args : List (List ℕ)) → Stays (handle_breakpoint_command pf args)
  unfolding handle_breakpoint_command
  Stays-handle_breakpoint_command [] = search Stays-print_help
  Stays-handle_breakpoint_command (name ∷ []) = search Stays-print_help
  Stays-handle_breakpoint_command (name ∷ command ∷ []) =
      search (stays, Stays-list_breakpoints, Stays-print_help)
  Stays-handle_breakpoint_command (name ∷ command ∷ first ∷ more) =
      search (stays, Stays-list_breakpoints, Stays-set_breakpoint, Stays-change_breakpoint) depth 10

  Stays-set_point :
      (address : Parsed ℕ) (mode_text : List ℕ) (size : Parsed ℕ)
      → Stays (set_point pf address mode_text size)
  unfolding set_point
  Stays-set_point address mode_text size =
      search (stays, Stays-print_help, Keeps.Keeps-create_watchpoint, Keeps.Keeps-enable) depth 10

  Stays-handle_watchpoint_set : (args : List (List ℕ)) → Stays (handle_watchpoint_set pf args)
  unfolding handle_watchpoint_set
  Stays-handle_watchpoint_set (name ∷ command ∷ address ∷ mode_text ∷ size ∷ []) =
      search Stays-set_point
  Stays-handle_watchpoint_set [] = search Stays-print_help
  Stays-handle_watchpoint_set (a ∷ []) = search Stays-print_help
  Stays-handle_watchpoint_set (a ∷ b ∷ []) = search Stays-print_help
  Stays-handle_watchpoint_set (a ∷ b ∷ c ∷ []) = search Stays-print_help
  Stays-handle_watchpoint_set (a ∷ b ∷ c ∷ d ∷ []) = search Stays-print_help
  Stays-handle_watchpoint_set (a ∷ b ∷ c ∷ d ∷ e ∷ f ∷ more) = search Stays-print_help

  Stays-change_watchpoint : (command : List ℕ) (id : ℤ) → Stays (change_watchpoint pf command id)
  unfolding change_watchpoint
  Stays-change_watchpoint command id =
      search (stays, Keeps.Keeps-enable, Keeps.Keeps-disable, Keeps.Keeps-remove_point_by_id) depth
        10

  Stays-select_watchpoint :
      (command : List ℕ) (more : List (List ℕ)) → Stays (select_watchpoint pf command more)
  unfolding select_watchpoint
  Stays-select_watchpoint command [] = search Stays-print_help
  Stays-select_watchpoint command (first ∷ more) = search (stays, Stays-change_watchpoint) depth 10

  pub Stays-handle_watchpoint_command :
      (args : List (List ℕ)) → Stays (handle_watchpoint_command pf args)
  unfolding handle_watchpoint_command
  Stays-handle_watchpoint_command [] = search Stays-print_help
  Stays-handle_watchpoint_command (name ∷ []) = search Stays-print_help
  Stays-handle_watchpoint_command (name ∷ command ∷ more) =
      search
        (stays, Stays-handle_watchpoint_list, Stays-handle_watchpoint_set, Stays-select_watchpoint)
        depth 10

  Stays-memory_read :
      (first : List ℕ) (more : List (List ℕ)) → Stays (handle_memory_read_command pf first more)
  unfolding handle_memory_read_command
  Stays-memory_read first more = search (stays, Keeps-read_memory, Stays-print_lines) depth 10

  Stays-memory_write :
      (first : List ℕ) (more : List (List ℕ)) → Stays (handle_memory_write_command pf first more)
  unfolding handle_memory_write_command
  Stays-memory_write first [] = search Stays-print_help
  Stays-memory_write first (bytes ∷ []) = search (stays, Keeps-write_memory) depth 10
  Stays-memory_write first (bytes ∷ next ∷ more) = search Stays-print_help

  pub Stays-handle_memory_command : (args : List (List ℕ)) → Stays (handle_memory_command pf args)
  unfolding handle_memory_command
  Stays-handle_memory_command [] = search Stays-print_help
  Stays-handle_memory_command (name ∷ []) = search Stays-print_help
  Stays-handle_memory_command (name ∷ command ∷ []) = search Stays-print_help
  Stays-handle_memory_command (name ∷ command ∷ first ∷ more) =
      search (stays, Stays-memory_read, Stays-memory_write, Stays-print_help) depth 10

  Stays-print_register : (info : RegisterInfo) → Stays (print_register pf info)
  unfolding print_register
  Stays-print_register info = search stays depth 8

  Stays-print_registers :
      (all : Bool) (infos : List RegisterInfo) → Stays (print_registers pf all infos)
  unfolding print_registers
  Stays-print_registers all [] = search stays
  Stays-print_registers all (info ∷ infos) =
      search (stays, Stays-print_register, λ (_ : Unit {0}). Stays-print_registers all infos) depth
        8

  Stays-print_named : (name : List ℕ) → Stays (print_named pf name)
  unfolding print_named
  Stays-print_named name = search (stays, Stays-print_register) depth 8

  Stays-register_read : (args : List (List ℕ)) → Stays (handle_register_read pf args)
  unfolding handle_register_read
  Stays-register_read [] = search Stays-print_help
  Stays-register_read (a ∷ []) = search Stays-print_help
  Stays-register_read (a ∷ b ∷ []) = search Stays-print_registers
  Stays-register_read (a ∷ b ∷ name ∷ []) =
      search (stays, Stays-print_registers, Stays-print_named) depth 8
  Stays-register_read (a ∷ b ∷ c ∷ d ∷ more) = search Stays-print_help

  Stays-write_named :
      (floats : FloatParsers) (name sv : List ℕ) → Stays (write_named pf floats name sv)
  unfolding write_named
  Stays-write_named floats name sv = search (stays, Keeps-write) depth 8

  Stays-register_write :
      (floats : FloatParsers) (args : List (List ℕ)) → Stays (handle_register_write pf floats args)
  unfolding handle_register_write
  Stays-register_write floats [] = search Stays-print_help
  Stays-register_write floats (a ∷ []) = search Stays-print_help
  Stays-register_write floats (a ∷ b ∷ []) = search Stays-print_help
  Stays-register_write floats (a ∷ b ∷ c ∷ []) = search Stays-print_help
  Stays-register_write floats (a ∷ b ∷ name ∷ sv ∷ []) = search Stays-write_named
  Stays-register_write floats (a ∷ b ∷ c ∷ d ∷ e ∷ more) = search Stays-print_help

  pub Stays-handle_register_command :
      (floats : FloatParsers) (args : List (List ℕ))
      → Stays (handle_register_command pf floats args)
  unfolding handle_register_command
  Stays-handle_register_command floats [] = search Stays-print_help
  Stays-handle_register_command floats (a ∷ []) = search Stays-print_help
  Stays-handle_register_command floats (a ∷ sub ∷ more) =
      search (stays, Stays-register_read, Stays-register_write, Stays-print_help) depth 8
