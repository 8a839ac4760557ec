-- ===== src/Cli/Commands/Distinct.antt =====
-- The breakpoint sites over a whole session of tools/sdb.cpp: `handle_stop`, `handle_command` and
-- `main_loop`.
use sdb_building_a_debugger.Base.{
  ℕ, Bool, true, false, List, [], ◌∷◌, Option, none, some, Option-cases, inl, inr,
}
use sdb_building_a_debugger.Platform.{Platform}
use sdb_building_a_debugger.Types.VirtAddr.{VirtAddr}
use sdb_building_a_debugger.Process.State.{
  ProcState, stopped, running, exited, terminated, TrapType, single_step, software_break,
  hardware_break, syscall, unknown, SyscallInformation, SyscallValues, args, ret, StopReason,
}
use sdb_building_a_debugger.Process.Keeps.{Keeps, keeps}
use sdb_building_a_debugger.Registers.Keeps.{Keeps-get_pc}
use sdb_building_a_debugger.Memory.Keeps.{Keeps-read_memory_without_traps}
use sdb_building_a_debugger.Control.Keeps.{
  Keeps-get_current, Keeps-resume, Keeps-wait_on_signal, Keeps-step_instruction,
}
use sdb_building_a_debugger.Control.Stop.{HardwareStoppoint, breakpoint_id, watchpoint_id}
use sdb_building_a_debugger.Elf.Types.{Elf, Symbol}
use sdb_building_a_debugger.Disassembler.{Decoder, Instruction, start_address, disassemble}
use sdb_building_a_debugger.Cli.Shell.Stays.{Stays, stays, Stays-pure}
use sdb_building_a_debugger.Cli.Stops.{
  syscall_info_text, stoppoint_info, trap_info, get_sigtrap_info, get_signal_stop_reason,
  signal_name, function_name, function_info, stop_message, print_stop_reason, print_instructions,
  print_disassembly, disassemble_here, handle_stop,
}
use sdb_building_a_debugger.Cli.RegisterCommand.{FloatParsers}
use sdb_building_a_debugger.Cli.DisassembleCommand.{disassemble_with, handle_disassemble_command}
use sdb_building_a_debugger.Cli.Commands.{
  continue_command, step_command, run_command, handle_command, handle_line, main_loop,
}
use sdb_building_a_debugger.Cli.Commands.Stays.{
  Stays-print_help, Stays-handle_breakpoint_command, Stays-handle_watchpoint_command,
  Stays-handle_catchpoint_command, Stays-handle_memory_command, Stays-handle_register_command,
}

module _ {W : Type 0} where
  Stays-syscall_info :
      (info : SyscallInformation) (entry : Bool) (values : SyscallValues)
      → Stays {W = W} (syscall_info_text info entry values)
  unfolding syscall_info_text
  Stays-syscall_info info true (args values) = search stays
  Stays-syscall_info info false (ret value) = search stays
  Stays-syscall_info info true (ret value) = search stays
  Stays-syscall_info info false (args values) = search stays

module _ {W : Type 0} (pf : Platform W) where
  Stays-print_instructions :
      (instructions : List Instruction) → Stays (print_instructions pf instructions)
  unfolding print_instructions
  Stays-print_instructions [] = search stays
  Stays-print_instructions (instr ∷ rest) =
      search (stays, λ (_ : Unit {0}). Stays-print_instructions rest) depth 8

  Stays-stoppoint_info : (id : HardwareStoppoint) → Stays (stoppoint_info pf id)
  unfolding stoppoint_info
  Stays-stoppoint_info (breakpoint_id id) = search stays
  Stays-stoppoint_info (watchpoint_id id) = search (stays, keeps) depth 8

  Stays-trap_info : (reason : StopReason) (trap : TrapType) → Stays (trap_info pf reason trap)
  unfolding trap_info
  Stays-trap_info reason software_break = search (stays, keeps, Keeps-get_pc) depth 8
  Stays-trap_info reason hardware_break =
      search (stays, Keeps-get_current, Stays-stoppoint_info) depth 8
  Stays-trap_info reason single_step = search stays
  Stays-trap_info reason syscall = search (stays, keeps, Stays-syscall_info) depth 8
  Stays-trap_info reason unknown = search stays

  Stays-sigtrap_info : (reason : StopReason) → Stays (get_sigtrap_info pf reason)
  unfolding get_sigtrap_info
  Stays-sigtrap_info reason = elim (Option-cases reason.trap_reason) [
    | inl plain ↦ rw plain (Stays-pure [])
    | inr (trap, trapped) ↦ rw trapped (Stays-trap_info reason trap)
  ]

  Stays-signal_name : (number : ℕ) → Stays (signal_name pf number)
  unfolding signal_name
  Stays-signal_name number = search (stays, keeps) depth 8

  Stays-function_info : (obj : Elf) (symbol : Option Symbol) → Stays (function_info pf obj symbol)
  unfolding function_info function_name
  Stays-function_info obj none = search stays
  Stays-function_info obj (some symbol) = search stays depth 8

  Stays-signal_stop :
      (obj : Elf) (reason : StopReason) → Stays (get_signal_stop_reason pf obj reason)
  unfolding get_signal_stop_reason
  Stays-signal_stop obj reason =
      search (stays, Keeps-get_pc, Stays-signal_name, Stays-function_info, Stays-sigtrap_info) depth
        10

  Stays-stop_message :
      (obj : Elf) (reason : StopReason) (state : ProcState)
      → Stays (stop_message pf obj reason state)
  unfolding stop_message
  Stays-stop_message obj reason stopped = search Stays-signal_stop
  Stays-stop_message obj reason running = search stays
  Stays-stop_message obj reason exited = search stays
  Stays-stop_message obj reason terminated = search (stays, Stays-signal_name)

  Stays-print_stop_reason :
      (obj : Elf) (reason : StopReason) → Stays (print_stop_reason pf obj reason)
  unfolding print_stop_reason
  Stays-print_stop_reason obj reason = search (stays, Stays-stop_message) depth 8

  Keeps-start_address :
      (decode : Decoder) (given : Option VirtAddr) → Keeps (start_address pf decode given)
  unfolding start_address
  Keeps-start_address decode none = Keeps-get_pc pf
  Keeps-start_address decode (some address) = search keeps

  Keeps-disassemble :
      (decode : Decoder) (n : ℕ) (given : Option VirtAddr) → Keeps (disassemble pf decode n given)
  unfolding disassemble
  Keeps-disassemble decode n given =
      search (keeps, Keeps-start_address, Keeps-read_memory_without_traps) depth 8

  module _ (decode : Decoder) where
    Stays-print_disassembly :
        (address : VirtAddr) (n : ℕ) → Stays (print_disassembly pf decode address n)
    unfolding print_disassembly
    Stays-print_disassembly address n =
        search (stays, Keeps-disassemble, Stays-print_instructions) depth 8

    Stays-disassemble_here : (state : ProcState) → Stays (disassemble_here pf decode state)
    unfolding disassemble_here
    Stays-disassemble_here stopped = search (stays, Keeps-get_pc, Stays-print_disassembly) depth 8
    Stays-disassemble_here running = search stays
    Stays-disassemble_here exited = search stays
    Stays-disassemble_here terminated = search stays

    Stays-handle_stop : (obj : Elf) (reason : StopReason) → Stays (handle_stop pf decode obj reason)
    unfolding handle_stop
    Stays-handle_stop obj reason =
        search (stays, Stays-print_stop_reason, Stays-disassemble_here) depth 8

    Stays-disassemble_with :
        (address : VirtAddr) (n : ℕ) (options : List (List ℕ))
        → Stays (disassemble_with pf decode address n options)
    unfolding disassemble_with
    Stays-disassemble_with address n [] = search Stays-print_disassembly
    Stays-disassemble_with address n (option ∷ []) = search Stays-print_help
    Stays-disassemble_with address n (option ∷ argument ∷ options) =
        search
          (
            stays,
            Stays-print_help,
            λ (given : VirtAddr). Stays-disassemble_with given n options,
            λ (given : ℕ). Stays-disassemble_with address given options,
          )
          depth 8

    Stays-handle_disassemble :
        (options : List (List ℕ)) → Stays (handle_disassemble_command pf decode options)
    unfolding handle_disassemble_command
    Stays-handle_disassemble options = search (stays, Keeps-get_pc, Stays-disassemble_with) depth 8

    module _ (floats : FloatParsers) (obj : Elf) (fuel : ℕ) where
      Stays-continue : Stays (continue_command pf decode floats obj fuel)
      unfolding continue_command
      Stays-continue = search (stays, Keeps-resume, Keeps-wait_on_signal, Stays-handle_stop) depth 8

      Stays-step : Stays (step_command pf decode floats obj fuel)
      unfolding step_command
      Stays-step = search (stays, Keeps-step_instruction, Stays-handle_stop) depth 8

      Stays-run_command :
          (line : List (List ℕ)) → Stays (run_command pf decode floats obj fuel line)
      unfolding run_command
      Stays-run_command [] = search stays
      Stays-run_command (command ∷ words) =
          search
            (
              stays, Stays-continue, Stays-step, Stays-handle_register_command,
              Stays-handle_breakpoint_command, Stays-handle_memory_command,
              Stays-handle_disassemble, Stays-handle_watchpoint_command,
              Stays-handle_catchpoint_command, Stays-print_help,
            )
            depth 16

      Stays-handle_line : (line : List ℕ) → Stays (handle_line pf decode floats obj fuel line)
      unfolding handle_line handle_command
      Stays-handle_line [] = search stays
      Stays-handle_line (c ∷ line) = search (stays, Stays-run_command) depth 8

      -- Whatever lines `main_loop` runs, if no two breakpoint sites of the process have one address before,
      -- then none have at the end, whether the loop reads all the lines or an exception ends it.
      pub main_loop-DistinctSites :
          (lines : List (List ℕ)) → Stays (main_loop pf decode floats obj fuel lines)
      unfolding main_loop
      main_loop-DistinctSites [] = search stays
      main_loop-DistinctSites (line ∷ lines) =
          search (stays, Stays-handle_line, λ (_ : Unit {0}). main_loop-DistinctSites lines) depth 8
