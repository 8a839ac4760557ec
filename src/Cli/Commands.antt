-- ===== src/Cli/Commands.antt =====
-- `handle_command` and `main_loop` of tools/sdb.cpp.
pub mod Loop
pub mod Lines
pub mod Stays
pub mod Distinct
use sdb_building_a_debugger.Base.{ℕ, Bool, true, false, List, [], ◌∷◌, codes, if◌then◌else◌}
use sdb_building_a_debugger.Platform.{Platform}
use sdb_building_a_debugger.Process.Run.{undefined}
use sdb_building_a_debugger.Control.Resume.{resume, wait_on_signal, step_instruction}
use sdb_building_a_debugger.Elf.Types.{Elf}
use sdb_building_a_debugger.Disassembler.{Decoder}
use sdb_building_a_debugger.Cli.Shell.{
  Shell, ◌>>=◌, ◌>>◌, pure, raise, say, perform, attempt, reported, is_sdb_error,
}
use sdb_building_a_debugger.Cli.Words.{split, is_prefix}
use sdb_building_a_debugger.Cli.Help.{complain, print_help}
use sdb_building_a_debugger.Cli.Stops.{handle_stop}
use sdb_building_a_debugger.Cli.RegisterCommand.{FloatParsers, handle_register_command}
use sdb_building_a_debugger.Cli.BreakpointCommand.{handle_breakpoint_command}
use sdb_building_a_debugger.Cli.WatchpointCommand.{handle_watchpoint_command}
use sdb_building_a_debugger.Cli.CatchpointCommand.{handle_catchpoint_command}
use sdb_building_a_debugger.Cli.MemoryCommand.{handle_memory_command}
use sdb_building_a_debugger.Cli.DisassembleCommand.{handle_disassemble_command}

-- `fuel` bounds the system calls that a wait passes over.
module _ {W : Type 0} (pf : Platform W) (decode : Decoder) (floats : FloatParsers) (obj : Elf)
    (fuel : ℕ) where
  unfoldable pub continue_command : Shell W (Unit {0})
  continue_command = do
    perform (resume pf)
    reason ← perform (wait_on_signal pf fuel)
    handle_stop pf decode obj reason

  unfoldable pub step_command : Shell W (Unit {0})
  step_command = do reason ← perform (step_instruction pf fuel); handle_stop pf decode obj reason

  -- The command that a line names by its first word. A line with no word would be read out of bounds.
  unfoldable pub run_command : List (List ℕ) → Shell W (Unit {0})
  unfolding continue_command step_command
  run_command [] = raise undefined
  run_command (command ∷ args) =
      if is_prefix command (codes "continue")
      then continue_command
      else if is_prefix command (codes "register")
      then handle_register_command pf floats (command ∷ args)
      else if is_prefix command (codes "breakpoint")
      then handle_breakpoint_command pf (command ∷ args)
      else if is_prefix command (codes "step")
      then step_command
      else if is_prefix command (codes "memory")
      then handle_memory_command pf (command ∷ args)
      else if is_prefix command (codes "disassemble")
      then handle_disassemble_command pf decode args
      else if is_prefix command (codes "watchpoint")
      then handle_watchpoint_command pf (command ∷ args)
      else if is_prefix command (codes "catchpoint")
      then handle_catchpoint_command (command ∷ args)
      else if is_prefix command (codes "help")
      then print_help (command ∷ args)
      else complain "unknown command\n"

  unfoldable pub handle_command : List ℕ → Shell W (Unit {0})
  unfolding run_command
  handle_command line = run_command (split line b' ')

  -- One round of `main_loop`. At an empty line the last line of the history is looked up, and not run.
  unfoldable pub handle_line : List ℕ → Shell W (Unit {0})
  unfolding handle_command is_sdb_error
  handle_line [] = pure tt
  handle_line (c ∷ line) =
      attempt is_sdb_error (handle_command (c ∷ line)) (λ err. say (reported err))

  -- The lines that `readline` gives until the end of the input.
  unfoldable pub main_loop : List (List ℕ) → Shell W (Unit {0})
  unfolding handle_line
  main_loop [] = pure tt
  main_loop (line ∷ lines) = do handle_line line; main_loop lines
