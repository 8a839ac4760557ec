-- ===== src/Cli/DisassembleCommand.antt =====
-- The `disassemble` command of tools/sdb.cpp.
use sdb_building_a_debugger.Base.{ℕ, List, [], ◌∷◌, codes, text_eq, if◌then◌else◌}
use sdb_building_a_debugger.Platform.{Platform}
use sdb_building_a_debugger.Types.VirtAddr.{VirtAddr}
use sdb_building_a_debugger.Process.Run.{bad, error}
use sdb_building_a_debugger.Registers.Access.{get_pc}
use sdb_building_a_debugger.Parse.{to_integral}
use sdb_building_a_debugger.Disassembler.{Decoder}
use sdb_building_a_debugger.Cli.Shell.{Shell, ◌>>=◌, perform, result}
use sdb_building_a_debugger.Cli.Help.{help_on}
use sdb_building_a_debugger.Cli.Stops.{print_disassembly}
use sdb_building_a_debugger.Cli.MemoryCommand.{argument_or}

module _ {W : Type 0} (pf : Platform W) (decode : Decoder) where
  -- The loop over the options, from the address and the number of instructions so far.
  unfoldable pub disassemble_with : VirtAddr → ℕ → List (List ℕ) → Shell W (Unit {0})
  disassemble_with address n_instructions [] = print_disassembly pf decode address n_instructions
  disassemble_with address n_instructions (option ∷ []) = help_on "disassemble"
  disassemble_with address n_instructions (option ∷ argument ∷ options) =
      let at_address = (do
        given ←
            result (argument_or (to_integral 64 16 argument) (bad (error "invalid address format")))
        disassemble_with given n_instructions options) in
      let with_count = (do
        given ←
            result
              (argument_or (to_integral 64 10 argument) (bad (error "invalid instruction count")))
        disassemble_with address given options) in
      if text_eq option (codes "-a")
      then at_address
      else if text_eq option (codes "-c")
      then with_count
      else help_on "disassemble"

  unfoldable pub handle_disassemble_command : List (List ℕ) → Shell W (Unit {0})
  unfolding disassemble_with
  handle_disassemble_command options = do
    address ← perform (get_pc pf)
    disassemble_with address 5 options
