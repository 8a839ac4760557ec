-- ===== src/Cli/Stops.antt =====
-- How tools/sdb.cpp reports a stop: `get_sigtrap_info`, `get_signal_stop_reason`,
-- `print_stop_reason`, `print_disassembly` and `handle_stop`.
use sdb_building_a_debugger.Base.{
  ℕ, ◌%◌, Bool, true, false, String, List, [], ◌∷◌, ◌++◌, get_elem?, Option, none, some, ◌==◌,
  if◌then◌else◌,
}
use sdb_building_a_debugger.Platform.{Platform}
use sdb_building_a_debugger.Types.VirtAddr.{VirtAddr}
use sdb_building_a_debugger.Process.State.{
  ProcState, stopped, running, exited, terminated, TrapType, single_step, software_break,
  hardware_break, syscall, unknown, SyscallInformation, SyscallValues, args, ret, StopReason,
  Watchpoint,
}
use sdb_building_a_debugger.Process.Run.{undefined, format_error, or_throw}
use sdb_building_a_debugger.Process.StopReason.{sigtrap}
use sdb_building_a_debugger.Registers.Access.{get_pc}
use sdb_building_a_debugger.Stoppoints.{
  breakpoint_stoppoint, watchpoint_stoppoint, get_by_address, get_by_id,
}
use sdb_building_a_debugger.Control.Stop.{
  HardwareStoppoint, breakpoint_id, watchpoint_id, get_current_hardware_stoppoint,
}
use sdb_building_a_debugger.Syscalls.Table.{syscall_id_to_name}
use sdb_building_a_debugger.Elf.Types.{Elf, Symbol}
use sdb_building_a_debugger.Elf.Build.{get_string}
use sdb_building_a_debugger.Elf.Addresses.{symbol_containing_virt}
use sdb_building_a_debugger.Disassembler.{Decoder, Instruction, disassemble}
use sdb_building_a_debugger.Cli.Shell.{
  Argument, number, integer, text, numbers, Piece, piece, printed, Shell, ◌>>=◌, ◌>>◌, pure, raise,
  say, perform, result, current,
}

abbrev part : String → List Argument → List Piece
part format arguments = piece format arguments ∷ []

-- What a watchpoint's data were, and are.
unfoldable pub data_info : Watchpoint → List Piece
data_info wp =
    if wp.data_now == wp.previous_data
    then part "\nValue: {:#x}" (number wp.data_now ∷ [])
    else part "\nOld value: {:#x}\nNew value: {:#x}"
        (number wp.previous_data ∷ number wp.data_now ∷ [])

-- The values are a union: on entry its `args` are read, on exit its `ret`.
unfoldable pub syscall_info_text :
    {W : Type 0} → SyscallInformation → Bool → SyscallValues → Shell W (List Piece)
syscall_info_text info true (args values) = do
  name ← result (syscall_id_to_name info.id)
  pure (part " (syscall entry)\nsyscall: {}({:#x})" (text name ∷ numbers values ∷ []))
syscall_info_text info false (ret value) =
    pure (part " (syscall exit)\nsyscall returned: {:#x}" (number value ∷ []))
syscall_info_text info true (ret value) = raise undefined
syscall_info_text info false (args values) = raise undefined

module _ {W : Type 0} (pf : Platform W) where
  unfoldable pub stoppoint_info : HardwareStoppoint → Shell W (List Piece)
  unfolding data_info
  stoppoint_info (breakpoint_id id) = pure (part " (breakpoint {})" (integer id ∷ []))
  stoppoint_info (watchpoint_id id) = do
    p ← current
    i ← result (get_by_id p.watchpoints id)
    wp ← perform (or_throw (get_elem? p.watchpoints i) undefined)
    pure (part " (watchpoint {})" (integer wp.id ∷ []) ++ data_info wp)

  unfoldable pub trap_info : StopReason → TrapType → Shell W (List Piece)
  unfolding stoppoint_info syscall_info_text
  trap_info reason software_break = do
    p ← current
    pc ← perform (get_pc pf)
    i ← result (get_by_address p.breakpoint_sites pc)
    site ← perform (or_throw (get_elem? p.breakpoint_sites i) undefined)
    pure (part " (breakpoint {})" (integer site.id ∷ []))
  trap_info reason hardware_break = do
    id ← perform (get_current_hardware_stoppoint pf)
    stoppoint_info id
  trap_info reason single_step = pure (part " (single step)" [])
  trap_info reason syscall = do
    info ← perform (or_throw reason.syscall_info undefined)
    syscall_info_text info info.entry info.values
  trap_info reason unknown = pure []

  unfoldable pub get_sigtrap_info : StopReason → Shell W (List Piece)
  unfolding trap_info
  get_sigtrap_info reason = elim reason.trap_reason [
    | none ↦ pure []
    | some trap ↦ trap_info reason trap
  ]

  -- `sigabbrev_np` gives a null pointer for a real-time signal, and `fmt` throws at it.
  unfoldable pub signal_name : ℕ → Shell W (List ℕ)
  signal_name sig = perform (or_throw (pf.sigabbrev sig) format_error)

  -- The name of the function that holds the program counter; `STT_FUNC` is 2.
  unfoldable pub function_name : Elf → Symbol → Shell W (List Piece)
  unfolding get_string
  function_name obj symbol = do
    name ← result (get_string obj.mapped obj.section_map obj.section_headers symbol.st_name)
    pure (part " ({})" (text name ∷ []))

  unfoldable pub function_info : Elf → Option Symbol → Shell W (List Piece)
  unfolding function_name
  function_info obj none = pure []
  function_info obj (some symbol) =
      if symbol.st_info % 16 == 2 then function_name obj symbol else pure []

  unfoldable pub symbol_of : Elf → Option ℕ → Option Symbol
  symbol_of obj none = none
  symbol_of obj (some i) = get_elem? obj.symbol_table i

  unfoldable pub get_signal_stop_reason : Elf → StopReason → Shell W (List Piece)
  unfolding get_sigtrap_info function_info symbol_of signal_name
  get_signal_stop_reason obj reason = do
    pc ← perform (get_pc pf)
    name ← signal_name reason.info
    func ← function_info obj (symbol_of obj (symbol_containing_virt obj pc))
    info ← if reason.info == sigtrap then get_sigtrap_info reason else pure []
    pure (part "stopped with signal {} at {:#x}" (text name ∷ number pc ∷ []) ++ func ++ info)

  unfoldable pub stop_message : Elf → StopReason → ProcState → Shell W (List Piece)
  unfolding get_signal_stop_reason signal_name
  stop_message obj reason stopped = get_signal_stop_reason obj reason
  stop_message obj reason running = pure (part "is running" [])
  stop_message obj reason exited = pure (part "exited with status {}" (number reason.info ∷ []))
  stop_message obj reason terminated = do
    name ← signal_name reason.info
    pure (part "terminated with signal {}" (text name ∷ []))

  unfoldable pub print_stop_reason : Elf → StopReason → Shell W (Unit {0})
  unfolding stop_message
  print_stop_reason obj reason = do
    msg ← stop_message obj reason reason.reason
    p ← current
    say (printed (part "process {} " (number p.pid ∷ []) ++ msg ++ part "\n" []))

  unfoldable pub print_instructions : List Instruction → Shell W (Unit {0})
  print_instructions [] = pure tt
  print_instructions (instr ∷ rest) = do
    say (printed (part "{:#018x}: {}\n" (number instr.address ∷ text instr.text ∷ [])))
    print_instructions rest

  unfoldable pub print_disassembly : Decoder → VirtAddr → ℕ → Shell W (Unit {0})
  unfolding print_instructions
  print_disassembly decode address n_instructions = do
    instructions ← perform (disassemble pf decode n_instructions (some address))
    print_instructions instructions

  unfoldable pub disassemble_here : Decoder → ProcState → Shell W (Unit {0})
  unfolding print_disassembly
  disassemble_here decode stopped = do pc ← perform (get_pc pf); print_disassembly decode pc 5
  disassemble_here decode _ = pure tt

  unfoldable pub handle_stop : Decoder → Elf → StopReason → Shell W (Unit {0})
  unfolding print_stop_reason disassemble_here
  handle_stop decode obj reason = do
    print_stop_reason obj reason
    disassemble_here decode reason.reason
