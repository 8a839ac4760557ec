-- ===== src/Cli/Help.antt =====
-- `print_help` of tools/sdb.cpp.
use sdb_building_a_debugger.Base.{ℕ, String, List, [], ◌∷◌, codes, if◌then◌else◌}
use sdb_building_a_debugger.Process.Run.{undefined}
use sdb_building_a_debugger.Cli.Shell.{Shell, raise, say, complained, piece}
use sdb_building_a_debugger.Cli.Words.{is_prefix}

abbrev pub general_help : String
general_help =
    "Available commands:\nbreakpoint  - Commands for operating on breakpoints\ncatchpoint  - Commands for operating on catchpoints\ncontinue    - Resume the process\ndisassemble - Disassemble machine code to assembly\nmemory      - Commands for operating on memory\nregister    - Commands for operating on registers\nstep        - Step over a single instruction\nwatchpoint  - Commands for operating on watchpoints\n"

abbrev pub register_help : String
register_help = "Available commands:\nread\nread <register>\nread all\nwrite <register> <value>\n"

abbrev pub breakpoint_help : String
breakpoint_help =
    "Available commands:\nlist\ndelete <id>\ndisable <id>\nenable <id>\nset <address>\nset <address> -h\n"

abbrev pub memory_help : String
memory_help =
    "Available commands:\nread <address>\nread <address> <number of bytes>\nwrite <address> <bytes>\n"

abbrev pub disassemble_help : String
disassemble_help = "Available options:\n-c <number of instructions>\n-a <start address>\n"

abbrev pub watchpoint_help : String
watchpoint_help =
    "Available commands:\nlist\ndelete <id>\ndisable <id>\nenable <id>\nset <address> <write|rw|execute> <size>\n"

abbrev pub catchpoint_help : String
catchpoint_help =
    "Available commands:\nsyscall\nsyscall none\nsyscall <list of syscall IDs or names>\n"

abbrev pub complain : {W : Type 0} → String → Shell W (Unit {0})
complain message = say (complained (piece message [] ∷ []))

-- The help on a topic: the first whose name the word begins.
unfoldable pub help_text : List ℕ → String
unfolding is_prefix
help_text topic =
    if is_prefix topic (codes "register")
    then register_help
    else if is_prefix topic (codes "breakpoint")
    then breakpoint_help
    else if is_prefix topic (codes "memory")
    then memory_help
    else if is_prefix topic (codes "disassemble")
    then disassemble_help
    else if is_prefix topic (codes "watchpoint")
    then watchpoint_help
    else if is_prefix topic (codes "catchpoint")
    then catchpoint_help
    else "no help available on that command\n"

-- No caller gives an empty list.
unfoldable pub print_help : {W : Type 0} → List (List ℕ) → Shell W (Unit {0})
unfolding help_text
print_help [] = raise undefined
print_help (command ∷ []) = complain general_help
print_help (command ∷ topic ∷ args) = complain (help_text topic)

abbrev pub help_on : {W : Type 0} → String → Shell W (Unit {0})
help_on topic = print_help (codes "help" ∷ codes topic ∷ [])
