-- ===== src/Lib.antt =====
-- The debugger sdb: its library libsdb, which controls one inferior process through `ptrace`.
--
-- A `process` owns the registers, two collections of stop points (breakpoint sites and
-- watchpoints), and the policy for system calls. The command line (`tools/sdb.cpp`) creates and
-- enables stop points, resumes the inferior, and waits for it to stop; a stop reads all
-- registers, finds out why the inferior stopped, and may resume it again.
--
-- `Platform` is the kernel, the ABI and the compiler: system calls on a state `W` that holds the
-- inferior, the offsets of `<sys/user.h>`, the conversions of floating-point types, and the macros
-- on wait statuses. It is a parameter everywhere. `Memory.Model` names what is relied on of
-- `PTRACE_PEEKDATA`, `PTRACE_POKEDATA` and `process_vm_readv`: that they read and write one memory, that
-- a write that fails leaves each byte as it was or as it was to be, and as it was if the word lies in one
-- page, and that mapped bytes can be read through up to 1024 descriptors (`IOV_MAX`). `Launch.Reports`
-- names what is relied on of a pipe.
--
--   Base         lists, bits, bytes and texts
--   Types        `virt_addr`, `file_addr`, `stoppoint_mode` (`include/libsdb/types.hpp`)
--   Process      the members of `class process` and of the stop points, the operations' results
--                (`include/libsdb/process.hpp`, `include/libsdb/error.hpp`), `stop_reason`
--   Registers    the table (`include/libsdb/detail/registers.inc`), its lookups
--                (`include/libsdb/register_info.hpp`), `read`, `write`, `widen`
--                (`src/registers.cpp`, `include/libsdb/registers.hpp`, `include/libsdb/bit.hpp`)
--   Stoppoints   `include/libsdb/stoppoint_collection.hpp`
--   Memory       `read_memory`, `read_memory_without_traps`, `write_memory` (`src/process.cpp`)
--   Hardware     the debug registers (`src/process.cpp`)
--   Breakpoint   `src/breakpoint_site.cpp`, `process::create_breakpoint_site`
--   Watchpoint   `src/watchpoint.cpp`, `process::create_watchpoint`
--   Control      `resume`, `wait_on_signal`, `step_instruction`, `augment_stop_reason` and the
--                destructor (`src/process.cpp`); runs of these operations in Reach, and the program's
--                memory behind its breakpoint sites in OwnBytes, Unseen, Creation and Patching
--   Elf          the reader of ELF files (`src/elf.cpp`, `include/libsdb/elf.hpp`), and the conversions of
--                `src/types.cpp` between addresses of the file and of the running program
--   Disassembler `src/disassembler.cpp`, around a decoder
--   Syscalls     the names and numbers of `src/syscalls.cpp` and `src/include/syscalls.inc`
--   Parse        `include/libsdb/parse.hpp`
--   Pipe         `src/pipe.cpp`, `include/libsdb/pipe.hpp`
--   Launch       `process::launch` (`src/process.cpp`), in the child and in the parent, and
--                `process::attach`
--   Auxv         `process::get_auxv` (`src/process.cpp`)
--   Target       `src/target.cpp`, `include/libsdb/target.hpp`
--   Cli          the command line (`tools/sdb.cpp`): `split` and `is_prefix` in Words, a module for each
--                command, `handle_command` and `main_loop` in Commands, and `attach` and `main` in Main
--   Tests        a small machine in place of the kernel, and examples on it
--
-- An operation is a function from a process to a `Run`: it returns a value or throws a `Failure`,
-- and leaves a process in both cases, since the command loop catches an `sdb::error` and goes on.
-- A reference to a stop point is its place in the collection. Machine integers are natural numbers
-- with their wrap-around written out; `std::byte`s are numbers below 256.
--
-- Fuel: `remote_descs` has a round for each byte to be read, `write_words` one for each byte to be
-- written; each round of both takes at least one byte. `wait_on_signal` has a round for each stop
-- that is passed over; nothing bounds how many there are, so its fuel is a parameter, and running
-- out of it is a failure of its own.
--
-- `bytes_until` of Parse takes at least four bytes of the text in a round and has more rounds than the
-- text has bytes. The commands take the fuel of `wait_on_signal`. The loop of `get_auxv` takes a round for each
-- entry of the file; it would not end on a file without an `AT_NULL`, so its fuel is a parameter too.
--
-- A command is a function from a process to a `Ran`: as a `Run`, with all the messages it printed. A
-- message is the format strings and the arguments that the source hands to `fmt`; how `fmt` lays them
-- out is left open. In Elf a pointer to a section or a symbol is its place in its table, and the object
-- that a `file_addr` belongs to is a number. The bytes of the file are those of its whole mapping; what the
-- reader takes from behind them is undefined.
--
-- Parameters beside `Platform`: `ElfAbi` (the layout of the structures of `<elf.h>`, and the demangler),
-- `FileCalls` (`open`, `fstat`, `mmap`, `munmap`, `close`), `PipeCalls` and `LaunchCalls` (`pipe2`,
-- `read`, `write`, `fork`, `execlp` and what the child calls between), `Decoder` (Zydis), and `FloatParsers`
-- (`std::from_chars` at floating-point types). `std::from_chars` at integers is written out.
--
-- The program starts in `main` of Cli, which launches or attaches (Target, over Launch and Elf), runs
-- `main_loop` on the process, and destroys the target; the lines that `readline` gives and the other
-- inputs stand in `MainInput`. What `main` does in the child of `fork` is `child_main`.
--
-- Not modelled: when the kernel runs the handler of SIGINT, which is an operation of its own here; the
-- history of `readline`, from which one line is copied and not used; negative numbers as the text of a
-- process to attach to. The child and the parent of `fork` are two functions; how their steps interleave
-- is left to the kernel. `span` is a pointer and a size, and is a list here. The tests are left out.
pub mod Base
pub mod Platform
pub mod Types
pub mod Process
pub mod Registers
pub mod Stoppoints
pub mod Memory
pub mod Hardware
pub mod Breakpoint
pub mod Watchpoint
pub mod Control
pub mod Elf
pub mod Disassembler
pub mod Syscalls
pub mod Parse
pub mod Pipe
pub mod Launch
pub mod Auxv
pub mod Target
pub mod Cli
pub mod Tests
