-- ===== src/Cli.antt =====
-- tools/sdb.cpp: the command line.
pub mod Shell
pub mod Words
pub mod Help
pub mod Stops
pub mod RegisterCommand
pub mod BreakpointCommand
pub mod WatchpointCommand
pub mod CatchpointCommand
pub mod MemoryCommand
pub mod DisassembleCommand
pub mod Commands
pub mod Main
