-- ===== src/Syscalls.antt =====
-- src/syscalls.cpp: the names and the numbers of the system calls.
pub mod First
pub mod Second
pub mod Third
pub mod Table
pub mod Laws
