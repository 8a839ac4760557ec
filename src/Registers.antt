-- ===== src/Registers.antt =====
-- include/libsdb/register_info.hpp, include/libsdb/registers.hpp, src/registers.cpp, and the table
-- of include/libsdb/detail/registers.inc.
pub mod Value
pub mod Id
pub mod Table
pub mod Info
pub mod Access
pub mod Lookup
pub mod RoundTrip
pub mod Keeps
