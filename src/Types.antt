-- ===== src/Types.antt =====
-- include/libsdb/types.hpp: addresses, and the modes of a stoppoint.
pub mod VirtAddr
pub mod FileAddr
pub mod Laws
use sdb_building_a_debugger.Base.{ℕ}

-- `enum class stoppoint_mode`.
pub data StoppointMode : Type 0 where
  write read_write execute : StoppointMode
