-- ===== src/Types/Laws.antt =====
-- Address arithmetic of include/libsdb/types.hpp.
use sdb_building_a_debugger.Base.{ℕ, ◌^◌, ◌<◌, ◌≡◌, arith}
use sdb_building_a_debugger.Types.VirtAddr

-- An offset that is added to a 64-bit address and taken away again gives the address back, also
-- where the addition wraps; and the other way round.
pub sub-add :
    (a offset : ℕ)
    → a < 2 ^ 64
    → offset < 2 ^ 64
    → (VirtAddr.sub (VirtAddr.add a offset) offset ≡ a)
      × (VirtAddr.add (VirtAddr.sub a offset) offset ≡ a)
unfolding VirtAddr.add VirtAddr.sub
sub-add a offset h g = (omega arith, omega arith)
