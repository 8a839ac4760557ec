-- ===== src/Types/VirtAddr.antt =====
-- `class virt_addr` of include/libsdb/types.hpp: a 64-bit address in the running program.
-- An `std::int64_t` offset is its 64-bit pattern, so both operators wrap modulo 2 ^ 64.
use sdb_building_a_debugger.Base.{ℕ, ◌+◌, ◌-◌, ◌%◌, ◌^◌, Bool, not, ltb, leb, ◌==◌}

abbrev pub VirtAddr : Type 0
VirtAddr = ℕ

unfoldable pub add : VirtAddr → ℕ → VirtAddr
add a offset = (a + offset) % 2 ^ 64

unfoldable pub sub : VirtAddr → ℕ → VirtAddr
sub a offset = (a + 2 ^ 64 - offset) % 2 ^ 64

abbrev pub eq : VirtAddr → VirtAddr → Bool
eq a b = a == b

abbrev pub ne : VirtAddr → VirtAddr → Bool
ne a b = not (a == b)

abbrev pub lt : VirtAddr → VirtAddr → Bool
lt a b = ltb a b

abbrev pub le : VirtAddr → VirtAddr → Bool
le a b = leb a b

abbrev pub gt : VirtAddr → VirtAddr → Bool
gt a b = ltb b a

abbrev pub ge : VirtAddr → VirtAddr → Bool
ge a b = leb b a
