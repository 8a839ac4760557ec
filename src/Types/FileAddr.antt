-- ===== src/Types/FileAddr.antt =====
-- `class file_addr` and `class file_offset` of include/libsdb/types.hpp.
use sdb_building_a_debugger.Base.{
  ℕ, ◌+◌, ◌-◌, ◌%◌, ◌^◌, Bool, true, false, not, ◌&&◌, ◌||◌, Option, none, some, ltb, leb, ◌==◌,
  if◌then◌else◌,
}

-- `elf_` is a pointer: the number of the ELF object, or null.
pub record FileAddr : Type 0 where
  pub elf : Option ℕ
  pub addr : ℕ

pub record FileOffset : Type 0 where
  pub elf : Option ℕ
  pub off : ℕ

-- `file_addr{}`.
abbrev pub null_addr : FileAddr
null_addr = record { elf = none; addr = 0 }

abbrev pub same_elf : Option ℕ → Option ℕ → Bool
same_elf none none = true
same_elf none (some b) = false
same_elf (some a) none = false
same_elf (some a) (some b) = a == b

unfoldable pub add : FileAddr → ℕ → FileAddr
add a offset = record a { addr = (a.addr + offset) % 2 ^ 64 }

unfoldable pub sub : FileAddr → ℕ → FileAddr
sub a offset = record a { addr = (a.addr + 2 ^ 64 - offset) % 2 ^ 64 }

unfoldable pub eq : FileAddr → FileAddr → Bool
eq a b = a.addr == b.addr && same_elf a.elf b.elf

unfoldable pub ne : FileAddr → FileAddr → Bool
ne a b = not (a.addr == b.addr) || not (same_elf a.elf b.elf)

-- The orderings assert that both addresses belong to one file; `none` is a failed assertion.
abbrev pub asserted : FileAddr → FileAddr → Bool → Option Bool
asserted a b answer = if same_elf a.elf b.elf then some answer else none

unfoldable pub lt : FileAddr → FileAddr → Option Bool
lt a b = asserted a b (ltb a.addr b.addr)

unfoldable pub le : FileAddr → FileAddr → Option Bool
le a b = asserted a b (leb a.addr b.addr)

unfoldable pub gt : FileAddr → FileAddr → Option Bool
gt a b = asserted a b (ltb b.addr a.addr)

unfoldable pub ge : FileAddr → FileAddr → Option Bool
ge a b = asserted a b (leb b.addr a.addr)
