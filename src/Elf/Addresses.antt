-- ===== src/Elf/Addresses.antt =====
-- The lookups of src/elf.cpp by address, and the conversions of src/types.cpp between addresses of the
-- file and of the running program.
use sdb_building_a_debugger.Base.{
  ℕ, suc, ◌+◌, ◌-◌, ◌%◌, ◌^◌, Bool, true, false, ◌&&◌, List, [], ◌∷◌, take, drop, Option, none,
  some, ltb, leb, if◌then◌else◌,
}
use sdb_building_a_debugger.Types.FileAddr.{FileAddr, null_addr, same_elf}
use sdb_building_a_debugger.Types.VirtAddr
use sdb_building_a_debugger.Types.VirtAddr.{VirtAddr}
use sdb_building_a_debugger.Process.Run.{Outcome, ok, bad, terminate}
use sdb_building_a_debugger.Elf.Types.{Section, Range, Elf}
use sdb_building_a_debugger.Elf.Build.{get_section}
use sdb_building_a_debugger.Elf.Symbols.{equal_range}
use sdb_building_a_debugger.Elf.Ranges.{find_start, find_containing}

unfoldable pub notify_loaded : Elf → VirtAddr → Elf
notify_loaded obj address = record obj { load_bias = address }

-- The span of a section's bytes, empty where there is no such section.
unfoldable pub get_section_contents : Elf → List ℕ → List ℕ
unfolding get_section
get_section_contents obj name = elim (get_section obj.section_map obj.section_headers name) [
  | none ↦ []
  | some section ↦ take section.sh_size (drop section.sh_offset obj.mapped)
]

unfoldable pub get_section_start_address : Elf → List ℕ → Option FileAddr
unfolding get_section
get_section_start_address obj name = elim (get_section obj.section_map obj.section_headers name) [
  | none ↦ none
  | some section ↦ some (record { elf = some obj.number; addr = section.sh_addr })
]

-- The first section with a property; `i` is the place of the next one.
unfoldable pub find_section : (Section → Bool) → ℕ → List Section → Option ℕ
find_section test i [] = none
find_section test i (section ∷ sections) =
    let rest = find_section test (suc i) sections in if test section then some i else rest

unfoldable pub contains_file : ℕ → Section → Bool
contains_file a section =
    leb section.sh_addr a && ltb a ((section.sh_addr + section.sh_size) % 2 ^ 64)

-- `load_bias_ + section.sh_addr + section.sh_size` is a `virt_addr`.
unfoldable pub contains_virt : VirtAddr → VirtAddr → Section → Bool
unfolding VirtAddr.add
contains_virt load_bias a section =
    VirtAddr.le (VirtAddr.add load_bias section.sh_addr) a
    && VirtAddr.gt (VirtAddr.add (VirtAddr.add load_bias section.sh_addr) section.sh_size) a

unfoldable pub section_containing_file : Elf → FileAddr → Option ℕ
unfolding find_section contains_file
section_containing_file obj a =
    if same_elf a.elf (some obj.number)
    then find_section (contains_file a.addr) 0 obj.section_headers
    else none

unfoldable pub section_containing_virt : Elf → VirtAddr → Option ℕ
unfolding find_section contains_virt
section_containing_virt obj a = find_section (contains_virt obj.load_bias a) 0 obj.section_headers

-- `object` gives the ELF object that a pointer points to. The assertion stops the program.
unfoldable pub to_virt_addr : (ℕ → Elf) → FileAddr → Outcome VirtAddr
unfolding section_containing_file
to_virt_addr object a = elim a.elf [
  | none ↦ bad terminate
  | some number ↦ elim (section_containing_file (object number) a) [
    | none ↦ ok 0
    | some section ↦ ok ((a.addr + (object number).load_bias) % 2 ^ 64)
  ]
]

unfoldable pub to_file_addr : VirtAddr → Elf → FileAddr
unfolding section_containing_virt
to_file_addr a obj = elim (section_containing_virt obj a) [
  | none ↦ null_addr
  | some section ↦ record { elf = some obj.number; addr = (a + 2 ^ 64 - obj.load_bias) % 2 ^ 64 }
]

unfoldable pub get_symbols_by_name : Elf → List ℕ → Outcome (List ℕ)
unfolding equal_range
get_symbols_by_name obj name = equal_range obj.symbol_name_map name

abbrev pub place_of : Option Range → Option ℕ
place_of none = none
place_of (some r) = some r.place

unfoldable pub symbol_at_file : Elf → FileAddr → Option ℕ
unfolding find_start
symbol_at_file obj a =
    if same_elf a.elf (some obj.number)
    then place_of (find_start obj.symbol_addr_map a.addr)
    else none

unfoldable pub symbol_at_virt : Elf → VirtAddr → Option ℕ
unfolding symbol_at_file to_file_addr
symbol_at_virt obj a = symbol_at_file obj (to_file_addr a obj)

abbrev pub is_empty : List Range → Bool
is_empty [] = true
is_empty (r ∷ m) = false

unfoldable pub symbol_containing_file : Elf → FileAddr → Option ℕ
unfolding find_containing
symbol_containing_file obj a =
    if same_elf a.elf (some obj.number)
    then (if is_empty obj.symbol_addr_map then none else find_containing obj.symbol_addr_map a.addr)
    else none

unfoldable pub symbol_containing_virt : Elf → VirtAddr → Option ℕ
unfolding symbol_containing_file to_file_addr
symbol_containing_virt obj a = symbol_containing_file obj (to_file_addr a obj)
