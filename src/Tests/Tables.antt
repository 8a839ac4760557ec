-- ===== src/Tests/Tables.antt =====
-- The tables of a small ELF file.
use sdb_building_a_debugger.Base.{
  ℕ, zero, suc, ◌+◌, ◌≡◌, refl, arith, List, [], ◌∷◌, ◌++◌, codes, length, drop, none, some,
}
use sdb_building_a_debugger.Process.Run.{ok, and_then}
use sdb_building_a_debugger.Elf.Types.{FileHeader, Section, Symbol, Elf}
use sdb_building_a_debugger.Elf.Build.{c_string, build_section_map, get_section}
use sdb_building_a_debugger.Elf.Ranges.Sorted.{covering}
use sdb_building_a_debugger.Elf.Symbols.{map_ranges}
use sdb_building_a_debugger.Elf.Addresses.{
  symbol_at_file, symbol_containing_file, section_containing_virt, to_virt_addr, to_file_addr,
  find_section, contains_virt,
}
use sdb_building_a_debugger.Elf.Tables.{
  nearest, first_at, symbol_containing_file-nearest, symbol_at_file-first_at,
}
use sdb_building_a_debugger.Elf.Bias.{to_virt_addr-to_file_addr}
use sdb_building_a_debugger.Elf.Sections.{
  AreNames, last_named, at_place, get_section-build_section_map,
}
use sdb_building_a_debugger.Types.VirtAddr

abbrev header : FileHeader
header = record { e_entry = 0x1100; e_shoff = 64; e_shentsize = 64; e_shnum = 2; e_shstrndx = 1 }

-- The names `.text` and `.names` stand from 4 on.
abbrev names : List ℕ
names = 0 ∷ 0 ∷ 0 ∷ 0 ∷ codes ".text" ++ (0 ∷ codes ".names" ++ (0 ∷ []))

abbrev pub code_section : Section
code_section = record {
  sh_name = 0;
  sh_addr = 0x1000;
  sh_offset = 0;
  sh_size = 0x500;
  sh_entsize = 0;
}

abbrev name_section : Section
name_section = record { sh_name = 6; sh_addr = 0; sh_offset = 4; sh_size = 13; sh_entsize = 0 }

abbrev sections : List Section
sections = code_section ∷ name_section ∷ []

abbrev symbols : List Symbol
symbols =
    record { st_name = 1; st_info = 0x12; st_value = 0x1200; st_size = 0x40 }
    ∷ record { st_name = 7; st_info = 0x12; st_value = 0x1100; st_size = 0x20 }
    ∷ record { st_name = 9; st_info = 0x16; st_value = 0x1104; st_size = 0x20 }
    ∷ []

abbrev pub small : Elf
small = record {
  number = 1;
  path = codes "a.out";
  fd = 3;
  file_size = length names;
  mapped = names;
  header = header;
  section_headers = sections;
  section_map = [];
  load_bias = 0x5555_0000;
  symbol_table = symbols;
  symbol_name_map = [];
  symbol_addr_map = map_ranges 0 symbols [];
}

symbol_containing_file_example :
    symbol_containing_file small (record { elf = some 1; addr = 0x1105 })
    ≡ covering 0x1105 (nearest 0x1105 0 symbols none)
symbol_containing_file_example = symbol_containing_file-nearest small 0x1105 refl

symbol_at_file_example :
    symbol_at_file small (record { elf = some 1; addr = 0x1100 }) ≡ first_at 0x1100 0 symbols
symbol_at_file_example = symbol_at_file-first_at small 0x1100 refl

in_code : section_containing_virt small 0x5555_1105 ≡ some 0
unfolding section_containing_virt find_section contains_virt VirtAddr.add
in_code = refl

to_virt_addr-to_file_addr_example :
    to_virt_addr (λ _. small) (to_file_addr 0x5555_1105 small) ≡ ok 0x5555_1105
to_virt_addr-to_file_addr_example =
    to_virt_addr-to_file_addr (λ _. small) small 0x5555_1105 0 refl (omega arith, (omega arith, tt))
      in_code

abbrev name_of : ℕ → List ℕ
name_of zero = codes ".text"
name_of (suc n) = codes ".names"

names_read : AreNames (λ n. c_string (drop (4 + n) names)) name_of sections
unfolding c_string
names_read = (refl, (refl, tt))

get_section_example :
    and_then
      (build_section_map header sections names)
      (λ built. ok (get_section built sections (codes ".names")))
    ≡ ok (at_place sections (last_named name_of (codes ".names") 0 sections none))
get_section_example =
    get_section-build_section_map header sections names (codes ".names") name_of name_section refl
      names_read
