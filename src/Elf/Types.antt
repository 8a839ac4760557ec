-- ===== src/Elf/Types.antt =====
-- The structures of `<elf.h>` that are read, and the members of `class elf`.
use sdb_building_a_debugger.Base.{ℕ, List, Option}

-- The members of `Elf64_Ehdr`, `Elf64_Shdr` and `Elf64_Sym` that the code reads.
pub record FileHeader : Type 0 where
  pub e_entry : ℕ
  pub e_shoff : ℕ
  pub e_shentsize : ℕ
  pub e_shnum : ℕ
  pub e_shstrndx : ℕ

pub record Section : Type 0 where
  pub sh_name : ℕ
  pub sh_addr : ℕ
  pub sh_offset : ℕ
  pub sh_size : ℕ
  pub sh_entsize : ℕ

pub record Symbol : Type 0 where
  pub st_name : ℕ
  pub st_info : ℕ
  pub st_value : ℕ
  pub st_size : ℕ

-- How `<elf.h>` lays the structures out, and `abi::__cxa_demangle`, which fails on most names: a
-- parameter.
pub record ElfAbi : Type 0 where
  pub file_header : List ℕ → FileHeader
  pub section_header : List ℕ → Section
  pub sizeof_section : ℕ
  pub symbol : List ℕ → Symbol
  pub sizeof_symbol : ℕ
  pub demangle : List ℕ → Option (List ℕ)

-- An entry of `symbol_addr_map_`: the range of addresses, and the symbol's place.
pub record Range : Type 0 where
  pub first : ℕ
  pub second : ℕ
  pub place : ℕ

-- `number` stands for the object's own address. The keys of `symbol_addr_map_` all belong to it.
-- The keys of `symbol_name_map_` are views: `none` is the view of a demangled name that was freed.
pub record Elf : Type 0 where
  pub number : ℕ
  pub path : List ℕ
  pub fd : ℕ
  pub file_size : ℕ
  pub mapped : List ℕ
  pub header : FileHeader
  pub section_headers : List Section
  pub section_map : List (List ℕ × ℕ)
  pub load_bias : ℕ
  pub symbol_table : List Symbol
  pub symbol_name_map : List (Option (List ℕ) × ℕ)
  pub symbol_addr_map : List Range
