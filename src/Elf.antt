-- ===== src/Elf.antt =====
-- src/elf.cpp and include/libsdb/elf.hpp: sections, names and symbols of an ELF file, and the
-- conversions of src/types.cpp between addresses. A pointer to a section or a symbol is its place in
-- its table.
pub mod Types
pub mod Build
pub mod Ranges
pub mod Symbols
pub mod Addresses
pub mod Open
pub mod Tables
pub mod Bias
pub mod Sections
