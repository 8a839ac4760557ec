-- ===== src/Elf/Open.antt =====
-- The constructor `elf::elf` of src/elf.cpp, and the destructor.
use sdb_building_a_debugger.Base.{ℕ, ◌≡◌, refl, subst, List, [], Option}
use sdb_building_a_debugger.Platform.{Sys, done, failed}
use sdb_building_a_debugger.Process.Run.{Outcome, ok, bad, errno_error, and_then}
use sdb_building_a_debugger.Elf.Types.{Symbol, Section, ElfAbi, Elf}
use sdb_building_a_debugger.Elf.Build.{
  parse_section_headers, build_section_map, parse_symbol_table, get_string,
}
use sdb_building_a_debugger.Elf.Symbols.{map_ranges, map_names}

-- The system calls: `open`, the file's size by `fstat`, `mmap`, `munmap` and `close`.
pub record FileCalls (W : Type 0) : Type 0 where
  pub open_file : List ℕ → W → Sys ℕ × W
  pub file_size : ℕ → W → Sys ℕ
  pub map_file : ℕ → ℕ → W → Sys (List ℕ) × W
  pub unmap : List ℕ → ℕ → W → W
  pub close_file : ℕ → W → W

-- The object with its tables. `number` is its address, and `load_bias_` is zero.
unfoldable pub filled :
    ElfAbi
    → ℕ
    → List ℕ
    → ℕ
    → ℕ
    → List ℕ
    → List Section
    → List (List ℕ × ℕ)
    → List Symbol
    → List (Option (List ℕ) × ℕ)
    → Elf
unfolding map_ranges
filled abi number path fd size data_ sections section_map symbols names = record {
  number = number;
  path = path;
  fd = fd;
  file_size = size;
  mapped = data_;
  header = abi.file_header data_;
  section_headers = sections;
  section_map = section_map;
  load_bias = 0;
  symbol_table = symbols;
  symbol_name_map = names;
  symbol_addr_map = map_ranges 0 symbols [];
}

-- The four calls behind the mapping.
unfoldable pub fill_tables : ElfAbi → ℕ → List ℕ → ℕ → ℕ → List ℕ → Outcome Elf
unfolding filled parse_section_headers build_section_map parse_symbol_table get_string map_names
fill_tables abi number path fd size data_ =
    let header = abi.file_header data_ in
    and_then (parse_section_headers abi header data_) (λ sections.
      and_then (build_section_map header sections data_) (λ section_map.
        and_then (parse_symbol_table abi data_ section_map sections) (λ symbols.
          and_then (map_names abi.demangle (get_string data_ section_map sections) 0 symbols)
            (λ names.
              ok (filled abi number path fd size data_ sections section_map symbols names)))))

unfoldable pub read_mapped :
    {W : Type 0} → FileCalls W → ElfAbi → ℕ → List ℕ → ℕ → ℕ → Sys (List ℕ) → W → Outcome Elf × W
unfolding fill_tables
read_mapped calls abi number path fd size (failed e) w =
    (bad (errno_error "could not mmap ELF file" e), calls.close_file fd w)
read_mapped calls abi number path fd size (done data_) w =
    (fill_tables abi number path fd size data_, w)

-- After `fstat` fails the descriptor stays open; after `mmap` fails it is closed.
unfoldable pub map_opened :
    {W : Type 0} → FileCalls W → ElfAbi → ℕ → List ℕ → ℕ → Sys ℕ → W → Outcome Elf × W
unfolding read_mapped
map_opened calls abi number path fd (failed e) w =
    (bad (errno_error "could not retrieve ELF file stats" e), w)
map_opened calls abi number path fd (done size) w =
    let (ret, mapped) = calls.map_file fd size w in
    read_mapped calls abi number path fd size ret mapped

unfoldable pub read_opened :
    {W : Type 0} → FileCalls W → ElfAbi → ℕ → List ℕ → Sys ℕ → W → Outcome Elf × W
unfolding map_opened
read_opened calls abi number path (failed e) w = (bad (errno_error "could not open ELF file" e), w)
read_opened calls abi number path (done fd) w =
    map_opened calls abi number path fd (calls.file_size fd w) w

unfoldable pub open_elf : {W : Type 0} → FileCalls W → ElfAbi → ℕ → List ℕ → W → Outcome Elf × W
unfolding read_opened
open_elf calls abi number path w =
    let (fd, opened) = calls.open_file path w in read_opened calls abi number path fd opened

-- `elf::~elf`.
unfoldable pub close_elf : {W : Type 0} → FileCalls W → Elf → W → W
close_elf calls obj w = calls.close_file obj.fd (calls.unmap obj.mapped obj.file_size w)

-- What holds of the result, if there is one.
abbrev Gives : {A : Type 0} → (A → Type 0) → Outcome A → Type 0
Gives P (ok a) = P a
Gives P (bad x) = Unit {0}

and_then-Gives :
    {A B : Type 0} (P : B → Type 0) (r : Outcome A) (f : A → Outcome B)
    → ((a : A) → Gives P (f a))
    → Gives P (and_then r f)
and_then-Gives P (ok a) f h = h a
and_then-Gives P (bad x) f h = tt

-- Every object that the constructor makes has a map of addresses that was built from its symbol table.
pub fill_tables_lem :
    (abi : ElfAbi) (number fd size : ℕ) (path data_ : List ℕ) (obj : Elf)
    → fill_tables abi number path fd size data_ ≡ ok obj
    → obj.symbol_addr_map ≡ map_ranges 0 obj.symbol_table []
unfolding fill_tables filled
fill_tables_lem abi number fd size path data_ obj e =
    let IsBuilt = λ (o : Elf). o.symbol_addr_map ≡ map_ranges 0 o.symbol_table [] in
    let header = abi.file_header data_ in
    subst (Gives IsBuilt) e (
      and_then-Gives IsBuilt (parse_section_headers abi header data_) _ (λ sections.
        and_then-Gives IsBuilt (build_section_map header sections data_) _ (λ section_map.
          and_then-Gives IsBuilt (parse_symbol_table abi data_ section_map sections) _ (λ symbols.
            and_then-Gives IsBuilt
              (map_names abi.demangle (get_string data_ section_map sections) 0 symbols) _
              (λ names. refl)))))
