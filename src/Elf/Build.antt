-- ===== src/Elf/Build.antt =====
-- How `elf::elf` of src/elf.cpp fills its tables from the mapped file:
-- `data_` are the bytes of the whole mapping, with those that fill its last page.
use sdb_building_a_debugger.Base.{
  ℕ, zero, suc, ◌+◌, ◌*◌, ◌/◌, ◌%◌, ◌^◌, ◌&&◌, not, List, [], ◌∷◌, ◌++◌, codes, text_eq, take, drop,
  length, replicate, get_elem?, Option, none, some, ltb, ◌==◌, if◌then◌else◌,
}
use sdb_building_a_debugger.Process.Run.{Outcome, ok, bad, undefined, and_then}
use sdb_building_a_debugger.Elf.Types.{FileHeader, Section, Symbol, ElfAbi}

-- The zero-terminated string at the head of some bytes. A string that runs out of the mapping, or begins
-- behind it, is undefined.
unfoldable pub c_string : List ℕ → Outcome (List ℕ)
c_string [] = bad undefined
c_string (c ∷ cs) =
    let rest = c_string cs in if c == 0 then ok [] else and_then rest (λ text. ok (c ∷ text))

-- `count` structures of `size` bytes, one behind the other.
unfoldable pub structures : {A : Type 0} → (List ℕ → A) → ℕ → ℕ → List ℕ → List A
structures decode size zero bytes = []
structures decode size (suc count) bytes =
    decode (take size bytes) ∷ structures decode size count (drop size bytes)

-- `n_headers` is an `Elf64_Half`, also where `sh_size` is assigned to it. Headers behind the mapping are
-- undefined.
unfoldable pub count_headers : ElfAbi → FileHeader → List ℕ → Outcome ℕ
count_headers abi header data_ =
    if header.e_shnum == 0 && not (header.e_shentsize == 0)
    then if ltb (length data_) (header.e_shoff + abi.sizeof_section)
      then bad undefined
      else ok (
          (abi.section_header (take abi.sizeof_section (drop header.e_shoff data_))).sh_size
          % 2 ^ 16)
    else ok header.e_shnum

unfoldable pub copy_headers : ElfAbi → FileHeader → List ℕ → ℕ → Outcome (List Section)
unfolding structures
copy_headers abi header data_ count =
    if ltb (length data_) (header.e_shoff + count * abi.sizeof_section)
    then bad undefined
    else ok (structures abi.section_header abi.sizeof_section count (drop header.e_shoff data_))

unfoldable pub parse_section_headers : ElfAbi → FileHeader → List ℕ → Outcome (List Section)
unfolding copy_headers count_headers
parse_section_headers abi header data_ =
    and_then (count_headers abi header data_) (copy_headers abi header data_)

-- The name of a section, by its place in the table of section names. An index `e_shstrndx` that is
-- out of range is undefined.
unfoldable pub get_section_name : FileHeader → List Section → List ℕ → ℕ → Outcome (List ℕ)
unfolding c_string
get_section_name header sections data_ index = elim (get_elem? sections header.e_shstrndx) [
  | none ↦ bad undefined
  | some section ↦ c_string (drop (section.sh_offset + index) data_)
]

-- `map[key] = value`, and `find`.
unfoldable pub assign : List ℕ → ℕ → List (List ℕ × ℕ) → List (List ℕ × ℕ)
assign k v [] = (k, v) ∷ []
assign k v ((j, w) ∷ m) = if text_eq j k then (j, v) ∷ m else (j, w) ∷ assign k v m

unfoldable pub find_name : List (List ℕ × ℕ) → List ℕ → Option ℕ
find_name [] k = none
find_name ((j, w) ∷ m) k = if text_eq j k then some w else find_name m k

-- The loop of `build_section_map`; `name_of` is `get_section_name`, and `i` the place of the next
-- section.
unfoldable pub map_sections :
    (ℕ → Outcome (List ℕ)) → ℕ → List Section → List (List ℕ × ℕ) → Outcome (List (List ℕ × ℕ))
unfolding assign
map_sections name_of i [] m = ok m
map_sections name_of i (section ∷ sections) m =
    and_then (name_of section.sh_name)
      (λ name. map_sections name_of (suc i) sections (assign name i m))

unfoldable pub build_section_map : FileHeader → List Section → List ℕ → Outcome (List (List ℕ × ℕ))
unfolding map_sections get_section_name
build_section_map header sections data_ =
    map_sections (get_section_name header sections data_) 0 sections []

unfoldable pub get_section : List (List ℕ × ℕ) → List Section → List ℕ → Option Section
unfolding find_name
get_section m sections name = elim (find_name m name) [
  | none ↦ none
  | some i ↦ get_elem? sections i
]

unfoldable pub or_else : {A : Type 0} → Option A → Option A → Option A
or_else none o = o
or_else (some a) o = some a

-- An entry size of 0 divides by zero; where the entries do not hold all the bytes, `std::copy` runs
-- over the end of the vector, and behind the mapping it reads what is not there. What it leaves of the
-- vector is zero.
unfoldable pub read_symbols : ElfAbi → List ℕ → Section → Outcome (List Symbol)
unfolding structures
read_symbols abi data_ symtab =
    let count = symtab.sh_size / symtab.sh_entsize in
    if symtab.sh_entsize == 0
    then bad undefined
    else if ltb (count * abi.sizeof_symbol) symtab.sh_size
    then bad undefined
    else if ltb (length data_) (symtab.sh_offset + symtab.sh_size)
    then bad undefined
    else ok (
        structures abi.symbol abi.sizeof_symbol count (
          take symtab.sh_size (drop symtab.sh_offset data_)
          ++ replicate (count * abi.sizeof_symbol) 0))

unfoldable pub parse_symbol_table :
    ElfAbi → List ℕ → List (List ℕ × ℕ) → List Section → Outcome (List Symbol)
unfolding get_section or_else read_symbols
parse_symbol_table abi data_ m sections =
    elim (or_else (get_section m sections (codes ".symtab"))
      (get_section m sections (codes ".dynsym"))) [
        | none ↦ ok []
        | some symtab ↦ read_symbols abi data_ symtab
      ]

-- `get_string`: a name of the table `.strtab`, or of `.dynstr` where there is none.
unfoldable pub get_string : List ℕ → List (List ℕ × ℕ) → List Section → ℕ → Outcome (List ℕ)
unfolding get_section or_else c_string
get_string data_ m sections index =
    elim (or_else (get_section m sections (codes ".strtab"))
      (get_section m sections (codes ".dynstr"))) [
        | none ↦ ok []
        | some strtab ↦ c_string (drop (strtab.sh_offset + index) data_)
      ]
