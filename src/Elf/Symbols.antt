-- ===== src/Elf/Symbols.antt =====
-- `build_symbol_maps` and `get_symbols_by_name` of src/elf.cpp.
use sdb_building_a_debugger.Base.{
  ℕ, suc, ◌+◌, ◌%◌, ◌^◌, Bool, ◌&&◌, not, List, [], ◌∷◌, ◌++◌, text_eq, Option, none, some, ◌==◌,
  if◌then◌else◌,
}
use sdb_building_a_debugger.Process.Run.{Outcome, ok, bad, undefined, and_then}
use sdb_building_a_debugger.Elf.Types.{Symbol, Range}
use sdb_building_a_debugger.Elf.Ranges.{insert_range}

-- `STT_TLS` is 6, and `ELF64_ST_TYPE` takes the low four bits.
unfoldable pub has_address : Symbol → Bool
has_address symbol =
    not (symbol.st_value == 0) && not (symbol.st_name == 0) && not (symbol.st_info % 16 == 6)

unfoldable pub addr_range : Symbol → ℕ → Range
addr_range symbol i = record {
  first = symbol.st_value;
  second = (symbol.st_value + symbol.st_size) % 2 ^ 64;
  place = i;
}

-- What the loop of `build_symbol_maps` does to `symbol_addr_map_`; `i` is the place of the next symbol.
unfoldable pub map_ranges : ℕ → List Symbol → List Range → List Range
unfolding has_address addr_range insert_range
map_ranges i [] m = m
map_ranges i (symbol ∷ symbols) m =
    map_ranges (suc i) symbols
      (if has_address symbol then insert_range (addr_range symbol i) m else m)

-- What the loop does to `symbol_name_map_`: the demangled name, which is freed at once, and the
-- mangled one.
unfoldable pub names_of : Option (List ℕ) → List ℕ → ℕ → List (Option (List ℕ) × ℕ)
names_of none mangled i = (some mangled, i) ∷ []
names_of (some demangled) mangled i = (none, i) ∷ (some mangled, i) ∷ []

unfoldable pub map_names :
    (List ℕ → Option (List ℕ))
    → (ℕ → Outcome (List ℕ))
    → ℕ
    → List Symbol
    → Outcome (List (Option (List ℕ) × ℕ))
unfolding names_of
map_names demangle name_of i [] = ok []
map_names demangle name_of i (symbol ∷ symbols) = and_then (name_of symbol.st_name) (λ mangled.
    and_then (map_names demangle name_of (suc i) symbols)
      (λ rest. ok (names_of (demangle mangled) mangled i ++ rest)))

-- `equal_range`: a key that was freed cannot be compared. In which order a multimap keeps equal
-- keys is the library's choice.
unfoldable pub equal_range : List (Option (List ℕ) × ℕ) → List ℕ → Outcome (List ℕ)
equal_range [] name = ok []
equal_range ((none, i) ∷ m) name = bad undefined
equal_range ((some k, i) ∷ m) name =
    and_then (equal_range m name) (λ places. ok (if text_eq k name then i ∷ places else places))
