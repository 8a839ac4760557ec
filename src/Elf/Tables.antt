-- ===== src/Elf/Tables.antt =====
-- The lookups of symbols by address, against one pass over the symbol table.
use sdb_building_a_debugger.Base.{
  ℕ, suc, ◌≡◌, ◌≤◌, refl, sym, ap, ◌∙◌, arith, Bool, true, false, ◌&&◌, not, ◌+◌, ◌%◌, ◌^◌, List,
  [], ◌∷◌, Option, none, some, ◌==◌, if◌then◌else◌, Bool-cases, Option-cases, inl, inr,
}
use sdb_building_a_debugger.Elf.Types.{Symbol, Range, Elf}
use sdb_building_a_debugger.Elf.Build.{or_else}
use sdb_building_a_debugger.Elf.Symbols.{has_address, addr_range, map_ranges}
use sdb_building_a_debugger.Elf.Ranges.{insert_range, find_start, find_containing}
use sdb_building_a_debugger.Elf.Addresses.{
  place_of, is_empty, symbol_at_file, symbol_containing_file,
}
use sdb_building_a_debugger.Elf.Ranges.Sorted.{
  Above, Sorted, last_from, better, covering, insert_range-Sorted, last_from-insert,
  find_containing-covering,
}

-- One pass over the symbol table: the symbol with an address (neither it nor the name is 0, and the
-- type is not `STT_TLS`, which is 6) that starts last among those that start at or before `a`, and the
-- first of these in the table where they start at one address; with its place and where it ends.
abbrev pub nearest : ℕ → ℕ → List Symbol → Option Range → Option Range
nearest a i [] c = c
nearest a i (symbol ∷ symbols) c = nearest a (suc i) symbols (
    if not (symbol.st_value == 0) && not (symbol.st_name == 0) && not (symbol.st_info % 16 == 6)
    then better a
        (record {
          first = symbol.st_value;
          second = (symbol.st_value + symbol.st_size) % 2 ^ 64;
          place = i;
        })
        c
    else c)

-- The first symbol of the table with an address that starts at `a`.
abbrev pub first_at : ℕ → ℕ → List Symbol → Option ℕ
first_at a i [] = none
first_at a i (symbol ∷ symbols) =
    let rest = first_at a (suc i) symbols in
    if not (symbol.st_value == 0)
      && not (symbol.st_name == 0)
      && not (symbol.st_info % 16 == 6)
      && symbol.st_value == a
    then some i
    else rest

pub map_ranges-Sorted :
    (i : ℕ) (symbols : List Symbol) (m : List Range) → Sorted m → Sorted (map_ranges i symbols m)
unfolding map_ranges
map_ranges-Sorted i [] m h = h
map_ranges-Sorted i (symbol ∷ symbols) m h = elim (Bool-cases (has_address symbol)) [
  | inl e ↦ rw e (
      map_ranges-Sorted (suc i) symbols (insert_range (addr_range symbol i) m)
        (insert_range-Sorted (addr_range symbol i) m h))
  | inr e ↦ rw e (map_ranges-Sorted (suc i) symbols m h)
]

last_from-map_ranges :
    (a i : ℕ) (symbols : List Symbol) (m : List Range)
    → Sorted m
    → last_from (map_ranges i symbols m) a ≡ nearest a i symbols (last_from m a)
unfolding map_ranges has_address addr_range
last_from-map_ranges a i [] m h = refl
last_from-map_ranges a i (symbol ∷ symbols) m h = elim (Bool-cases (has_address symbol)) [
  | inl e ↦
      rw (e, sym (last_from-insert (addr_range symbol i) m a h))
        (last_from-map_ranges a (suc i) symbols (insert_range (addr_range symbol i) m)
          (insert_range-Sorted (addr_range symbol i) m h))
  | inr e ↦ rw e (last_from-map_ranges a (suc i) symbols m h)
]

abbrev start_place : List Range → ℕ → Option ℕ
start_place m a = place_of (find_start m a)

start_place-Above : (n a : ℕ) (m : List Range) → Above n m → a ≤ n → start_place m a ≡ none
unfolding find_start
start_place-Above n a [] h g = refl
start_place-Above n a (x ∷ m) h g = ground (arith, start_place-Above n a m h.1 g)

start_place-insert :
    (r : Range) (m : List Range) (a : ℕ)
    → Sorted m
    → start_place (insert_range r m) a
      ≡ or_else (start_place m a) (if r.first == a then some r.place else none)
unfolding insert_range find_start or_else
start_place-insert r [] a h = ground arith
start_place-insert r (x ∷ m) a h =
    ground (arith, start_place-insert r m a h.1, start_place-Above x.first a m h.0)

or_else-or_else :
    (o : Option ℕ) (b : Bool) (i : ℕ) (rest : Option ℕ)
    → or_else (or_else o (if b then some i else none)) rest ≡ or_else o (if b then some i else rest)
unfolding or_else
or_else-or_else none true i rest = refl
or_else-or_else none false i rest = refl
or_else-or_else (some k) b i rest = refl

start_place-map_ranges :
    (a i : ℕ) (symbols : List Symbol) (m : List Range)
    → Sorted m
    → start_place (map_ranges i symbols m) a ≡ or_else (start_place m a) (first_at a i symbols)
unfolding map_ranges has_address addr_range or_else
start_place-map_ranges a i [] m h = elim (Option-cases (start_place m a)) [
  | inl e ↦ ground arith
  | inr (k, e) ↦ ground arith
]
start_place-map_ranges a i (symbol ∷ symbols) m h =
    let start = addr_range symbol i in
    let larger = insert_range start m in
    elim (Bool-cases (has_address symbol)) [
      | inr e ↦ rw (e) (start_place-map_ranges a (suc i) symbols m h)
      | inl e ↦ rw e (
          start_place-map_ranges a (suc i) symbols larger (insert_range-Sorted start m h)
          ∙ (rw (start_place-insert start m a h) (
              or_else-or_else (start_place m a) (symbol.st_value == a) i
                (first_at a (suc i) symbols))))
    ]

find_containing_any :
    (m : List Range) (a : ℕ)
    → (if is_empty m then none else find_containing m a) ≡ find_containing m a
unfolding find_containing
find_containing_any [] a = refl
find_containing_any (x ∷ m) a = refl

-- Where the map was built from the symbol table, the symbol that `get_symbol_containing_address`
-- gives for an address of this file is found by one pass over the table: among the symbols that
-- have an address (it and the name are not 0, and the type is not `STT_TLS`) and start at or before
-- `a`, it is the one that starts last, the first of these in the table, and it is given exactly if it
-- starts at `a` or ends behind `a`.
pub symbol_containing_file-nearest :
    (obj : Elf) (a : ℕ)
    → obj.symbol_addr_map ≡ map_ranges 0 obj.symbol_table []
    → symbol_containing_file obj (record { elf = some obj.number; addr = a })
      ≡ covering a (nearest a 0 obj.symbol_table none)
unfolding symbol_containing_file
symbol_containing_file-nearest obj a e =
    let same : (obj.number == obj.number) ≡ true = ground arith in
    rw
      (
        same,
        find_containing_any obj.symbol_addr_map a,
        e,
        find_containing-covering (map_ranges 0 obj.symbol_table []) a
            (map_ranges-Sorted 0 obj.symbol_table [] tt),
      )
      (ap (covering a) (last_from-map_ranges a 0 obj.symbol_table [] tt))

-- Where the map was built from the symbol table, `get_symbol_at_address` gives the first symbol of the
-- table that has an address and starts there.
pub symbol_at_file-first_at :
    (obj : Elf) (a : ℕ)
    → obj.symbol_addr_map ≡ map_ranges 0 obj.symbol_table []
    → symbol_at_file obj (record { elf = some obj.number; addr = a })
      ≡ first_at a 0 obj.symbol_table
unfolding symbol_at_file find_start or_else
symbol_at_file-first_at obj a e =
    let same : (obj.number == obj.number) ≡ true = ground arith in
    rw (same, e) (start_place-map_ranges a 0 obj.symbol_table [] tt)
