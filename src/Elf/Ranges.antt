-- ===== src/Elf/Ranges.antt =====
-- `symbol_addr_map_` of src/elf.cpp, a `std::map` whose order compares the starts of the ranges.
pub mod Sorted
use sdb_building_a_debugger.Base.{
  ℕ, zero, suc, Bool, true, false, ◌&&◌, List, [], ◌∷◌, get_elem?, Option, none, some, ltb, leb,
  ◌==◌, if◌then◌else◌,
}
use sdb_building_a_debugger.Elf.Types.{Range}

-- `insert`: an entry whose range starts where another does is not put in.
unfoldable pub insert_range : Range → List Range → List Range
insert_range r [] = r ∷ []
insert_range r (x ∷ xs) =
    let rest = insert_range r xs in
    if ltb r.first x.first then r ∷ x ∷ xs else if ltb x.first r.first then x ∷ rest else x ∷ xs

-- `find`, and the place of `lower_bound`: the first range that does not start before an address.
unfoldable pub find_start : List Range → ℕ → Option Range
find_start [] a = none
find_start (x ∷ xs) a = if x.first == a then some x else find_start xs a

unfoldable pub lower_bound : List Range → ℕ → ℕ
lower_bound [] a = 0
lower_bound (x ∷ xs) a = let next = suc (lower_bound xs a) in if ltb x.first a then next else 0

-- The entry before a place; there is none before the first.
unfoldable pub before : List Range → ℕ → Option Range
before xs zero = none
before xs (suc i) = get_elem? xs i

-- The symbol of the range before, if it starts before the address and ends behind it.
unfoldable pub spans : ℕ → Option Range → Option ℕ
spans a none = none
spans a (some r) = if ltb r.first a && ltb a r.second then some r.place else none

-- The search of `get_symbol_containing_address`.
unfoldable pub find_containing : List Range → ℕ → Option ℕ
unfolding lower_bound before spans
find_containing ranges a =
    let it = lower_bound ranges a in
    let preceding = spans a (before ranges it) in
    elim (get_elem? ranges it) [
      | none ↦ preceding
      | some r ↦ if r.first == a then some r.place else preceding
    ]
