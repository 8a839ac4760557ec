-- ===== src/Stoppoints.antt =====
-- include/libsdb/stoppoint_collection.hpp: the vector of stop points that a process owns, for
-- breakpoint sites and for watchpoints. A reference to a point is its place in the vector.
pub mod Laws
use mathlib.Core.Option
use sdb_building_a_debugger.Base.{
  ℕ, zero, suc, Bool, true, false, ◌&&◌, List, [], ◌∷◌, ◌++◌, length, get_elem?, Option, none, some,
  ◌==◌, ltb, leb, if◌then◌else◌, ℤ, int_eq,
}
use sdb_building_a_debugger.Process.State.{Process, BreakpointSite, Watchpoint}
use sdb_building_a_debugger.Process.Run.{
  Outcome, ok, bad, M, ◌>>=◌, ◌>>◌, get, put, or_throw, error, undefined,
}

-- What the template asks of its argument.
pub record Stoppoint (S : Type 0) : Type 0 where
  pub id : S → ℤ
  pub address : S → ℕ
  pub is_enabled : S → Bool
  pub at_address : S → ℕ → Bool
  pub in_range : S → ℕ → ℕ → Bool

-- `at_address` and `in_range` of include/libsdb/breakpoint_site.hpp.
instance abbrev pub breakpoint_stoppoint : Stoppoint BreakpointSite
breakpoint_stoppoint = record {
  id = λ s. s.id;
  address = λ s. s.address;
  is_enabled = λ s. s.is_enabled;
  at_address = λ s addr. s.address == addr;
  in_range = λ s low high. leb low s.address && ltb s.address high;
}

-- `at_address` and `in_range` of include/libsdb/watchpoint.hpp.
instance abbrev pub watchpoint_stoppoint : Stoppoint Watchpoint
watchpoint_stoppoint = record {
  id = λ s. s.id;
  address = λ s. s.address;
  is_enabled = λ s. s.is_enabled;
  at_address = λ s addr. s.address == addr;
  in_range = λ s low high. leb low s.address && ltb s.address high;
}

-- `std::find_if` as a place, and `std::vector::erase`.
unfoldable pub find_index : {S : Type 0} → (S → Bool) → List S → Option ℕ
find_index test [] = none
find_index test (x ∷ xs) = if test x then some 0 else Option.map suc (find_index test xs)

unfoldable pub erase : {S : Type 0} → List S → ℕ → List S
erase [] i = []
erase (x ∷ xs) zero = xs
erase (x ∷ xs) (suc i) = x ∷ erase xs i

unfoldable pub is_found : Option ℕ → Bool
is_found none = false
is_found (some i) = true

unfoldable pub or_error : Option ℕ → Outcome ℕ → Outcome ℕ
or_error none e = e
or_error (some i) e = ok i

module _ {S : Type 0} ⦃s : Stoppoint S⦄ where
  unfoldable pub push : List S → S → List S
  push points bs = points ++ bs ∷ []

  unfoldable pub find_by_id : List S → ℤ → Option ℕ
  unfolding find_index
  find_by_id points id = find_index (λ point. int_eq (s.id point) id) points

  unfoldable pub find_by_address : List S → ℕ → Option ℕ
  unfolding find_index
  find_by_address points address = find_index (λ point. s.at_address point address) points

  unfoldable pub contains_id : List S → ℤ → Bool
  unfolding find_by_id is_found
  contains_id points id = is_found (find_by_id points id)

  unfoldable pub contains_address : List S → ℕ → Bool
  unfolding find_by_address is_found
  contains_address points address = is_found (find_by_address points address)

  unfoldable pub get_by_id : List S → ℤ → Outcome ℕ
  unfolding find_by_id or_error
  get_by_id points id = or_error (find_by_id points id) (bad (error "invalid stoppoint id"))

  unfoldable pub get_by_address : List S → ℕ → Outcome ℕ
  unfolding find_by_address or_error
  get_by_address points address =
      or_error (find_by_address points address)
        (bad (error "stoppoint with given address not found"))

  -- `is_enabled()` through a reference.
  unfoldable pub enabled_ref : List S → Outcome ℕ → Bool
  enabled_ref points (bad e) = false
  enabled_ref points (ok i) = elim (get_elem? points i) [ none ↦ false | some x ↦ s.is_enabled x ]

  unfoldable pub enabled_stoppoint_at_address : List S → ℕ → Bool
  unfolding contains_address get_by_address enabled_ref
  enabled_stoppoint_at_address points address =
      contains_address points address && enabled_ref points (get_by_address points address)

  unfoldable pub get_in_region : List S → ℕ → ℕ → List S
  get_in_region [] low high = []
  get_in_region (site ∷ sites) low high =
      let rest = get_in_region sites low high in
      if s.in_range site low high then site ∷ rest else rest

  unfoldable pub size : List S → ℕ
  size points = length points

  unfoldable pub empty : List S → Bool
  empty [] = true
  empty (x ∷ xs) = false

-- Which of the two vectors of a process an operation works on.
pub record Collection (W S : Type 0) : Type 0 where
  pub points : Process W → List S
  pub with_points : Process W → List S → Process W

abbrev pub breakpoints : {W : Type 0} → Collection W BreakpointSite
breakpoints = record {
  points = λ p. p.breakpoint_sites;
  with_points = λ p xs. record p { breakpoint_sites = xs };
}

abbrev pub watches : {W : Type 0} → Collection W Watchpoint
watches = record {
  points = λ p. p.watchpoints;
  with_points = λ p xs. record p { watchpoints = xs };
}

-- `remove_by_id` and `remove_by_address`: without a match the source dereferences `end()`.
module _ {W S : Type 0} ⦃s : Stoppoint S⦄ (c : Collection W S) (disable : ℕ → M W (Unit {0})) where
  unfoldable pub remove_found : Option ℕ → M W (Unit {0})
  unfolding erase
  remove_found place = do
    i ← or_throw place undefined
    disable i
    p ← get
    put (c.with_points p (erase (c.points p) i))

  unfoldable pub remove_by_id : ℤ → M W (Unit {0})
  unfolding remove_found find_by_id
  remove_by_id id = do p ← get; remove_found (find_by_id (c.points p) id)

  unfoldable pub remove_by_address : ℕ → M W (Unit {0})
  unfolding remove_found find_by_address
  remove_by_address address = do p ← get; remove_found (find_by_address (c.points p) address)
