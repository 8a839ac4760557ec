-- ===== src/Elf/Ranges/Sorted.antt =====
-- The order of the ranges, and the searches as choices of the last range that starts at or before an
-- address.
use sdb_building_a_debugger.Base.{
  ℕ, ◌≤◌, ◌<◌, ◌≡◌, refl, arith, ◌&&◌, ◌||◌, List, [], ◌∷◌, get_elem?, Option, none, some, ltb, leb,
  ◌==◌, if◌then◌else◌, Bool-cases, Option-cases, inl, inr,
}
use sdb_building_a_debugger.Elf.Types.{Range}
use sdb_building_a_debugger.Elf.Ranges.{insert_range, lower_bound, before, spans, find_containing}

-- All ranges start behind an address, and the ranges start in ascending order.
abbrev pub Above : ℕ → List Range → Type 0
Above n [] = Unit {0}
Above n (x ∷ xs) = (n < x.first) × Above n xs

abbrev pub Sorted : List Range → Type 0
Sorted [] = Unit {0}
Sorted (x ∷ xs) = Above x.first xs × Sorted xs

-- The last range that starts at or before an address.
abbrev pub last_from : List Range → ℕ → Option Range
last_from [] a = none
last_from (x ∷ xs) a =
    if leb x.first a then elim (last_from xs a) [ none ↦ some x | some y ↦ some y ] else none

-- What another range changes about the choice.
abbrev pub better : ℕ → Range → Option Range → Option Range
better a r none = if leb r.first a then some r else none
better a r (some c) = if leb r.first a && ltb c.first r.first then some r else some c

-- The symbol of the chosen range, if it starts at the address or ends behind it.
abbrev pub covering : ℕ → Option Range → Option ℕ
covering a none = none
covering a (some r) = if r.first == a || ltb a r.second then some r.place else none

Above-insert :
    (n : ℕ) (r : Range) (xs : List Range) → n < r.first → Above n xs → Above n (insert_range r xs)
unfolding insert_range
Above-insert n r [] h g = (h, tt)
Above-insert n r (x ∷ xs) h g = ground (arith, Above-insert n r xs h g.1)

Above-weaken : (m n : ℕ) (xs : List Range) → m ≤ n → Above n xs → Above m xs
Above-weaken m n [] h g = tt
Above-weaken m n (x ∷ xs) h g = (omega arith, Above-weaken m n xs h g.1)

pub insert_range-Sorted : (r : Range) (xs : List Range) → Sorted xs → Sorted (insert_range r xs)
unfolding insert_range
insert_range-Sorted r [] h = (tt, tt)
insert_range-Sorted r (x ∷ xs) h = elim (Bool-cases (ltb r.first x.first)) [
  | inl below ↦ ground (arith, Above-weaken r.first x.first xs (ground arith) h.0)
  | inr above ↦ elim (Bool-cases (ltb x.first r.first)) [
    | inl behind ↦
        ground (arith, Above-insert x.first r xs (ground arith) h.0, insert_range-Sorted r xs h.1)
    | inr same ↦ ground arith
  ]
]

last_from-none : (n a : ℕ) (xs : List Range) → Above n xs → a ≤ n → last_from xs a ≡ none
last_from-none n a [] h g = refl
last_from-none n a (x ∷ xs) h g = ground arith

last_from-Above :
    (n a : ℕ) (xs : List Range) (y : Range) → Above n xs → last_from xs a ≡ some y → n < y.first
last_from-Above n a [] y h e = cc
last_from-Above n a (x ∷ xs) y h e = elim (Option-cases (last_from xs a)) [
  | inl g ↦ ground arith
  | inr (z, g) ↦ ground (arith, last_from-Above n a xs z h.1)
]

pub last_from-insert :
    (r : Range) (xs : List Range) (a : ℕ)
    → Sorted xs
    → last_from (insert_range r xs) a ≡ better a r (last_from xs a)
unfolding insert_range
last_from-insert r [] a h = ground arith
last_from-insert r (x ∷ xs) a h = elim (Option-cases (last_from xs a)) [
  | inl g ↦ ground (arith, last_from-insert r xs a h.1)
  | inr (z, g) ↦ ground (arith, last_from-insert r xs a h.1, last_from-Above x.first a xs z h.0)
]

-- What the search by `lower_bound` settles on.
abbrev reached : List Range → ℕ → ℕ → Option Range
reached xs a it = elim (get_elem? xs it) [
  | none ↦ before xs it
  | some r ↦ if r.first == a then some r else before xs it
]

-- The search by `lower_bound` finds the last range that starts at or before the address.
last_from-reached :
    (xs : List Range) (a : ℕ) → Sorted xs → last_from xs a ≡ reached xs a (lower_bound xs a)
unfolding lower_bound before
last_from-reached [] a h = refl
last_from-reached (x ∷ []) a h = ground arith
last_from-reached (x ∷ y ∷ ys) a h = elim (Bool-cases (ltb x.first a)) [
  | inl behind ↦ elim (Bool-cases (ltb y.first a)) [
    | inl g ↦ elim (Option-cases (last_from ys a)) [
      | inl e ↦ ground (arith, last_from-reached (y ∷ ys) a h.1)
      | inr (z, e) ↦ ground (arith, last_from-reached (y ∷ ys) a h.1)
    ]
    | inr g ↦ ground (arith, last_from-none y.first a ys h.1.0)
  ]
  | inr g ↦ ground (arith, last_from-none x.first a (y ∷ ys) h.0)
]

last_from_le : (xs : List Range) (a : ℕ) (r : Range) → last_from xs a ≡ some r → r.first ≤ a
last_from_le [] a r e = cc
last_from_le (x ∷ xs) a r e = elim (Option-cases (last_from xs a)) [
  | inl g ↦ ground arith
  | inr (z, g) ↦ ground (arith, last_from_le xs a z)
]

before-lower_bound :
    (xs : List Range) (a : ℕ) (r : Range) → before xs (lower_bound xs a) ≡ some r → r.first < a
unfolding lower_bound before
before-lower_bound [] a r e = cc
before-lower_bound (x ∷ []) a r e = ground arith
before-lower_bound (x ∷ y ∷ ys) a r e = ground (arith, before-lower_bound (y ∷ ys) a r)

spans-covering :
    (a : ℕ) (o : Option Range) → ((r : Range) → o ≡ some r → r.first < a) → spans a o ≡ covering a o
unfolding spans
spans-covering a none h = refl
spans-covering a (some r) h = ground (arith, h r refl)

-- Where the ranges start in ascending order, `get_symbol_containing_address` finds the range that
-- starts last among those that start at or before the address, and gives its symbol exactly if it
-- starts there or ends behind the address.
pub find_containing-covering :
    (xs : List Range) (a : ℕ) → Sorted xs → find_containing xs a ≡ covering a (last_from xs a)
unfolding find_containing
find_containing-covering xs a h =
    let preceding = spans-covering a (before xs (lower_bound xs a)) (before-lower_bound xs a) in
    elim (Option-cases (get_elem? xs (lower_bound xs a))) [
      | inl e ↦ ground (arith, last_from-reached xs a h)
      | inr (r, e) ↦ ground (arith, last_from-reached xs a h)
    ]
