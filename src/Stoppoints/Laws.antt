-- ===== src/Stoppoints/Laws.antt =====
-- Lookups in a collection: include/libsdb/stoppoint_collection.hpp.
use sdb_building_a_debugger.Base.{
  ℕ, zero, suc, ◌≡◌, refl, Bool, true, false, List, [], ◌∷◌, ◌++◌, length, none, some, ◌⊎◌, inl,
  inr, Bool-cases,
}
use sdb_building_a_debugger.Process.Run.{ok, bad, error}
use sdb_building_a_debugger.Stoppoints.{
  Stoppoint, find_index, contains_address, get_by_address, is_found, or_error,
}

-- No element before the place passes the test, and the one there does.
abbrev pub FirstAt : {S : Type 0} → (S → Bool) → List S → ℕ → Type 0
FirstAt test [] i = ⊥
FirstAt test (x ∷ xs) zero = test x ≡ true
FirstAt test (x ∷ xs) (suc i) = (test x ≡ false) × FirstAt test xs i

abbrev pub NoneIs : {S : Type 0} → (S → Bool) → List S → Type 0
NoneIs test [] = Unit {0}
NoneIs test (x ∷ xs) = (test x ≡ false) × NoneIs test xs

-- `std::find_if` either finds the first element that passes, or no element does.
find_index_cases :
    {S : Type 0} (test : S → Bool) (xs : List S)
    → ((find_index test xs ≡ none) × NoneIs test xs)
      ⊎ ((i : ℕ) × (find_index test xs ≡ some i) × FirstAt test xs i)
unfolding find_index
find_index_cases test [] = inl (refl, tt)
find_index_cases test (x ∷ xs) = elim (Bool-cases (test x)) [
  | inl hit ↦ inr (0, rw hit, hit)
  | inr miss ↦ elim (find_index_cases test xs) [
    | inl (e, no_more) ↦ inl (rw (miss, e), (miss, no_more))
    | inr (i, e, first) ↦ inr (suc i, rw (miss, e), (miss, first))
  ]
]

pub find_index_append :
    {S : Type 0} (test : S → Bool) (xs : List S) (x : S)
    → NoneIs test xs
    → test x ≡ true
    → find_index test (xs ++ x ∷ []) ≡ some (length xs)
unfolding find_index
find_index_append test [] x h e = rw e
find_index_append test (y ∷ ys) x h e = rw (h.0, find_index_append test ys x h.1 e)

module _ {S : Type 0} ⦃s : Stoppoint S⦄ where
  -- `contains_address` holds exactly where `get_by_address` returns a reference; that reference is to the
  -- first point at the address. Otherwise `get_by_address` throws, and no point is at the address.
  pub get_by_address_cases :
      (points : List S) (address : ℕ)
      → ((contains_address points address ≡ true)
          × ((i : ℕ) × (get_by_address points address ≡ ok i)
              × FirstAt (λ x. s.at_address x address) points i))
        ⊎ ((contains_address points address ≡ false)
            × (get_by_address points address ≡ bad (error "stoppoint with given address not found"))
            × NoneIs (λ x. s.at_address x address) points)
  unfolding contains_address get_by_address
  get_by_address_cases points address =
      elim (find_index_cases (λ x. s.at_address x address) points) [
        | inl (e, no_more) ↦ inr (rw (e, is_found), rw (e, or_error), no_more)
        | inr (i, e, first) ↦ inl (rw (e, is_found), (i, rw (e, or_error), first))
      ]
