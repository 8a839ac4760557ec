-- ===== src/Parse/Ends.antt =====
-- The loop of the general `parse_vector` of include/libsdb/parse.hpp ends.
use sdb_building_a_debugger.Base.{
  ℕ, zero, suc, ◌≤◌, ◌<◌, ◌≡◌, ◌≢◌, arith, List, [], ◌∷◌, length, length-drop, drop, get_or, ◌==◌,
  Bool-cases, inl, inr,
}
use sdb_building_a_debugger.Process.Run.{ok, bad, out_of_fuel, Outcome-cases}
use sdb_building_a_debugger.Parse.{
  Parsed, nullopt, value, indeterminate, to_integral, value_of, window, byte_at, expect, expect_end,
  separator, bytes_until, parse_vector,
}

value_of_ends : {A : Type 0} (r : Parsed A) → value_of r ≢ bad out_of_fuel
unfolding value_of
value_of_ends nullopt e = cc
value_of_ends (value a) e = cc
value_of_ends indeterminate e = cc

byte_at_ends : (text : List ℕ) → byte_at text ≢ bad out_of_fuel
unfolding byte_at
byte_at_ends text = value_of_ends (to_integral 8 16 (window text))

separator_ends : (text : List ℕ) → separator text ≢ bad out_of_fuel
unfolding separator
separator_ends [] e = cc
separator_ends (c ∷ cs) e = ground arith

separator_shorter :
    (text rest : List ℕ)
    → separator text ≡ ok rest
    → (0 < length text) × (length rest ≤ length text)
unfolding separator
separator_shorter [] rest e = cc
separator_shorter (c ∷ cs) rest e = ground arith

bytes_until_ends :
    (fuel : ℕ) (text : List ℕ) → length text < fuel → bytes_until fuel text ≢ bad out_of_fuel
unfolding bytes_until
bytes_until_ends zero text h e = absurd (omega arith)
bytes_until_ends (suc fuel) text h e = elim (Bool-cases (get_or text 0 0 == b']')) [
  | inl closing ↦ ground arith
  | inr more ↦ elim (Outcome-cases (byte_at text)) [
    | inr (x, d) ↦ ground (arith, byte_at_ends text)
    | inl (b, d) ↦ elim (Outcome-cases (separator (drop 4 text))) [
      | inr (x, k) ↦ ground (arith, separator_ends (drop 4 text))
      | inl (rest, k) ↦
          let less = separator_shorter (drop 4 text) rest k in
          let fits : length rest < fuel = omega (arith, length-drop 4 text, less.0, less.1) in
          elim (Outcome-cases (bytes_until fuel rest)) [
            | inr (x, l) ↦ ground (arith, bytes_until_ends fuel rest fits)
            | inl (found, l) ↦ ground arith
          ]
    ]
  ]
]

expect_end_ends : (text : List ℕ) → expect_end "invalid format" text ≢ bad out_of_fuel
unfolding expect_end
expect_end_ends [] e = cc
expect_end_ends (c ∷ cs) e = cc

-- The loop of `parse_vector` ends on every text: the rounds that are given to it are enough.
pub parse_vector_ends : (text : List ℕ) → parse_vector text ≢ bad out_of_fuel
unfolding parse_vector expect
parse_vector_ends [] e = cc
parse_vector_ends (c ∷ cs) e = elim (Bool-cases (c == b'[')) [
  | inr other ↦ ground arith
  | inl open_bracket ↦ elim (Outcome-cases (bytes_until (suc (length cs)) cs)) [
    | inr (x, l) ↦ ground (arith, bytes_until_ends (suc (length cs)) cs (omega arith))
    | inl (found, l) ↦ elim (Outcome-cases (expect_end "invalid format" found.1)) [
      | inl (u, m) ↦ ground arith
      | inr (x, m) ↦ ground (arith, expect_end_ends found.1)
    ]
  ]
]
