-- ===== src/Cli/Words.antt =====
-- `split` and `is_prefix` of tools/sdb.cpp.
pub mod Laws
use sdb_building_a_debugger.Base.{
  ℕ, Bool, true, false, ◌&&◌, List, [], ◌∷◌, ◌++◌, length, take, text_eq, ltb, ◌==◌, if◌then◌else◌,
}

-- An item that would begin at the end of the text is none.
abbrev pub last_item : List ℕ → List (List ℕ)
last_item [] = []
last_item (x ∷ item) = (x ∷ item) ∷ []

-- `std::getline` until the stream is at its end: `item` is what was read of the next item.
unfoldable pub split_from : ℕ → List ℕ → List ℕ → List (List ℕ)
split_from delimiter item [] = last_item item
split_from delimiter item (c ∷ cs) = elim (c == delimiter) [
  | true ↦ item ∷ split_from delimiter [] cs
  | false ↦ split_from delimiter (item ++ c ∷ []) cs
]

unfoldable pub split : List ℕ → ℕ → List (List ℕ)
unfolding split_from
split str delimiter = split_from delimiter [] str

unfoldable pub is_prefix : List ℕ → List ℕ → Bool
is_prefix str of =
    if ltb (length of) (length str) then false else text_eq str (take (length str) of)
