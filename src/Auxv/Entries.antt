-- ===== src/Auxv/Entries.antt =====
-- The auxiliary vector as the kernel writes it, read back.
use sdb_building_a_debugger.Base.{
  ℕ, zero, suc, ◌^◌, ◌<◌, ◌≡◌, ◌≢◌, refl, ap, arith, true, false, List, [], ◌∷◌, ◌++◌, All, length,
  ◌%◌, Option, none, ◌∙◌, if◌then◌else◌, some, leb, ◌==◌, le_bytes, le_value-le_bytes,
}
use sdb_building_a_debugger.Process.Run.{ok}
use sdb_building_a_debugger.Auxv.{read_into, assign_entry, read_entries, get_auxv}

-- The entries, each an id and a value of eight bytes, and an `AT_NULL` at the end.
abbrev pub auxv_bytes : List (ℕ × ℕ) → List ℕ → List ℕ
auxv_bytes [] rest = le_bytes 8 0 ++ rest
auxv_bytes ((id, value) ∷ entries) rest =
    le_bytes 8 id ++ (le_bytes 8 value ++ auxv_bytes entries rest)

abbrev pub IsEntry : ℕ × ℕ → Type 0
IsEntry (id, value) = (id ≢ 0) × (id < 2 ^ 64) × (value < 2 ^ 64)

-- The map that the entries make, one after the other.
abbrev assigned_all : List (ℕ × ℕ) → List (ℕ × ℕ) → List (ℕ × ℕ)
assigned_all [] ret = ret
assigned_all ((id, value) ∷ entries) ret = assigned_all entries (assign_entry id value ret)

-- The value that a map has for a key.
abbrev pub lookup : ℕ → List (ℕ × ℕ) → Option ℕ
lookup key [] = none
lookup key ((known, value) ∷ ret) = if known == key then some value else lookup key ret

-- The value of the last entry whose id is the key, as an `int`, or `found` where there is none.
abbrev pub last_entry : ℕ → List (ℕ × ℕ) → Option ℕ → Option ℕ
last_entry key [] found = found
last_entry key ((id, value) ∷ entries) found =
    last_entry key entries (if id % 2 ^ 32 == key then some value else found)

lookup-assign_entry :
    (key id value : ℕ) (ret : List (ℕ × ℕ))
    → lookup key (assign_entry id value ret)
      ≡ (if id % 2 ^ 32 == key then some value else lookup key ret)
unfolding assign_entry
lookup-assign_entry key id value [] = refl
lookup-assign_entry key id value ((known, old) ∷ ret) =
    ground (arith, lookup-assign_entry key id value ret)

lookup-assigned_all :
    (key : ℕ) (entries ret : List (ℕ × ℕ))
    → lookup key (assigned_all entries ret) ≡ last_entry key entries (lookup key ret)
lookup-assigned_all key [] ret = refl
lookup-assigned_all key ((id, value) ∷ entries) ret =
    lookup-assigned_all key entries (assign_entry id value ret)
    ∙ ap (last_entry key entries) (lookup-assign_entry key id value ret)

read_into-le_bytes :
    (old n : ℕ) (rest : List ℕ)
    → n < 2 ^ 64
    → read_into old (some (le_bytes 8 n ++ rest)) ≡ (n, some rest)
unfolding read_into
read_into-le_bytes old n rest h =
    let long : leb 8 (length (le_bytes 8 n ++ rest)) ≡ true = ground arith in
    rw long (ap (λ (v : ℕ). (v, some rest)) (le_value-le_bytes 8 n (omega arith)))

-- From the first id on, with a round for each entry and one for the `AT_NULL`.
read_entries-auxv_bytes :
    (entries : List (ℕ × ℕ)) (fuel old value : ℕ) (rest : List ℕ) (ret : List (ℕ × ℕ))
    → All IsEntry entries
    → length entries < fuel
    → (let (id, stream) = read_into old (some (auxv_bytes entries rest)) in
        read_entries fuel id value stream ret)
      ≡ ok (assigned_all entries ret)
unfolding read_entries
read_entries-auxv_bytes entries zero old value rest ret h g = absurd (omega arith)
read_entries-auxv_bytes [] (suc fuel) old value rest ret h g =
    rw (read_into-le_bytes old 0 rest (omega arith)) refl
read_entries-auxv_bytes ((id, v) ∷ entries) (suc fuel) old value rest ret h g =
    let other : (id == 0) ≡ false = ground (arith, h.0.0) in
    rw
      (
        read_into-le_bytes old id (le_bytes 8 v ++ auxv_bytes entries rest) h.0.1,
        read_into-le_bytes value v (auxv_bytes entries rest) h.0.2,
        other,
      )
      (read_entries-auxv_bytes entries fuel id v rest (assign_entry id v ret) h.1 (omega arith))

-- From a file that holds entries of ids other than `AT_NULL` and values, each of eight bytes, and an
-- `AT_NULL` behind them, `get_auxv` makes a map, whatever the variables held before, and the loop ends
-- after a round for each of the entries; the map has for each key the value of the last entry whose
-- id, cut to 32 bits, is the key, and nothing for a key that no entry has.
pub get_auxv-auxv_bytes :
    (entries : List (ℕ × ℕ)) (fuel id value key : ℕ) (rest : List ℕ)
    → All IsEntry entries
    → length entries < fuel
    → (ret : List (ℕ × ℕ)) × (get_auxv fuel id value (auxv_bytes entries rest) ≡ ok ret)
      × (lookup key ret ≡ last_entry key entries none)
unfolding get_auxv
get_auxv-auxv_bytes entries fuel id value key rest h g = (
  assigned_all entries [],
  read_entries-auxv_bytes entries fuel id value rest [] h g,
  lookup-assigned_all key entries [],
)
