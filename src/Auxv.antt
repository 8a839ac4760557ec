-- ===== src/Auxv.antt =====
-- `process::get_auxv` of src/process.cpp.
pub mod Entries
use sdb_building_a_debugger.Base.{
  ℕ, zero, suc, ◌%◌, ◌^◌, List, [], ◌∷◌, ◌++◌, length, take, drop, Option, none, some, leb, ◌==◌,
  if◌then◌else◌, le_value, le_bytes,
}
use sdb_building_a_debugger.Process.Run.{Outcome, ok, bad, out_of_fuel}

-- An `std::ifstream`: what is left of the file, or none after a failure.
abbrev pub Stream : Type 0
Stream = Option (List ℕ)

-- `auxv.read` into a 64-bit number. At the end of the file the bytes that are left overwrite the first
-- bytes of the number, and the stream fails; a stream that has failed reads nothing.
unfoldable pub read_into : ℕ → Stream → ℕ × Stream
read_into old none = (old, none)
read_into old (some bytes) =
    if leb 8 (length bytes)
    then (le_value (take 8 bytes), some (drop 8 bytes))
    else (le_value (bytes ++ drop (length bytes) (le_bytes 8 old)), none)

-- `ret[id] = value`; the key is the `int` that `id` is converted to, as its 32-bit pattern.
unfoldable pub assign_entry : ℕ → ℕ → List (ℕ × ℕ) → List (ℕ × ℕ)
assign_entry id value [] = (id % 2 ^ 32, value) ∷ []
assign_entry id value ((known, old) ∷ ret) =
    let rest = assign_entry id value ret in
    if known == id % 2 ^ 32 then (known, value) ∷ ret else (known, old) ∷ rest

-- The loop, from the id that was read last; `AT_NULL` is 0. A file without an `AT_NULL` makes it run for
-- ever.
unfoldable pub read_entries : ℕ → ℕ → ℕ → Stream → List (ℕ × ℕ) → Outcome (List (ℕ × ℕ))
unfolding read_into assign_entry
read_entries zero id value stream ret = bad out_of_fuel
read_entries (suc fuel) id value stream ret =
    let (new_value, behind_value) = read_into value stream in
    let (new_id, behind_id) = read_into id behind_value in
    let rest = read_entries fuel new_id new_value behind_id (assign_entry id new_value ret) in
    if id == 0 then ok ret else rest

-- `file` is the content of /proc/<pid>/auxv; the two variables start uninitialised.
unfoldable pub get_auxv : ℕ → ℕ → ℕ → List ℕ → Outcome (List (ℕ × ℕ))
unfolding read_entries
get_auxv fuel id value file =
    let (new_id, stream) = read_into id (some file) in read_entries fuel new_id value stream []
