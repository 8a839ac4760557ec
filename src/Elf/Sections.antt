-- ===== src/Elf/Sections.antt =====
-- The map from the names of the sections, and the lookup by name.
use sdb_building_a_debugger.Base.{
  ℕ, suc, ◌+◌, ◌≡◌, refl, sym, arith, true, List, [], ◌∷◌, All, text_eq, drop, get_elem?, Option,
  none, some, if◌then◌else◌, Bool-cases, inl, inr,
}
use sdb_building_a_debugger.Process.Run.{Outcome, ok, bad, and_then}
use sdb_building_a_debugger.Elf.Types.{FileHeader, Section}
use sdb_building_a_debugger.Elf.Build.{
  c_string, get_section_name, assign, find_name, map_sections, build_section_map, get_section,
}

-- The place of the last section with a name, or `found` where there is none.
abbrev pub last_named : (ℕ → List ℕ) → List ℕ → ℕ → List Section → Option ℕ → Option ℕ
last_named name_of name i [] found = found
last_named name_of name i (section ∷ sections) found =
    last_named name_of name (suc i) sections
      (if text_eq (name_of section.sh_name) name then some i else found)

abbrev pub at_place : List Section → Option ℕ → Option Section
at_place sections none = none
at_place sections (some i) = get_elem? sections i

text_eq_trans : (j k name : List ℕ) → text_eq j k ≡ true → text_eq j name ≡ text_eq k name
text_eq_trans [] [] name e = refl
text_eq_trans [] (y ∷ k) name e = cc
text_eq_trans (x ∷ j) [] name e = cc
text_eq_trans (x ∷ j) (y ∷ k) [] e = refl
text_eq_trans (x ∷ j) (y ∷ k) (z ∷ name) e = ground (arith, text_eq_trans j k name)

text_eq_comm : (j k : List ℕ) → text_eq j k ≡ text_eq k j
text_eq_comm [] [] = refl
text_eq_comm [] (y ∷ k) = refl
text_eq_comm (x ∷ j) [] = refl
text_eq_comm (x ∷ j) (y ∷ k) = ground (arith, text_eq_comm j k)

find_name-assign :
    (k name : List ℕ) (v : ℕ) (m : List (List ℕ × ℕ))
    → find_name (assign k v m) name ≡ (if text_eq k name then some v else find_name m name)
unfolding find_name assign
find_name-assign k name v [] = refl
find_name-assign k name v ((j, w) ∷ m) = elim (Bool-cases (text_eq j k)) [
  | inl e ↦ ground (arith, text_eq_trans j k name e)
  | inr e ↦ ground (arith, find_name-assign k name v m, text_eq_trans j name k, text_eq_comm name k)
]

-- The names of the sections, where all of them can be read.
abbrev pub AreNames : (ℕ → Outcome (List ℕ)) → (ℕ → List ℕ) → List Section → Type 0
AreNames read name_of sections = All (λ s. read s.sh_name ≡ ok (name_of s.sh_name)) sections

-- Where every name can be read, the map holds the last section with each name.
find_name-map_sections :
    (read : ℕ → Outcome (List ℕ)) (name_of : ℕ → List ℕ) (name : List ℕ) (i : ℕ)
    (sections : List Section) (m : List (List ℕ × ℕ))
    → AreNames read name_of sections
    → and_then (map_sections read i sections m) (λ built. ok (find_name built name))
      ≡ ok (last_named name_of name i sections (find_name m name))
unfolding map_sections
find_name-map_sections read name_of name i [] m h = refl
find_name-map_sections read name_of name i (section ∷ sections) m h =
    rw (h.0, sym (find_name-assign (name_of section.sh_name) name i m))
      (find_name-map_sections read name_of name (suc i) sections
        (assign (name_of section.sh_name) i m) h.1)

get_section_lem :
    (r : Outcome (List (List ℕ × ℕ))) (sections : List Section) (name : List ℕ) (place : Option ℕ)
    → and_then r (λ built. ok (find_name built name)) ≡ ok place
    → and_then r (λ built. ok (get_section built sections name)) ≡ ok (at_place sections place)
unfolding get_section
get_section_lem (bad x) sections name place e = ground arith
get_section_lem (ok m) sections name none e = ground arith
get_section_lem (ok m) sections name (some i) e = ground arith

section_names :
    (header : FileHeader) (all sections : List Section) (data_ : List ℕ) (name_of : ℕ → List ℕ)
    (table : Section)
    → get_elem? all header.e_shstrndx ≡ some table
    → AreNames (λ n. c_string (drop (table.sh_offset + n) data_)) name_of sections
    → AreNames (get_section_name header all data_) name_of sections
unfolding get_section_name
section_names header all [] data_ name_of table e h = tt
section_names header all (section ∷ sections) data_ name_of table e h =
    (rw (get_section_name, e) h.0, section_names header all sections data_ name_of table e h.1)

-- Where `e_shstrndx` is in range, and the name of every section is a string that ends in the mapping:
-- the map of the sections can be built, and `get_section` then gives the last section of the table
-- whose name, a string of the section that `e_shstrndx` names, is the one asked for.
pub get_section-build_section_map :
    (header : FileHeader) (sections : List Section) (data_ name : List ℕ) (name_of : ℕ → List ℕ)
    (table : Section)
    → get_elem? sections header.e_shstrndx ≡ some table
    → AreNames (λ n. c_string (drop (table.sh_offset + n) data_)) name_of sections
    → and_then
        (build_section_map header sections data_)
        (λ built. ok (get_section built sections name))
      ≡ ok (at_place sections (last_named name_of name 0 sections none))
unfolding build_section_map get_section
get_section-build_section_map header sections data_ name name_of table e h =
    get_section_lem (build_section_map header sections data_) sections name
      (last_named name_of name 0 sections none)
      (find_name-map_sections (get_section_name header sections data_) name_of name 0 sections []
        (section_names header sections sections data_ name_of table e h))
