-- ===== src/Syscalls/Laws.antt =====
-- The two lookups of src/syscalls.cpp are inverse to each other.
use sdb_building_a_debugger.Base.{
  ℕ, ◌≡◌, ◌↔◌, refl, ap, arith, Bool, true, false, ◌&&◌, String, List, [], ◌∷◌, codes, text_eq,
  text_eq_iff, ◌==◌, Bool-cases, inl, inr,
}
use sdb_building_a_debugger.Process.Run.{Outcome, ok, bad}
use sdb_building_a_debugger.Syscalls.Table.{
  g_syscalls, id_of, name_of, syscall_name_to_id, syscall_id_to_name,
}

abbrev gives_id : ℕ → Outcome ℕ → Bool
gives_id id (ok found) = found == id
gives_id id (bad e) = false

abbrev gives_name : List ℕ → Outcome (List ℕ) → Bool
gives_name name (ok found) = text_eq found name
gives_name name (bad e) = false

-- Every row is the first with its name and the first with its number.
abbrev all_found : List (String × ℕ) → Bool
all_found [] = true
all_found ((name, id) ∷ rows) =
    gives_id id (syscall_name_to_id (codes name))
    && (gives_name (codes name) (syscall_id_to_name id) && all_found rows)

table_found : all_found g_syscalls ≡ true
unfolding g_syscalls syscall_name_to_id syscall_id_to_name id_of name_of
table_found = refl

gives_id_lem : (id : ℕ) (r : Outcome ℕ) → gives_id id r ≡ true → r ≡ ok id
gives_id_lem id (ok found) h = ground arith
gives_id_lem id (bad e) h = cc

gives_name_lem : (name : List ℕ) (r : Outcome (List ℕ)) → gives_name name r ≡ true → r ≡ ok name
gives_name_lem name (ok found) h = ap ok ((text_eq_iff found name).0 h)
gives_name_lem name (bad e) h = cc

&&-parts : (a b c : Bool) → a && (b && c) ≡ true → (a ≡ true) × (b ≡ true) × (c ≡ true)
&&-parts true true true h = (refl, refl, refl)
&&-parts true true false h = cc
&&-parts true false c h = cc
&&-parts false b c h = cc

name_of-id_of :
    (rows : List (String × ℕ)) (id : ℕ) (name : List ℕ)
    → all_found rows ≡ true
    → name_of rows id ≡ ok name
    → syscall_name_to_id name ≡ ok id
unfolding name_of
name_of-id_of [] id name h e = cc
name_of-id_of ((known, number) ∷ rows) id name h e =
    let (found, named, others) =
      &&-parts (gives_id number (syscall_name_to_id (codes known)))
        (gives_name (codes known) (syscall_id_to_name number)) (all_found rows) h in
    let here = gives_id_lem number (syscall_name_to_id (codes known)) found in
    elim (Bool-cases (number == id)) [
      | inl same ↦ ground (arith, here)
      | inr other ↦ ground (arith, name_of-id_of rows id name others)
    ]

id_of-name_of :
    (rows : List (String × ℕ)) (id : ℕ) (name : List ℕ)
    → all_found rows ≡ true
    → id_of rows name ≡ ok id
    → syscall_id_to_name id ≡ ok name
unfolding id_of
id_of-name_of [] id name h e = cc
id_of-name_of ((known, number) ∷ rows) id name h e =
    let (found, named, others) =
      &&-parts (gives_id number (syscall_name_to_id (codes known)))
        (gives_name (codes known) (syscall_id_to_name number)) (all_found rows) h in
    let here = gives_name_lem (codes known) (syscall_id_to_name number) named in
    elim (Bool-cases (text_eq (codes known) name)) [
      | inl same ↦ ground (arith, here, (text_eq_iff (codes known) name).0 same)
      | inr other ↦ ground (arith, id_of-name_of rows id name others)
    ]

-- `syscall_name_to_id` gives a number for a name exactly if `syscall_id_to_name` gives that name for
-- that number.
pub syscall_name_to_id-syscall_id_to_name :
    (id : ℕ) (name : List ℕ) → (syscall_name_to_id name ≡ ok id) ↔ (syscall_id_to_name id ≡ ok name)
unfolding syscall_name_to_id syscall_id_to_name
syscall_name_to_id-syscall_id_to_name id name =
    (id_of-name_of g_syscalls id name table_found, name_of-id_of g_syscalls id name table_found)
