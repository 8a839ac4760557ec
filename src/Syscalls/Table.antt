-- ===== src/Syscalls/Table.antt =====
-- The table of src/include/syscalls.inc, and the two lookups of src/syscalls.cpp.
use sdb_building_a_debugger.Base.{
  ℕ, String, List, [], ◌∷◌, ◌++◌, codes, text_eq, ◌==◌, if◌then◌else◌,
}
use sdb_building_a_debugger.Process.Run.{Outcome, ok, bad, error}
use sdb_building_a_debugger.Syscalls.First.{first_syscalls}
use sdb_building_a_debugger.Syscalls.Second.{second_syscalls}
use sdb_building_a_debugger.Syscalls.Third.{third_syscalls}

unfoldable pub g_syscalls : List (String × ℕ)
g_syscalls = first_syscalls ++ second_syscalls ++ third_syscalls

unfoldable pub id_of : List (String × ℕ) → List ℕ → Outcome ℕ
id_of [] name = bad (error "no such syscall")
id_of ((known, id) ∷ rows) name =
    let rest = id_of rows name in if text_eq (codes known) name then ok id else rest

unfoldable pub name_of : List (String × ℕ) → ℕ → Outcome (List ℕ)
name_of [] id = bad (error "no such syscall")
name_of ((name, known) ∷ rows) id =
    let rest = name_of rows id in if known == id then ok (codes name) else rest

unfoldable pub syscall_name_to_id : List ℕ → Outcome ℕ
unfolding g_syscalls id_of
syscall_name_to_id name = id_of g_syscalls name

unfoldable pub syscall_id_to_name : ℕ → Outcome (List ℕ)
unfolding g_syscalls name_of
syscall_id_to_name id = name_of g_syscalls id
