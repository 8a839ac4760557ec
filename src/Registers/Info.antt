-- ===== src/Registers/Info.antt =====
-- The lookups of include/libsdb/register_info.hpp.
use sdb_building_a_debugger.Base.{
  ℕ, Bool, List, [], ◌∷◌, Option, none, some, ◌==◌, if◌then◌else◌, ℤ, int_eq, text_eq,
}
use sdb_building_a_debugger.Platform.{UserLayout}
use sdb_building_a_debugger.Process.Run.{Outcome, ok, bad, error}
use sdb_building_a_debugger.Registers.Value.{RegisterInfo}
use sdb_building_a_debugger.Registers.Table.{g_register_infos}

-- `std::find_if`.
unfoldable pub find_if : {A : Type 0} → (A → Bool) → List A → Option A
find_if test [] = none
find_if test (x ∷ xs) = if test x then some x else find_if test xs

abbrev found : Option RegisterInfo → Outcome RegisterInfo
found (some info) = ok info
found none = bad (error "can't find register info")

module _ (user : UserLayout) where
  unfoldable pub register_info_by : (RegisterInfo → Bool) → Outcome RegisterInfo
  unfolding g_register_infos find_if
  register_info_by test = found (find_if test (g_register_infos user))

  unfoldable pub register_info_by_id : ℕ → Outcome RegisterInfo
  unfolding register_info_by
  register_info_by_id id = register_info_by (λ i. i.id == id)

  unfoldable pub register_info_by_name : List ℕ → Outcome RegisterInfo
  unfolding register_info_by
  register_info_by_name name = register_info_by (λ i. text_eq i.name name)

  unfoldable pub register_info_by_dwarf : ℤ → Outcome RegisterInfo
  unfolding register_info_by
  register_info_by_dwarf dwarf_id = register_info_by (λ i. int_eq i.dwarf_id dwarf_id)
