-- ===== src/Registers/Lookup.antt =====
-- The register table: include/libsdb/register_info.hpp over include/libsdb/detail/registers.inc.
use sdb_building_a_debugger.Base.{
  ℕ, ◌<◌, ◌≡◌, refl, arith, Bool, true, false, ◌&&◌, ◌||◌, ◌==◌, ==_iff, negsuc, int_eq, int_eq_iff,
  all_below, all_below_sound, ◌⊎◌,
}
use sdb_building_a_debugger.Platform.{UserLayout}
use sdb_building_a_debugger.Process.Run.{Outcome, ok, bad}
use sdb_building_a_debugger.Registers.Value.{RegisterInfo}
use sdb_building_a_debugger.Registers.Info.{
  register_info_by_id, register_info_by_name, register_info_by_dwarf,
}

abbrev pub has_id : ℕ → Outcome RegisterInfo → Bool
has_id id (ok info) = info.id == id
has_id id (bad e) = false

-- The row is found by its number, by its name, and by its DWARF number if it has one.
abbrev all_find : UserLayout → ℕ → Outcome RegisterInfo → Bool
all_find user id (bad e) = false
all_find user id (ok info) =
    info.id == id
    && (has_id id (register_info_by_name user info.name)
        && (int_eq info.dwarf_id (negsuc 0)
            || has_id id (register_info_by_dwarf user info.dwarf_id)))

module _ (user : UserLayout) where
  lookup_table : all_below 125 (λ id. all_find user id (register_info_by_id user id)) ≡ true
  unfolding all_below register_info_by_id register_info_by_name register_info_by_dwarf
  lookup_table = refl

  split_find :
      (id : ℕ) (r : Outcome RegisterInfo)
      → all_find user id r ≡ true
      → (info : RegisterInfo) × (r ≡ ok info)
        × (info.id ≡ id)
        × (has_id id (register_info_by_name user info.name) ≡ true)
        × ((info.dwarf_id ≡ negsuc 0)
            ⊎ (has_id id (register_info_by_dwarf user info.dwarf_id) ≡ true))
  split_find id (bad e) h = cc
  split_find id (ok info) h = (
    info,
    refl,
    ground (arith, ==_iff info.id id),
    ground arith,
    ground (arith, int_eq_iff info.dwarf_id (negsuc 0)),
  )

  -- Each of the 125 enumerators of `register_id` has a row, which carries its number; looking up the name
  -- of the row gives a row of the same number, and so does its DWARF number, unless that is -1.
  pub register_info_lookups :
      (id : ℕ)
      → id < 125
      → (info : RegisterInfo) × (register_info_by_id user id ≡ ok info)
        × (info.id ≡ id)
        × (has_id id (register_info_by_name user info.name) ≡ true)
        × ((info.dwarf_id ≡ negsuc 0)
            ⊎ (has_id id (register_info_by_dwarf user info.dwarf_id) ≡ true))
  register_info_lookups id h =
      split_find id (register_info_by_id user id) (
        all_below_sound 125 (λ id. all_find user id (register_info_by_id user id)) id lookup_table
          h)
