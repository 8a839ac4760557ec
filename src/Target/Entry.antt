-- ===== src/Target/Entry.antt =====
-- `create_loaded_elf` of src/target.cpp: where the ELF file of a running program was loaded.
use sdb_building_a_debugger.Base.{
  ℕ, ◌+◌, ◌-◌, ◌%◌, ◌^◌, ◌<◌, ◌≡◌, ap, arith, refl, List, [], ◌∷◌, Option, none, some, inl, inr,
}
use sdb_building_a_debugger.Process.State.{Process}
use sdb_building_a_debugger.Process.Run.{ok, returned, Run-cases}
use sdb_building_a_debugger.Auxv.{get_auxv}
use sdb_building_a_debugger.Auxv.Entries.{lookup}
use sdb_building_a_debugger.Elf.Types.{Elf}
use sdb_building_a_debugger.Elf.Addresses.{section_containing_file, to_virt_addr, notify_loaded}
use sdb_building_a_debugger.Elf.Bias.{in_file}
use sdb_building_a_debugger.Target.{TargetInput, entry_at, open_for, create_loaded_elf}

abbrev pub or_zero : Option ℕ → ℕ
or_zero none = 0
or_zero (some value) = value

entry_at-lookup : (auxv : List (ℕ × ℕ)) (key : ℕ) → entry_at auxv key ≡ or_zero (lookup key auxv)
unfolding entry_at
entry_at-lookup [] key = refl
entry_at-lookup ((known, value) ∷ auxv) key = ground (arith, entry_at-lookup auxv key)

module _ {W : Type 0} (input : TargetInput W) where
  loaded_bias :
      (path : List ℕ) (p q : Process W) (obj : Elf) (auxv : List (ℕ × ℕ))
      → get_auxv input.rounds input.held_id input.held_value (input.auxv_file p.pid p.world)
        ≡ ok auxv
      → create_loaded_elf input path p ≡ returned obj q
      → obj.load_bias ≡ (entry_at auxv 9 + 2 ^ 64 - obj.header.e_entry) % 2 ^ 64
  unfolding create_loaded_elf notify_loaded
  loaded_bias path p q obj auxv read run = elim (Run-cases (open_for input path p)) [
    | inl (plain, r, e) ↦ ground arith
    | inr (x, r, e) ↦ absurd (ground arith)
  ]

  -- When `create_loaded_elf` returns an ELF file whose entry point lies in a section of it, that
  -- entry point, as an address of this file, is translated to the address that the auxiliary
  -- vector of the process gives as `AT_ENTRY`, its key 9, or to 0 where it has no such entry; the
  -- entry point and that address are 64-bit numbers.
  pub create_loaded_elf-entry :
      (path : List ℕ) (p q : Process W) (obj : Elf) (auxv : List (ℕ × ℕ)) (object : ℕ → Elf) (k : ℕ)
      → get_auxv input.rounds input.held_id input.held_value (input.auxv_file p.pid p.world)
        ≡ ok auxv
      → create_loaded_elf input path p ≡ returned obj q
      → object obj.number ≡ obj
      → obj.header.e_entry < 2 ^ 64
      → or_zero (lookup 9 auxv) < 2 ^ 64
      → section_containing_file obj (in_file obj obj.header.e_entry) ≡ some k
      → to_virt_addr object (in_file obj obj.header.e_entry) ≡ ok (or_zero (lookup 9 auxv))
  unfolding to_virt_addr
  create_loaded_elf-entry path p q obj auxv object k read run same small fits inside =
      let bias = loaded_bias path p q obj auxv read run in
      let entry = entry_at-lookup auxv 9 in
      let back : (obj.header.e_entry + obj.load_bias) % 2 ^ 64 ≡ or_zero (lookup 9 auxv) =
        omega arith in
      rw (to_virt_addr, same, inside, same) (ap ok back)
