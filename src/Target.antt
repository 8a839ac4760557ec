-- ===== src/Target.antt =====
-- src/target.cpp and include/libsdb/target.hpp: a process and its ELF file.
pub mod Start
pub mod Entry
use sdb_building_a_debugger.Base.{
  ℕ, zero, suc, ◌+◌, ◌-◌, ◌/◌, ◌%◌, ◌^◌, true, List, [], ◌∷◌, ◌++◌, codes, ltb, ◌==◌, if◌then◌else◌,
}
use sdb_building_a_debugger.Platform.{Platform}
use sdb_building_a_debugger.Process.State.{Process}
use sdb_building_a_debugger.Process.Run.{
  Failure, Run, returned, threw, M, pure, ◌>>=◌, ◌>>◌, get, from_outcome,
}
use sdb_building_a_debugger.Control.Resume.{destroy}
use sdb_building_a_debugger.Launch.{
  LaunchCalls, Launched, launched, launch_threw, world_after, launch, attach,
}
use sdb_building_a_debugger.Auxv.{get_auxv}
use sdb_building_a_debugger.Elf.Types.{ElfAbi, Elf}
use sdb_building_a_debugger.Elf.Open.{FileCalls, open_elf, close_elf}
use sdb_building_a_debugger.Elf.Addresses.{notify_loaded}

-- `auxv[key]`, which gives 0 where there is no entry. `AT_ENTRY` is 9.
unfoldable pub entry_at : List (ℕ × ℕ) → ℕ → ℕ
entry_at [] key = 0
entry_at ((known, value) ∷ auxv) key =
    let rest = entry_at auxv key in if known == key then value else rest

-- `std::to_string`; a number below 2 ^ 64 has at most 20 digits.
unfoldable pub digits : ℕ → ℕ → List ℕ
digits zero n = []
digits (suc fuel) n =
    let front = digits fuel (n / 10) in
    if ltb n 10 then (b'0' + n) ∷ [] else front ++ (b'0' + n % 10) ∷ []

unfoldable pub proc_path : ℕ → List ℕ
unfolding digits
proc_path pid = codes "/proc/" ++ digits 20 pid ++ codes "/exe"

-- What the calls need beside the process: the content of /proc/<pid>/auxv, the rounds of the loop over
-- it, what the two variables of that loop held, and the address of the new ELF object.
pub record TargetInput (W : Type 0) : Type 0 where
  pub calls : FileCalls W
  pub abi : ElfAbi
  pub auxv_file : ℕ → W → List ℕ
  pub rounds : ℕ
  pub held_id : ℕ
  pub held_value : ℕ
  pub object : ℕ

module _ {W : Type 0} (input : TargetInput W) where
  unfoldable pub open_for : List ℕ → M W Elf
  unfolding open_elf
  open_for path p =
      let (obj, w) = open_elf input.calls input.abi input.object path p.world in
      from_outcome obj (record p { world = w })

  unfoldable pub create_loaded_elf : List ℕ → M W Elf
  unfolding open_for get_auxv entry_at notify_loaded
  create_loaded_elf path = do
    p ← get
    auxv ←
        from_outcome
          (get_auxv input.rounds input.held_id input.held_value (input.auxv_file p.pid p.world))
    obj ← open_for path
    pure (notify_loaded obj ((entry_at auxv 9 + 2 ^ 64 - obj.header.e_entry) % 2 ^ 64))

-- `class target` owns a process and its ELF file.
pub record Target (W : Type 0) : Type 0 where
  pub process : Process W
  pub elf : Elf

-- How `target::launch` and `target::attach` end.
pub data Opened (W : Type 0) : Type 0 where
  opened : Target W → Opened W
  not_opened : Failure → W → Opened W

module _ {W : Type 0} (pf : Platform W) where
  -- An exception destroys the process that was launched or attached to.
  unfoldable pub target_of : Run W Elf → Opened W
  unfolding world_after
  target_of (returned obj p) = opened (record { process = p; elf = obj })
  target_of (threw e p) = not_opened e (world_after pf (destroy pf p))

  module _ (input : TargetInput W) where
    -- The members of a target are destroyed in reverse order: the ELF file, then the process.
    unfoldable pub destroy_target : Elf → Process W → W
    unfolding world_after close_elf
    destroy_target obj p =
        world_after pf (destroy pf (record p { world = close_elf input.calls obj p.world }))

    unfoldable pub load_target : List ℕ → Launched W → Opened W
    unfolding create_loaded_elf target_of
    load_target path (launch_threw e w) = not_opened e w
    load_target path (launched p) = target_of (create_loaded_elf input path p)

    -- Both counters of stop points are 0 when the program starts.
    unfoldable pub launch_target : LaunchCalls W → ℕ → List ℕ → List ℕ → W → Opened W
    unfolding load_target launch
    launch_target calls fuel user path w = load_target path (launch pf calls fuel true user 0 0 w)

    unfoldable pub attach_target : ℕ → List ℕ → ℕ → W → Opened W
    unfolding load_target attach proc_path
    attach_target fuel user pid w = load_target (proc_path pid) (attach pf fuel user 0 0 pid w)
