-- ===== src/Tests/Sites.antt =====
-- Breakpoint sites and memory at concrete inputs.
use sdb_building_a_debugger.Base.{
  ℕ, ◌≡◌, ◌≢◌, ◌<◌, refl, arith, true, false, List, [], ◌∷◌, get_elem?, get_or, some, if◌then◌else◌,
  ◌==◌, replicate, byte_of, pos, All, IsByte,
}
use sdb_building_a_debugger.Process.State.{
  Process, BreakpointSite, new_site, new_process, Watchpoint, new_watchpoint, catch_none, stopped,
}
use sdb_building_a_debugger.Types.{StoppointMode}
use sdb_building_a_debugger.Process.Run.{returned, threw, errno_error, out_of_fuel}
use sdb_building_a_debugger.Process.Keeps.{final}
use sdb_building_a_debugger.Memory.{
  remote_descs, read_memory, read_memory_without_traps, write_memory, write_words, next_word,
  poke_word,
}
use sdb_building_a_debugger.Memory.Chunks.{Covers, remote_descs-Covers}
use sdb_building_a_debugger.Memory.Traps.{read_memory_without_traps_lem, own_byte, IsAddress}
use sdb_building_a_debugger.Memory.Patch.{overwritten, write_memory_lem, write_memory_ends}
use sdb_building_a_debugger.Memory.Total.{write_memory_returns}
use sdb_building_a_debugger.Breakpoint.{
  enable, disable, create_breakpoint_site, site_at, plant, unplant, update_site, int3,
}
use sdb_building_a_debugger.Breakpoint.Patch.{
  enable_failed, enable_plants, disable_restores, disable-enable,
}
use sdb_building_a_debugger.Control.Reach.{create, here, further, DistinctSites, sites_distinct}
use sdb_building_a_debugger.Tests.Machine.{
  World, machine, machine_laws, read_only, read_only_laws, byte,
}

abbrev pub code : World
code = record { cells = λ a. a }

abbrev pub site : BreakpointSite
site = new_site (pos 1) 0x1042 false false

abbrev point : Watchpoint
point = new_watchpoint (pos 1) 0x2000 StoppointMode.write 4

abbrev pub idle : Process World
idle = record {
  world = code;
  pid = 7;
  terminate_on_end = true;
  is_attached = true;
  syscall_catch_policy = catch_none;
  expecting_syscall_exit = false;
  state = stopped;
  registers = replicate 912 0;
  breakpoint_sites = site ∷ [];
  watchpoints = point ∷ [];
  breakpoint_id = 1;
  watchpoint_id = 1;
}

abbrev armed_site : BreakpointSite
armed_site = record site { saved_data = 0x42; is_enabled = true }

abbrev armed : Process World
armed = final (enable machine 0 idle)

enable_runs : enable machine 0 idle ≡ returned tt armed
unfolding enable site_at plant update_site
enable_runs = refl

enable_plants_example :
    (byte armed.world 0x1043 ≡ (if 0x1043 == 0x1042 then some int3 else byte code 0x1043))
    × ((saved : ℕ) × (saved < 256)
        × (byte code 0x1042 ≡ some saved)
        × (get_elem? armed.breakpoint_sites 0
            ≡ some (record site { saved_data = saved; is_enabled = true })))
enable_plants_example =
    enable_plants machine machine_laws idle armed 0 0x1043 site refl refl refl refl enable_runs

abbrev lifted : Process World
lifted = final (disable machine 0 armed)

disable_runs : disable machine 0 armed ≡ returned tt lifted
unfolding enable disable site_at plant unplant update_site
disable_runs = refl

armed_site_there : get_elem? armed.breakpoint_sites 0 ≡ some armed_site
unfolding enable site_at plant update_site
armed_site_there = refl

armed_pid : armed.pid ≡ 7
unfolding enable site_at plant update_site
armed_pid = refl

disable_restores_example :
    (byte lifted.world 0x1042 ≡ (if 0x1042 == 0x1042 then some 0x42 else byte armed.world 0x1042))
    × (get_elem? lifted.breakpoint_sites 0 ≡ some (record armed_site { is_enabled = false }))
disable_restores_example =
    disable_restores machine machine_laws armed lifted 0 0x1042 armed_site armed_pid
      armed_site_there refl refl (omega arith) disable_runs

disable-enable_example : byte lifted.world 0x1042 ≡ byte code 0x1042
disable-enable_example =
    disable-enable machine machine_laws idle armed lifted 0 0x1042 site refl refl refl refl
      enable_runs disable_runs

remote_descs-Covers_example : Covers (remote_descs 10 0x1ffa 10) 0x1ffa 10
remote_descs-Covers_example = remote_descs-Covers 10 0x1ffa 10 (omega arith)

armed_read : read_memory machine 0x1040 4 armed ≡ returned (0x40 ∷ 0x41 ∷ 0xcc ∷ 0x43 ∷ []) armed
unfolding read_memory enable site_at plant update_site byte_of
armed_read = refl

armed_addresses : All IsAddress armed.breakpoint_sites
unfolding enable site_at plant update_site
armed_addresses = (omega arith, tt)

read_memory_without_traps_example :
    (bytes : List ℕ) × (read_memory_without_traps machine 0x1040 4 armed ≡ returned bytes armed)
    × (get_or bytes 2 0 ≡ own_byte armed.breakpoint_sites 0x1042 0xcc)
read_memory_without_traps_example =
    read_memory_without_traps_lem machine armed armed 0x1040 4 2 (0x40 ∷ 0x41 ∷ 0xcc ∷ 0x43 ∷ [])
      armed_addresses (omega arith) (omega arith) armed_read

abbrev patch : List ℕ
patch = 1 ∷ 2 ∷ 3 ∷ 4 ∷ 5 ∷ 6 ∷ 7 ∷ 8 ∷ 9 ∷ []

abbrev patched : Process World
patched = final (write_memory machine 0x3000 patch idle)

write_runs : write_memory machine 0x3000 patch idle ≡ returned tt patched
unfolding write_memory write_words next_word poke_word read_memory
write_runs = refl

patch_bytes : All IsByte patch
patch_bytes = (
  omega arith,
  (
    omega arith,
    (
      omega arith,
      (omega arith, (omega arith, (omega arith, (omega arith, (omega arith, (omega arith, tt)))))),
    ),
  ),
)

write_memory_example :
    (patched ≡ record idle { world = patched.world })
    × (byte patched.world 0x3009 ≡ overwritten 0x3000 patch (byte code) 0x3009)
write_memory_example =
    write_memory_lem machine machine_laws idle patched 0x3000 0x3009 patch refl (omega arith)
      patch_bytes write_runs

write_memory_ends_example : write_memory machine 0x3000 patch idle ≢ threw out_of_fuel patched
write_memory_ends_example = write_memory_ends machine idle patched 0x3000 patch

abbrev marked : Process World
marked = record idle { breakpoint_sites = record site { saved_data = 0x42 } ∷ [] }

enable_throws :
    enable read_only 0 idle ≡ threw (errno_error "enabling breakpoint site failed" 14) marked
unfolding enable site_at plant update_site
enable_throws = refl

enable_failed_example :
    (byte marked.world 0x1043 ≡ byte idle.world 0x1043)
    × ((s : BreakpointSite) × (get_elem? marked.breakpoint_sites 0 ≡ some s)
        × (s.is_enabled ≡ false))
enable_failed_example =
    enable_failed read_only read_only_laws idle marked 0 0x1043 site
      (errno_error "enabling breakpoint site failed" 14) refl refl refl refl (omega arith)
      enable_throws

abbrev pub started : Process World
started = new_process code 7 true true (replicate 912 0) 0 0

abbrev one_site : Process World
one_site = final (create_breakpoint_site 0x1042 false false started)

abbrev two_sites : Process World
two_sites = final (create_breakpoint_site 0x1050 true true one_site)

sites_distinct_example : DistinctSites two_sites
sites_distinct_example = sites_distinct machine code 7 true true (replicate 912 0) 0 0 two_sites (
    further started one_site two_sites
      (further started started one_site (here started) (create started 0x1042 false false))
      (create one_site 0x1050 true true))

write_memory_returns_example :
    (q : Process World) × (write_memory machine 0x3000 patch idle ≡ returned tt q)
write_memory_returns_example =
    write_memory_returns machine machine_laws (λ a n w mapped. refl) idle 0x3000 patch refl
      (omega arith) (λ i inside gone. cc)
