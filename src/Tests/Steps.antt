-- ===== src/Tests/Steps.antt =====
-- Enabling, disabling and stepping over a breakpoint site at concrete inputs.
use sdb_building_a_debugger.Base.{ℕ, ◌≡◌, ◌<◌, refl, true, [], ◌∷◌, get_elem?, some}
use sdb_building_a_debugger.Process.State.{Process, BreakpointSite}
use sdb_building_a_debugger.Process.Run.{returned, ok}
use sdb_building_a_debugger.Process.Keeps.{final}
use sdb_building_a_debugger.Stoppoints.{breakpoint_stoppoint, get_by_address}
use sdb_building_a_debugger.Breakpoint.{int3, enable, disable, site_at, plant, unplant, update_site}
use sdb_building_a_debugger.Control.Resume.{step_over, wait_pid}
use sdb_building_a_debugger.Control.StepOver.{step_over_replants}
use sdb_building_a_debugger.Tests.Machine.{World, machine, machine_laws, byte}
use sdb_building_a_debugger.Tests.Sites.{idle, site}

abbrev enabled_site : BreakpointSite
enabled_site = record site { saved_data = 0x42; is_enabled = true }

abbrev busy : Process World
busy = record idle { breakpoint_sites = enabled_site ∷ [] }

abbrev stepped : Process World
stepped = final (step_over machine 0x1042 busy)

steps : step_over machine 0x1042 busy ≡ returned tt stepped
unfolding step_over wait_pid get_by_address enable disable site_at plant unplant update_site
steps = refl

site_found : get_by_address (enabled_site ∷ []) 0x1042 ≡ ok 0
unfolding get_by_address
site_found = refl

step_over_replants_example :
    (r : Process World) × (disable machine 0 busy ≡ returned tt r)
    × (byte stepped.world 0x1042 ≡ some int3)
    × ((saved : ℕ) × (saved < 256)
        × (byte (machine.waitpid r.pid (machine.single_step r.pid r.world).1).1 0x1042 ≡ some saved)
        × (get_elem? stepped.breakpoint_sites 0
            ≡ some (record enabled_site { saved_data = saved; is_enabled = true })))
step_over_replants_example =
    step_over_replants machine machine_laws busy stepped 0 enabled_site refl site_found refl refl
      refl steps
