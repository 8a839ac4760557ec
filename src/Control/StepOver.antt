-- ===== src/Control/StepOver.antt =====
-- The step over a breakpoint with which `process::resume` (src/process.cpp) starts.
use sdb_building_a_debugger.Base.{
  ◌≡◌, ◌<◌, ℕ, refl, arith, true, false, some, Option, inl, inr, get_elem?, get_elem?-set_found,
}
use sdb_building_a_debugger.Platform.{Platform}
use sdb_building_a_debugger.Memory.Model.{MemoryLaws}
use sdb_building_a_debugger.Process.State.{Process, BreakpointSite}
use sdb_building_a_debugger.Process.Run.{ok, returned, Run-cases, Sys-cases}
use sdb_building_a_debugger.Stoppoints.{breakpoint_stoppoint, get_by_address}
use sdb_building_a_debugger.Breakpoint.{enable, disable, int3}
use sdb_building_a_debugger.Breakpoint.Plant.{disable_cases}
use sdb_building_a_debugger.Breakpoint.Patch.{enable_plants}
use sdb_building_a_debugger.Control.Resume.{step_over, wait_pid}

module _ {W : Type 0} (pf : Platform W) {pid : ℕ} {byte : W → ℕ → Option ℕ}
    (laws : MemoryLaws pf pid byte) where
  -- When `resume` has stepped over an enabled software breakpoint, which begins with `disable`, the
  -- breakpoint is in place again: the byte at its address is 0xcc, and the site is enabled and keeps
  -- the byte that was there in the world after the single step and the wait for it, whatever the
  -- step did to the memory.
  pub step_over_replants :
      (p q : Process W) (i : ℕ) (site : BreakpointSite)
      → p.pid ≡ pid
      → get_by_address p.breakpoint_sites site.address ≡ ok i
      → get_elem? p.breakpoint_sites i ≡ some site
      → site.is_enabled ≡ true
      → site.is_hardware ≡ false
      → step_over pf site.address p ≡ returned tt q
      → (r : Process W) × (disable pf i p ≡ returned tt r)
        × (byte q.world site.address ≡ some int3)
        × ((saved : ℕ) × (saved < 256)
            × (byte (pf.waitpid r.pid (pf.single_step r.pid r.world).1).1 site.address ≡ some saved)
            × (get_elem? q.breakpoint_sites i
                ≡ some (record site { saved_data = saved; is_enabled = true })))
  unfolding step_over wait_pid
  step_over_replants p q i site same found at on soft run = elim (Run-cases (disable pf i p)) [
    | inr (e, r, h) ↦ absurd (ground arith)
    | inl (_, r, h) ↦
        let (word, _, _, lifted) = disable_cases pf laws p r i site at on soft h in
        let stepped : Process W = record r { world = (pf.single_step r.pid r.world).1 } in
        let waited : Process W = record stepped {
          world = (pf.waitpid stepped.pid stepped.world).1;
        } in
        let here =
          get_elem?-set_found p.breakpoint_sites i (record site { is_enabled = false }) at in
        elim (Sys-cases (pf.single_step r.pid r.world).0) [
          | inr (n, e) ↦ absurd (ground arith)
          | inl (_, e) ↦ elim (Sys-cases (pf.waitpid stepped.pid stepped.world).0) [
            | inr (n, f) ↦ absurd (ground arith)
            | inl (status, f) ↦
                let back : enable pf i waited ≡ returned tt q = ground arith in
                let (byte_there, (saved, small, kept, now)) =
                  enable_plants pf laws waited q i site.address (record site { is_enabled = false })
                    (ground arith) (ground (arith, here)) refl soft back in
                (r, h, ground arith, (saved, small, kept, now))
          ]
        ]
  ]
