-- ===== src/Breakpoint/Patch.antt =====
-- What enabling and disabling a software breakpoint site does to the inferior's memory:
-- `breakpoint_site::enable` and `breakpoint_site::disable` of src/breakpoint_site.cpp.
use sdb_building_a_debugger.Base.{
  ℕ, ◌<◌, ◌≡◌, refl, arith, Option, some, inl, inr, get_elem?, set, get_elem?-set_found, true,
  false, ◌==◌, if◌then◌else◌, bit_and,
}
use sdb_building_a_debugger.Platform.{Platform}
use sdb_building_a_debugger.Memory.Model.{MemoryLaws, InPage}
use sdb_building_a_debugger.Memory.Word.{low_byte}
use sdb_building_a_debugger.Process.State.{Process, BreakpointSite}
use sdb_building_a_debugger.Process.Run.{Failure, returned, threw, Sys-cases}
use sdb_building_a_debugger.Breakpoint.{
  with_low_byte, int3, enable, disable, site_at, plant, update_site,
}
use sdb_building_a_debugger.Breakpoint.Plant.{
  enable_cases, disable_cases, poke_low, first_byte, planted,
}

module _ {W : Type 0} (pf : Platform W) {pid : ℕ} {byte : W → ℕ → Option ℕ}
    (laws : MemoryLaws pf pid byte) where
  -- When `enable` returns for a disabled software site, the byte at its address is 0xcc, every other
  -- byte of the inferior's memory is as before, and the site is enabled and keeps the byte that was
  -- there.
  pub enable_plants :
      (p q : Process W) (i c : ℕ) (site : BreakpointSite)
      → p.pid ≡ pid
      → get_elem? p.breakpoint_sites i ≡ some site
      → site.is_enabled ≡ false
      → site.is_hardware ≡ false
      → enable pf i p ≡ returned tt q
      → (byte q.world c ≡ (if c == site.address then some int3 else byte p.world c))
        × ((saved : ℕ) × (saved < 256)
            × (byte p.world site.address ≡ some saved)
            × (get_elem? q.breakpoint_sites i
                ≡ some (record site { saved_data = saved; is_enabled = true })))
  enable_plants p q i c site same at off soft run =
      let (word, e, d, s) = enable_cases pf laws p q i site at off soft run in
      (
        ground (arith, poke_low pf laws p.world site.address word int3 c),
        (
          bit_and word 0xff,
          omega (arith, low_byte word),
          ground (arith, first_byte pf laws p.world site.address word),
          ground (arith, get_elem?-set_found p.breakpoint_sites i (planted pf laws site word) at),
        ),
      )

  -- When `disable` returns for an enabled software site, the byte that it keeps is at its address
  -- again, every other byte of the memory is as before, and the site is disabled.
  pub disable_restores :
      (p q : Process W) (i c : ℕ) (site : BreakpointSite)
      → p.pid ≡ pid
      → get_elem? p.breakpoint_sites i ≡ some site
      → site.is_enabled ≡ true
      → site.is_hardware ≡ false
      → site.saved_data < 256
      → disable pf i p ≡ returned tt q
      → (byte q.world c ≡ (if c == site.address then some site.saved_data else byte p.world c))
        × (get_elem? q.breakpoint_sites i ≡ some (record site { is_enabled = false }))
  disable_restores p q i c site same at on soft small run =
      let (word, e, d, s) = disable_cases pf laws p q i site at on soft run in
      (
        ground (arith, poke_low pf laws p.world site.address word site.saved_data c),
        ground (
          arith,
          get_elem?-set_found p.breakpoint_sites i (record site { is_enabled = false }) at,
        ),
      )

  -- Where `PTRACE_PEEKDATA` and `PTRACE_POKEDATA` read and write one memory: when a disabled software
  -- site is enabled and then disabled, and both return, every byte of the memory is as it was before.
  pub disable-enable :
      (p q r : Process W) (i c : ℕ) (site : BreakpointSite)
      → p.pid ≡ pid
      → get_elem? p.breakpoint_sites i ≡ some site
      → site.is_enabled ≡ false
      → site.is_hardware ≡ false
      → enable pf i p ≡ returned tt q
      → disable pf i q ≡ returned tt r
      → byte r.world c ≡ byte p.world c
  disable-enable p q r i c site same at off soft run back =
      let (word, e, d, s) = enable_cases pf laws p q i site at off soft run in
      let (there, (saved, small, kept, now)) = enable_plants p q i c site same at off soft run in
      let (undone, _) =
        disable_restores q r i c (record site { saved_data = saved; is_enabled = true })
          (ground arith) now refl soft small back in
      ground arith

  -- When enabling a disabled software site fails, and the eight bytes from its address on lie in one
  -- page, every byte of the memory is as before, and the site is still disabled.
  pub enable_failed :
      (p q : Process W) (i c : ℕ) (site : BreakpointSite) (e : Failure)
      → p.pid ≡ pid
      → get_elem? p.breakpoint_sites i ≡ some site
      → site.is_enabled ≡ false
      → site.is_hardware ≡ false
      → InPage site.address
      → enable pf i p ≡ threw e q
      → (byte q.world c ≡ byte p.world c)
        × ((s : BreakpointSite) × (get_elem? q.breakpoint_sites i ≡ some s)
            × (s.is_enabled ≡ false))
  unfolding enable site_at plant update_site
  enable_failed p q i c site e same at off soft page run =
      elim (Sys-cases (pf.peek_data p.pid site.address p.world)) [
        | inr (n, f) ↦ (ground arith, (site, ground arith, off))
        | inl (word, f) ↦
            let marked : BreakpointSite = record site { saved_data = bit_and word 0xff } in
            let again = get_elem?-set_found p.breakpoint_sites i marked at in
            elim (Sys-cases (pf.poke_data p.pid site.address (with_low_byte word int3) p.world).0) [
              | inl (_, g) ↦ absurd (
                  ground (
                    arith,
                    again,
                    get_elem?-set_found (set p.breakpoint_sites i marked) i
                        (planted pf laws site word) again,
                  ))
              | inr (n, g) ↦ (
                ground (
                  arith,
                  again,
                  laws.poke_failed site.address (with_low_byte word int3) n c p.world,
                  page,
                ),
                (marked, ground (arith, again), off),
              )
            ]
      ]
