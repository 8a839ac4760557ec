-- ===== src/Breakpoint/Total.antt =====
-- When enabling and disabling a software breakpoint site succeeds: `breakpoint_site::enable` and
-- `breakpoint_site::disable` of src/breakpoint_site.cpp.
use sdb_building_a_debugger.Base.{
  ◌≡◌, ℕ, arith, true, false, some, bit_and, get_elem?, set, set-set, get_elem?-set_found,
}
use sdb_building_a_debugger.Platform.{Platform, done}
use sdb_building_a_debugger.Process.State.{Process, BreakpointSite}
use sdb_building_a_debugger.Process.Run.{returned}
use sdb_building_a_debugger.Breakpoint.{
  with_low_byte, int3, enable, disable, site_at, plant, unplant, update_site,
}

module _ {W : Type 0} (pf : Platform W) where
  -- Where the kernel reads the word at a disabled software site, and writes it with its low byte
  -- replaced by 0xcc, `enable` returns; the site is enabled and keeps the low byte of that word, and
  -- nothing else of the process changes but the inferior.
  pub enable_returns :
      (p : Process W) (i word : ℕ) (site : BreakpointSite)
      → get_elem? p.breakpoint_sites i ≡ some site
      → site.is_enabled ≡ false
      → site.is_hardware ≡ false
      → pf.peek_data p.pid site.address p.world ≡ done word
      → (pf.poke_data p.pid site.address (with_low_byte word int3) p.world).0 ≡ done tt
      → enable pf i p
        ≡ returned tt (record p {
          breakpoint_sites =
              set p.breakpoint_sites i
                (record site { saved_data = bit_and word 0xff; is_enabled = true });
          world = (pf.poke_data p.pid site.address (with_low_byte word int3) p.world).1;
        })
  unfolding enable site_at plant update_site
  enable_returns p i word site at off soft read written =
      let marked : BreakpointSite = record site { saved_data = bit_and word 0xff } in
      let again = get_elem?-set_found p.breakpoint_sites i marked at in
      let twice = set-set p.breakpoint_sites i marked (record marked { is_enabled = true }) in
      ground (arith, again, twice)

  -- Where the kernel reads the word at an enabled software site, and writes it with its low byte
  -- replaced by the byte that the site keeps, `disable` returns; the site is disabled, and nothing
  -- else of the process changes but the inferior.
  pub disable_returns :
      (p : Process W) (i word : ℕ) (site : BreakpointSite)
      → get_elem? p.breakpoint_sites i ≡ some site
      → site.is_enabled ≡ true
      → site.is_hardware ≡ false
      → pf.peek_data p.pid site.address p.world ≡ done word
      → (pf.poke_data p.pid site.address (with_low_byte word site.saved_data) p.world).0 ≡ done tt
      → disable pf i p
        ≡ returned tt (record p {
          breakpoint_sites = set p.breakpoint_sites i (record site { is_enabled = false });
          world = (pf.poke_data p.pid site.address (with_low_byte word site.saved_data) p.world).1;
        })
  unfolding disable site_at unplant update_site
  disable_returns p i word site at on soft read written = ground arith
