-- ===== src/Breakpoint.antt =====
-- `class breakpoint_site` (src/breakpoint_site.cpp), and `process::create_breakpoint_site` of
-- src/process.cpp. A site is named by its place in the collection.
pub mod Plant
pub mod Patch
pub mod Keeps
pub mod Create
pub mod Total
use sdb_building_a_debugger.Base.{
  ℕ, suc, bit_and, bit_or, Bool, true, false, length, get_elem?, set, ◌==◌, if◌then◌else◌, ℤ, pos,
  negsuc,
}
use sdb_building_a_debugger.Platform.{Platform}
use sdb_building_a_debugger.Process.State.{BreakpointSite, new_site}
use sdb_building_a_debugger.Process.Run.{
  M, pure, throw, ◌>>=◌, ◌>>◌, get, put, unless, or_throw, reading, calling, error_at, undefined,
}
use sdb_building_a_debugger.Stoppoints.{
  breakpoint_stoppoint, contains_address, push, remove_by_id, remove_by_address, breakpoints,
}
use sdb_building_a_debugger.Hardware.{set_hardware_breakpoint, clear_hardware_stoppoint}

-- `(data & ~0xff) | byte` on 64-bit words: `~0xff` is an `int`, and widens with its sign.
unfoldable pub with_low_byte : ℕ → ℕ → ℕ
with_low_byte word byte = bit_or (bit_and word 0xffff_ffff_ffff_ff00) byte

abbrev pub int3 : ℕ
int3 = 0xcc

-- The counter is an `std::int32_t`; its overflow is undefined.
unfoldable pub get_next_id : {W : Type 0} → M W ℤ
get_next_id = do
  p ← get
  if p.breakpoint_id == 0x7fff_ffff then throw undefined else (do
    put (record p { breakpoint_id = suc p.breakpoint_id })
    pure (pos (suc p.breakpoint_id)))

unfoldable pub site_at : {W : Type 0} → ℕ → M W BreakpointSite
site_at i = do p ← get; or_throw (get_elem? p.breakpoint_sites i) undefined

unfoldable pub update_site : {W : Type 0} → ℕ → (BreakpointSite → BreakpointSite) → M W (Unit {0})
unfolding site_at
update_site i f = do
  s ← site_at i
  p ← get
  put (record p { breakpoint_sites = set p.breakpoint_sites i (f s) })

-- `breakpoint_site::breakpoint_site`.
unfoldable pub make_site : {W : Type 0} → ℕ → Bool → Bool → M W BreakpointSite
unfolding get_next_id
make_site address is_hardware is_internal = do
  id ← if is_internal then pure (negsuc 0) else get_next_id
  pure (new_site id address is_hardware is_internal)

module _ {W : Type 0} (pf : Platform W) where
  -- The branch of `enable` for a software site. The byte is saved before the word is written.
  unfoldable pub plant : ℕ → ℕ → M W (Unit {0})
  unfolding with_low_byte update_site
  plant i address = do
    p ← get
    word ← reading "enabling breakpoint site failed" (pf.peek_data p.pid address)
    update_site i (λ s. record s { saved_data = bit_and word 0xff })
    calling "enabling breakpoint site failed" (pf.poke_data p.pid address (with_low_byte word int3))

  -- The branch of `disable` for a software site.
  unfoldable pub unplant : ℕ → ℕ → M W (Unit {0})
  unfolding with_low_byte
  unplant address saved_data = do
    p ← get
    word ← reading "disabling breakpoint site failed" (pf.peek_data p.pid address)
    calling "disabling breakpoint site failed"
        (pf.poke_data p.pid address (with_low_byte word saved_data))

  unfoldable pub arm : ℕ → BreakpointSite → M W (Unit {0})
  arm i site = do
    index ← set_hardware_breakpoint pf site.id site.address
    update_site i (λ s. record s { hardware_register_index = pos index })

  unfoldable pub disarm : ℕ → BreakpointSite → M W (Unit {0})
  disarm i site = do
    clear_hardware_stoppoint pf site.hardware_register_index
    update_site i (λ s. record s { hardware_register_index = negsuc 0 })

  unfoldable pub enable : ℕ → M W (Unit {0})
  enable i = do
    site ← site_at i
    unless site.is_enabled (do
      if site.is_hardware then arm i site else plant i site.address
      update_site i (λ s. record s { is_enabled = true }))

  unfoldable pub disable : ℕ → M W (Unit {0})
  disable i = do
    site ← site_at i
    if site.is_enabled
        then (do
          if site.is_hardware then disarm i site else unplant site.address site.saved_data
          update_site i (λ s. record s { is_enabled = false }))
        else pure tt

-- `process::create_breakpoint_site`; the result is the place of the new site.
unfoldable pub create_breakpoint_site : {W : Type 0} → ℕ → Bool → Bool → M W ℕ
create_breakpoint_site address hardware internal = do
  p ← get
  if contains_address p.breakpoint_sites address
      then throw (error_at "breakpoint site already created at address " address)
      else (do
        site ← make_site address hardware internal
        q ← get
        put (record q { breakpoint_sites = push q.breakpoint_sites site })
        pure (length q.breakpoint_sites))

module _ {W : Type 0} (pf : Platform W) where
  -- `remove_by_id` and `remove_by_address` at breakpoint sites.
  unfoldable pub remove_site_by_id : ℤ → M W (Unit {0})
  remove_site_by_id id = remove_by_id breakpoints (disable pf) id

  unfoldable pub remove_site_by_address : ℕ → M W (Unit {0})
  remove_site_by_address address = remove_by_address breakpoints (disable pf) address
