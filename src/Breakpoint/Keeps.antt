-- ===== src/Breakpoint/Keeps.antt =====
-- Enabling and disabling a breakpoint site keeps every site's address, id and kind.
use sdb_building_a_debugger.Base.{
  ℕ, zero, suc, ◌≡◌, refl, arith, Bool, List, [], ◌∷◌, map, set, get_elem?, some, inl, inr,
  Option-cases, ℤ,
}
use sdb_building_a_debugger.Platform.{Platform}
use sdb_building_a_debugger.Process.State.{BreakpointSite}
use sdb_building_a_debugger.Process.Keeps.{Keeps, keeps, key}
use sdb_building_a_debugger.Hardware.Keeps.{
  Keeps-set_hardware_breakpoint, Keeps-clear_hardware_stoppoint,
}
use sdb_building_a_debugger.Breakpoint.{
  site_at, update_site, plant, unplant, arm, disarm, enable, disable,
}

map-key-set :
    (xs : List BreakpointSite) (i : ℕ) (s t : BreakpointSite)
    → get_elem? xs i ≡ some s
    → key t ≡ key s
    → map key (set xs i t) ≡ map key xs
map-key-set [] i s t e k = refl
map-key-set (x ∷ xs) zero s t e k = ground arith
map-key-set (x ∷ xs) (suc i) s t e k = ground (arith, map-key-set xs i s t)

module _ {W : Type 0} where
  Keeps-site_at : (i : ℕ) → Keeps {W = W} (site_at i)
  unfolding site_at
  Keeps-site_at i = search keeps

  Keeps-update_site :
      (i : ℕ) (f : BreakpointSite → BreakpointSite)
      → ((s : BreakpointSite) → key (f s) ≡ key s)
      → Keeps {W = W} (update_site i f)
  unfolding update_site
  Keeps-update_site i f h = record {
    same = λ p. elim (Option-cases (get_elem? p.breakpoint_sites i)) [
      | inl e ↦ ground arith
      | inr (s, e) ↦ ground (arith, map-key-set p.breakpoint_sites i s (f s) e (h s))
    ];
  }

  Keeps-mark : (b : Bool) (i : ℕ) → Keeps {W = W} (update_site i (λ s. record s { is_enabled = b }))
  Keeps-mark b i = Keeps-update_site i (λ s. record s { is_enabled = b }) (λ s. refl)

  Keeps-index :
      (k : ℤ) (i : ℕ)
      → Keeps {W = W} (update_site i (λ s. record s { hardware_register_index = k }))
  Keeps-index k i = Keeps-update_site i (λ s. record s { hardware_register_index = k }) (λ s. refl)

  Keeps-save : (b : ℕ) (i : ℕ) → Keeps {W = W} (update_site i (λ s. record s { saved_data = b }))
  Keeps-save b i = Keeps-update_site i (λ s. record s { saved_data = b }) (λ s. refl)

module _ {W : Type 0} (pf : Platform W) where
  Keeps-plant : (i address : ℕ) → Keeps (plant pf i address)
  unfolding plant
  Keeps-plant i address = search (keeps, Keeps-save) depth 10

  Keeps-unplant : (address saved_data : ℕ) → Keeps (unplant pf address saved_data)
  unfolding unplant
  Keeps-unplant address saved_data = search keeps depth 8

  Keeps-arm : (i : ℕ) (site : BreakpointSite) → Keeps (arm pf i site)
  unfolding arm
  Keeps-arm i site = search (keeps, Keeps-set_hardware_breakpoint, Keeps-index) depth 10

  Keeps-disarm : (i : ℕ) (site : BreakpointSite) → Keeps (disarm pf i site)
  unfolding disarm
  Keeps-disarm i site = search (keeps, Keeps-clear_hardware_stoppoint, Keeps-index) depth 10

  -- Enabling a site, in software or in hardware, leaves the sites' addresses, ids and kinds and the id
  -- counter as they were, whether it succeeds or throws.
  pub Keeps-enable : (i : ℕ) → Keeps (enable pf i)
  unfolding enable
  Keeps-enable i = search (keeps, Keeps-site_at, Keeps-arm, Keeps-plant, Keeps-mark) depth 12

  pub Keeps-disable : (i : ℕ) → Keeps (disable pf i)
  unfolding disable
  Keeps-disable i = search (keeps, Keeps-site_at, Keeps-disarm, Keeps-unplant, Keeps-mark) depth 12
