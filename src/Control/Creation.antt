-- ===== src/Control/Creation.antt =====
-- Creating and removing breakpoint sites leaves what the program has in its memory:
-- `create_breakpoint_site` of src/process.cpp, and `remove_by_id` and `remove_by_address` of
-- include/libsdb/stoppoint_collection.hpp.
use sdb_building_a_debugger.Base.{
  ℕ, ◌^◌, ◌<◌, ◌≡◌, refl, sym, subst, ap, ◌∙◌, arith, Bool, false, [], ◌∷◌, ◌++◌, Option, none,
  some, get_elem?, get_elem?-set_found, ◌==◌, Bool-cases, Option-cases, inl, inr, All, All-append,
  ◌⊎◌, pos, negsuc, suc,
}
use sdb_building_a_debugger.Platform.{Platform}
use sdb_building_a_debugger.Memory.Model.{MemoryLaws}
use sdb_building_a_debugger.Process.State.{Process, BreakpointSite, new_site}
use sdb_building_a_debugger.Process.Run.{returned, Run-cases}
use sdb_building_a_debugger.Process.Keeps.{final}
use sdb_building_a_debugger.Stoppoints.{
  breakpoints, breakpoint_stoppoint, contains_address, push, erase, remove_found,
}
use sdb_building_a_debugger.Breakpoint.{
  disable, site_at, get_next_id, make_site, create_breakpoint_site,
}
use sdb_building_a_debugger.Breakpoint.Plant.{disable_cases}
use sdb_building_a_debugger.Control.Reach.{AllDistinct-erase, DistinctSites, create_distinct}
use sdb_building_a_debugger.Control.OwnBytes.{
  owned, IsSoftware, All-erase, All-get, owned-append_off, owned-erase_off,
}
use sdb_building_a_debugger.Control.Unseen.{IsPatched, Unseen, disable_unseen}

module _ {W : Type 0} (pf : Platform W) {pid : ℕ} {byte : W → ℕ → Option ℕ}
    (laws : MemoryLaws pf pid byte) where
  -- What `create_breakpoint_site` leaves.
  abbrev Created : Process W → Process W → ℕ → Type 0
  Created p q address =
      (q.pid ≡ p.pid)
      × (q.world ≡ p.world)
      × ((q.breakpoint_sites ≡ p.breakpoint_sites)
          ⊎ ((s : BreakpointSite) × (q.breakpoint_sites ≡ p.breakpoint_sites ++ s ∷ [])
              × (s.is_enabled ≡ false)
              × (s.is_hardware ≡ false)
              × (s.saved_data ≡ 0)
              × (s.address ≡ address)))

  created :
      (p : Process W) (address : ℕ) (internal : Bool)
      → Created p (final (create_breakpoint_site address false internal p)) address
  unfolding create_breakpoint_site make_site get_next_id push
  created p address internal = elim (Bool-cases (contains_address p.breakpoint_sites address)) [
    | inl taken ↦ rw taken (refl, refl, inl refl)
    | inr free ↦ elim (Bool-cases internal) [
      | inl hidden ↦ (
        ground arith,
        ground arith,
        inr (new_site (negsuc 0) address false internal, ground arith, refl, refl, refl, refl),
      )
      | inr shown ↦ elim (Bool-cases (p.breakpoint_id == 0x7fff_ffff)) [
        | inl last ↦ (ground arith, ground arith, inl (ground arith))
        | inr more ↦ (
          ground arith,
          ground arith,
          inr (
            new_site (pos (suc p.breakpoint_id)) address false internal,
            ground arith,
            refl,
            refl,
            refl,
            refl,
          ),
        )
      ]
    ]
  ]

  appended :
      (p q : Process W) (address : ℕ)
      → address < 2 ^ 64
      → DistinctSites q
      → Created p q address
      → IsPatched pf laws p
      → Unseen pf laws p q
  appended p q address fits distinct (pids, worlds, inl same) good = (
    record {
      inferior = pids ∙ good.inferior;
      distinct = distinct;
      software = subst (All IsSoftware) (sym same) good.software;
    },
    λ c. ground (arith),
  )
  appended p q address fits distinct (pids, worlds, inr (s, grown, off, soft, clear, at)) good = (
    record {
      inferior = pids ∙ good.inferior;
      distinct = distinct;
      software = subst (All IsSoftware) (sym grown) (
          All-append IsSoftware p.breakpoint_sites (s ∷ []) good.software
            ((soft, omega arith, omega arith), tt));
    },
    λ c.
        ap (λ ss. owned ss c (byte q.world c)) grown
        ∙ owned-append_off p.breakpoint_sites s c (byte q.world c) off
        ∙ ap (λ w. owned p.breakpoint_sites c (byte w c)) worlds,
  )

  pub create_unseen :
      (p : Process W) (address : ℕ) (internal : Bool)
      → address < 2 ^ 64
      → IsPatched pf laws p
      → Unseen pf laws p (final (create_breakpoint_site address false internal p))
  create_unseen p address internal fits good =
      appended p (final (create_breakpoint_site address false internal p)) address fits
        (create_distinct p address false internal good.distinct) (created p address internal) good

  -- After `disable` has returned, the site is not enabled, and so it can be taken away.
  disabled_off :
      (p q : Process W) (i : ℕ)
      → disable pf i p ≡ returned tt q
      → IsPatched pf laws p
      → (s : BreakpointSite) × (get_elem? q.breakpoint_sites i ≡ some s) × (s.is_enabled ≡ false)
  unfolding disable site_at
  disabled_off p q i run good = elim (Option-cases (get_elem? p.breakpoint_sites i)) [
    | inl absent ↦ absurd (ground arith)
    | inr (s, at) ↦ elim (Bool-cases s.is_enabled) [
      | inr off ↦ (s, ground arith, off)
      | inl on ↦
          let soft : IsSoftware s = All-get IsSoftware p.breakpoint_sites i s good.software at in
          let (word, e, d, r) = disable_cases pf laws p q i s at on soft.0 run in
          let t : BreakpointSite = record s { is_enabled = false } in
          (t, ground (arith, get_elem?-set_found p.breakpoint_sites i t at), refl)
    ]
  ]

  erased_unseen :
      (p q r : Process W) (i : ℕ) (s : BreakpointSite)
      → Unseen pf laws p q
      → get_elem? q.breakpoint_sites i ≡ some s
      → s.is_enabled ≡ false
      → r ≡ record q { breakpoint_sites = erase q.breakpoint_sites i }
      → Unseen pf laws p r
  erased_unseen p q r i s (good, same) at off e = subst (Unseen pf laws p) (sym e) (
    record {
      inferior = good.inferior;
      distinct = AllDistinct-erase q.breakpoint_sites i good.distinct;
      software = All-erase IsSoftware q.breakpoint_sites i good.software;
    },
    λ c. owned-erase_off q.breakpoint_sites i c s (byte q.world c) at off ∙ same c,
  )

  pub remove_unseen :
      (place : Option ℕ) (p : Process W)
      → IsPatched pf laws p
      → Unseen pf laws p (final (remove_found breakpoints (disable pf) place p))
  unfolding remove_found
  remove_unseen none p good = (good, λ c. refl)
  remove_unseen (some i) p good =
      let undone : Unseen pf laws p (final (disable pf i p)) = disable_unseen pf laws p i good in
      elim (Run-cases (disable pf i p)) [
        | inr (e, q, run) ↦ subst (Unseen pf laws p) (ground arith) undone
        | inl (_, q, run) ↦
            let (s, at, off) = disabled_off p q i run good in
            erased_unseen p q _ i s (subst (λ m. Unseen pf laws p (final m)) run undone) at off
              (ground arith)
      ]
