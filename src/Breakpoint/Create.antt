-- ===== src/Breakpoint/Create.antt =====
-- `process::create_breakpoint_site` (src/process.cpp).
use sdb_building_a_debugger.Base.{
  ℕ, suc, ◌<◌, ◌≡◌, arith, Bool, true, false, ◌==◌, inl, inr, Bool-cases, [], ◌∷◌, ◌++◌, length, ℤ,
  pos, negsuc,
}
use sdb_building_a_debugger.Process.State.{Process, BreakpointSite, new_site}
use sdb_building_a_debugger.Process.Run.{ok, returned, threw, Run-cases, error_at}
use sdb_building_a_debugger.Stoppoints.{
  breakpoint_stoppoint, contains_address, get_by_address, push, is_found, or_error,
}
use sdb_building_a_debugger.Stoppoints.Laws.{get_by_address_cases, find_index_append}
use sdb_building_a_debugger.Breakpoint.{get_next_id, make_site, create_breakpoint_site}

abbrev id_for : ℕ → Bool → ℤ
id_for counter true = negsuc 0
id_for counter false = pos (suc counter)

abbrev counter_for : ℕ → Bool → ℕ
counter_for counter true = counter
counter_for counter false = suc counter

module _ {W : Type 0} where
  -- Where no site is at the address and the id counter is not used up, a new disabled site is put
  -- behind the others, its place is returned, a lookup by the address finds it, and nothing else of
  -- the process but the id counter changes. An internal site has the id -1 and uses up no id.
  pub create_lem :
      (p : Process W) (address : ℕ) (hardware internal : Bool)
      → contains_address p.breakpoint_sites address ≡ false
      → p.breakpoint_id < 0x7fff_ffff
      → (create_breakpoint_site address hardware internal p
          ≡ returned (length p.breakpoint_sites) (record p {
            breakpoint_sites =
                p.breakpoint_sites
                ++ new_site (id_for p.breakpoint_id internal) address hardware internal ∷ [];
            breakpoint_id = counter_for p.breakpoint_id internal;
          }))
        × (get_by_address
              (p.breakpoint_sites
                ++ new_site (id_for p.breakpoint_id internal) address hardware internal ∷ [])
              address
            ≡ ok (length p.breakpoint_sites))
  unfolding create_breakpoint_site make_site get_next_id push get_by_address
  create_lem p address hardware internal free room =
      elim (get_by_address_cases p.breakpoint_sites address) [
        | inl (taken, _) ↦ absurd (ground arith)
        | inr (_, _, no_one) ↦
            let site = new_site (id_for p.breakpoint_id internal) address hardware internal in
            let found =
              find_index_append (λ x. x.address == address) p.breakpoint_sites site no_one
                (ground arith) in
            elim (Bool-cases internal) [
              | inl i ↦ (ground arith, rw (found, or_error))
              | inr i ↦ (ground arith, rw (found, or_error))
            ]
      ]

  pub make_site_cases :
      (p q : Process W) (address : ℕ) (hardware internal : Bool) (site : BreakpointSite)
      → make_site address hardware internal p ≡ returned site q
      → (site.address ≡ address) × (q.breakpoint_sites ≡ p.breakpoint_sites)
  unfolding make_site get_next_id
  make_site_cases p q address hardware true site run = ground arith
  make_site_cases p q address hardware false site run =
      elim (Bool-cases (p.breakpoint_id == 0x7fff_ffff)) [
        | inl last ↦ absurd (ground arith)
        | inr more ↦ ground arith
      ]

  -- A second site at an address is refused: `create_breakpoint_site` throws, and the process is as
  -- before.
  pub create_twice :
      (p q : Process W) (address i : ℕ) (hardware internal again inner : Bool)
      → create_breakpoint_site address hardware internal p ≡ returned i q
      → create_breakpoint_site address again inner q
        ≡ threw (error_at "breakpoint site already created at address " address) q
  unfolding create_breakpoint_site push contains_address
  create_twice p q address i hardware internal again inner run =
      elim (get_by_address_cases p.breakpoint_sites address) [
        | inl (taken, _) ↦ absurd (ground arith)
        | inr (free, _, no_one) ↦ elim (Run-cases (make_site address hardware internal p)) [
          | inr (e, r, h) ↦ absurd (ground arith)
          | inl (site, r, h) ↦
              let (here, same) = make_site_cases p r address hardware internal site h in
              let found =
                find_index_append (λ x. x.address == address) p.breakpoint_sites site no_one
                  (ground arith) in
              let grown : q.breakpoint_sites ≡ p.breakpoint_sites ++ site ∷ [] = ground arith in
              let taken : contains_address q.breakpoint_sites address ≡ true =
                rw (grown, found, is_found) in
              ground arith
        ]
      ]
