-- ===== src/Control/Reach.antt =====
-- The breakpoint sites over a whole run of the debugger: the operations on sites and on the running
-- inferior as steps, from any process that `process::launch` or `process::attach` starts with.
use sdb_building_a_debugger.Base.{
  ℕ, zero, suc, ◌≡◌, refl, sym, ap, ◌∙◌, subst, arith, Bool, true, false, ◌==◌, List, [], ◌∷◌, ◌++◌,
  map, Option, some, none, Bool-cases, inl, inr, ℤ,
}
use sdb_building_a_debugger.Platform.{Platform}
use sdb_building_a_debugger.Process.State.{Process, BreakpointSite, new_process}
use sdb_building_a_debugger.Process.Run.{Failure, returned, threw, Run-cases}
use sdb_building_a_debugger.Process.Keeps.{Key, key, final, SameSites}
use sdb_building_a_debugger.Stoppoints.{
  breakpoints, breakpoint_stoppoint, contains_address, push, erase, remove_found, remove_by_id,
  remove_by_address, find_by_id, find_by_address,
}
use sdb_building_a_debugger.Stoppoints.Laws.{NoneIs, get_by_address_cases}
use sdb_building_a_debugger.Breakpoint.{
  get_next_id, enable, disable, make_site, create_breakpoint_site, remove_site_by_id,
  remove_site_by_address,
}
use sdb_building_a_debugger.Breakpoint.Create.{make_site_cases}
use sdb_building_a_debugger.Breakpoint.Keeps.{Keeps-enable, Keeps-disable}
use sdb_building_a_debugger.Control.Resume.{resume, wait_on_signal, step_instruction}
use sdb_building_a_debugger.Control.Keeps.{
  Keeps-resume, Keeps-wait_on_signal, Keeps-step_instruction,
}

-- No address occurs twice.
abbrev pub Absent : ℕ → List ℕ → Type 0
Absent a [] = Unit {0}
Absent a (b ∷ bs) = ((b == a) ≡ false) × Absent a bs

abbrev pub AllDistinct : List ℕ → Type 0
AllDistinct [] = Unit {0}
AllDistinct (a ∷ cs) = Absent a cs × AllDistinct cs

abbrev pub addresses : List BreakpointSite → List ℕ
addresses [] = []
addresses (s ∷ ss) = s.address ∷ addresses ss

Absent-append : (a b : ℕ) (bs : List ℕ) → Absent a bs → (b == a) ≡ false → Absent a (bs ++ b ∷ [])
Absent-append a b [] h e = (e, tt)
Absent-append a b (c ∷ cs) h e = (h.0, Absent-append a b cs h.1 e)

addresses-append :
    (ss : List BreakpointSite) (s : BreakpointSite)
    → addresses (ss ++ s ∷ []) ≡ addresses ss ++ s.address ∷ []
addresses-append [] s = refl
addresses-append (t ∷ ts) s = ap (◌∷◌ t.address) (addresses-append ts s)

==_comm_false : (a b : ℕ) → (a == b) ≡ false → (b == a) ≡ false
==_comm_false a b h = ground arith

AllDistinct-append :
    (b : ℕ) (cs : List ℕ) → AllDistinct cs → Absent b cs → AllDistinct (cs ++ b ∷ [])
AllDistinct-append b [] h g = (tt, tt)
AllDistinct-append b (a ∷ cs) h g =
    (Absent-append a b cs h.0 (==_comm_false a b g.0), AllDistinct-append b cs h.1 g.1)

NoneIs-Absent :
    (a : ℕ) (ss : List BreakpointSite) → NoneIs (λ s. s.address == a) ss → Absent a (addresses ss)
NoneIs-Absent a [] h = tt
NoneIs-Absent a (s ∷ ss) h = (h.0, NoneIs-Absent a ss h.1)

Absent-erase :
    (a : ℕ) (ss : List BreakpointSite) (i : ℕ)
    → Absent a (addresses ss)
    → Absent a (addresses (erase ss i))
unfolding erase
Absent-erase a [] i h = tt
Absent-erase a (s ∷ ss) zero h = h.1
Absent-erase a (s ∷ ss) (suc i) h = (h.0, Absent-erase a ss i h.1)

pub AllDistinct-erase :
    (ss : List BreakpointSite) (i : ℕ)
    → AllDistinct (addresses ss)
    → AllDistinct (addresses (erase ss i))
unfolding erase
AllDistinct-erase [] i h = tt
AllDistinct-erase (s ∷ ss) zero h = h.1
AllDistinct-erase (s ∷ ss) (suc i) h = (Absent-erase s.address ss i h.0, AllDistinct-erase ss i h.1)

-- The addresses are part of the keys.
abbrev key_addresses : List Key → List ℕ
key_addresses [] = []
key_addresses (k ∷ ks) = k.address ∷ key_addresses ks

addresses-key : (ss : List BreakpointSite) → addresses ss ≡ key_addresses (map key ss)
addresses-key [] = refl
addresses-key (s ∷ ss) = ap (◌∷◌ s.address) (addresses-key ss)

abbrev pub DistinctSites : {W : Type 0} → Process W → Type 0
DistinctSites p = AllDistinct (addresses p.breakpoint_sites)

module _ {W : Type 0} where
  pub SameSites-DistinctSites :
      (p q : Process W) → SameSites p q → DistinctSites p → DistinctSites q
  SameSites-DistinctSites p q same h =
      subst AllDistinct
        (addresses-key p.breakpoint_sites
          ∙ ap key_addresses (sym same.0)
          ∙ sym (addresses-key q.breakpoint_sites))
        h

  make_site_threw :
      (p r : Process W) (address : ℕ) (hardware internal : Bool) (e : Failure)
      → make_site address hardware internal p ≡ threw e r
      → r.breakpoint_sites ≡ p.breakpoint_sites
  unfolding make_site get_next_id
  make_site_threw p r address hardware true e run = absurd (ground arith)
  make_site_threw p r address hardware false e run =
      elim (Bool-cases (p.breakpoint_id == 0x7fff_ffff)) [
        | inl last ↦ ground arith
        | inr more ↦ absurd (ground arith)
      ]

  pub create_distinct :
      (p : Process W) (address : ℕ) (hardware internal : Bool)
      → DistinctSites p
      → DistinctSites (final (create_breakpoint_site address hardware internal p))
  unfolding create_breakpoint_site push
  create_distinct p address hardware internal h =
      elim (get_by_address_cases p.breakpoint_sites address) [
        | inl (taken, _) ↦ ground arith
        | inr (free, _, no_one) ↦ elim (Run-cases (make_site address hardware internal p)) [
          | inr (e, r, g) ↦ subst DistinctSites (sym (stays e r g free)) (
              subst AllDistinct
                (ap addresses (sym (make_site_threw p r address hardware internal e g))) h)
          | inl (site, r, g) ↦
              let (at_address, same) = make_site_cases p r address hardware internal site g in
              let grown : (final
                    (create_breakpoint_site address hardware internal p)).breakpoint_sites
                  ≡ p.breakpoint_sites ++ site ∷ [] =
                ground arith in
              subst AllDistinct (ap addresses (sym grown)) (
                subst AllDistinct (sym (addresses-append p.breakpoint_sites site)) (
                  AllDistinct-append site.address (addresses p.breakpoint_sites) h (
                    subst (λ a. Absent a (addresses p.breakpoint_sites)) (sym at_address)
                      (NoneIs-Absent address p.breakpoint_sites no_one))))
        ]
      ]
    where
      stays :
          (e : Failure) (r : Process W)
          → make_site address hardware internal p ≡ threw e r
          → contains_address p.breakpoint_sites address ≡ false
          → final (create_breakpoint_site address hardware internal p) ≡ r
      stays e r g free = ground arith

module _ {W : Type 0} (pf : Platform W) where
  pub remove_distinct :
      (place : Option ℕ) (p : Process W)
      → DistinctSites p
      → DistinctSites (final (remove_found breakpoints (disable pf) place p))
  unfolding remove_found
  remove_distinct none p h = h
  remove_distinct (some i) p h = elim (Run-cases (disable pf i p)) [
    | inr (e, q, g) ↦ subst DistinctSites (sym (fails e q g)) (
        SameSites-DistinctSites p q
          (subst (λ r. SameSites p (final r)) g ((Keeps-disable pf i).same p)) h)
    | inl (_, q, g) ↦ subst AllDistinct (ap addresses (sym (erased q g))) (
        AllDistinct-erase q.breakpoint_sites i (
          SameSites-DistinctSites p q
            (subst (λ r. SameSites p (final r)) g ((Keeps-disable pf i).same p)) h))
  ]
    where
      fails :
          (e : Failure) (q : Process W)
          → disable pf i p ≡ threw e q
          → final (remove_found breakpoints (disable pf) (some i) p) ≡ q
      fails e q g = ground arith

      erased :
          (q : Process W)
          → disable pf i p ≡ returned tt q
          → (final (remove_found breakpoints (disable pf) (some i) p)).breakpoint_sites
            ≡ erase q.breakpoint_sites i
      erased q g = ground arith

  -- One call of the debugger: the process that it leaves, whether it returns or throws.
  pub data Step : Process W → Process W → Type 0 where
    create :
        (p : Process W) (address : ℕ) (hardware internal : Bool)
        → Step p (final (create_breakpoint_site address hardware internal p))
    removing_by_id : (p : Process W) (id : ℤ) → Step p (final (remove_site_by_id pf id p))
    removing_by_address :
        (p : Process W) (address : ℕ) → Step p (final (remove_site_by_address pf address p))
    enabling : (p : Process W) (i : ℕ) → Step p (final (enable pf i p))
    disabling : (p : Process W) (i : ℕ) → Step p (final (disable pf i p))
    resuming : (p : Process W) → Step p (final (resume pf p))
    waiting : (p : Process W) (fuel : ℕ) → Step p (final (wait_on_signal pf fuel p))
    stepping : (p : Process W) (fuel : ℕ) → Step p (final (step_instruction pf fuel p))

  pub data Reach : Process W → Process W → Type 0 where
    here : (p : Process W) → Reach p p
    further : (p q r : Process W) → Reach p q → Step q r → Reach p r

  Step-DistinctSites : (p q : Process W) → Step p q → DistinctSites p → DistinctSites q
  unfolding remove_site_by_id remove_site_by_address remove_by_id remove_by_address
  Step-DistinctSites _ _ (create p address hardware internal) h =
      create_distinct p address hardware internal h
  Step-DistinctSites _ _ (removing_by_id p id) h =
      remove_distinct (find_by_id p.breakpoint_sites id) p h
  Step-DistinctSites _ _ (removing_by_address p a) h =
      remove_distinct (find_by_address p.breakpoint_sites a) p h
  Step-DistinctSites _ _ (enabling p i) h =
      SameSites-DistinctSites p (final (enable pf i p)) ((Keeps-enable pf i).same p) h
  Step-DistinctSites _ _ (disabling p i) h =
      SameSites-DistinctSites p (final (disable pf i p)) ((Keeps-disable pf i).same p) h
  Step-DistinctSites _ _ (resuming p) h =
      SameSites-DistinctSites p (final (resume pf p)) ((Keeps-resume pf).same p) h
  Step-DistinctSites _ _ (waiting p fuel) h =
      SameSites-DistinctSites p (final (wait_on_signal pf fuel p))
        ((Keeps-wait_on_signal pf fuel).same p) h
  Step-DistinctSites _ _ (stepping p fuel) h =
      SameSites-DistinctSites p (final (step_instruction pf fuel p))
        ((Keeps-step_instruction pf fuel).same p) h

  -- From a new process, whatever sequence is made of creating, removing, enabling and disabling
  -- breakpoint sites, resuming, waiting and stepping, and whether the calls return or throw, no two
  -- breakpoint sites of the process have the same address.
  pub sites_distinct :
      (w : W) (pid : ℕ) (terminate_on_end is_attached : Bool) (user : List ℕ) (id point_id : ℕ)
      (q : Process W)
      → Reach (new_process w pid terminate_on_end is_attached user id point_id) q
      → DistinctSites q
  unfolding new_process
  sites_distinct w pid terminate_on_end is_attached user id point_id q run = along _ q run tt
    where
      along : (p q : Process W) → Reach p q → DistinctSites p → DistinctSites q
      along _ _ (here p) h = h
      along _ _ (further p q r before s) h = Step-DistinctSites q r s (along p q before h)
