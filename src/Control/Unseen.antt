-- ===== src/Control/Unseen.antt =====
-- Breakpoint sites and the program that is debugged: `enable` and `disable` of
-- src/breakpoint_site.cpp change what is in memory, and not what the program has there.
use sdb_building_a_debugger.Base.{
  ℕ, ◌^◌, ◌<◌, ◌≡◌, refl, sym, subst, ap, ◌∙◌, arith, true, false, [], ◌∷◌, Option, some, get_elem?,
  set, get_elem?-set_found, set_same, ◌==◌, Bool-cases, Option-cases, inl, inr, All, bit_and,
}
use sdb_building_a_debugger.Platform.{Platform}
use sdb_building_a_debugger.Memory.Model.{MemoryLaws, InPage}
use sdb_building_a_debugger.Memory.Word.{low_byte}
use sdb_building_a_debugger.Process.State.{Process, BreakpointSite}
use sdb_building_a_debugger.Process.Run.{Failure, returned, threw, Run-cases, Sys-cases}
use sdb_building_a_debugger.Process.Keeps.{final}
use sdb_building_a_debugger.Stoppoints.{breakpoint_stoppoint}
use sdb_building_a_debugger.Breakpoint.{
  with_low_byte, int3, enable, disable, site_at, plant, unplant, update_site,
}
use sdb_building_a_debugger.Breakpoint.Plant.{
  enable_cases, disable_cases, poke_low, poke_low_failed, first_byte, planted,
}
use sdb_building_a_debugger.Control.Reach.{AllDistinct, addresses, DistinctSites}
use sdb_building_a_debugger.Control.OwnBytes.{
  owned, IsSoftware, addresses-set, All-set, All-get, owned_update,
}

module _ {W : Type 0} (pf : Platform W) {pid : ℕ} {byte : W → ℕ → Option ℕ}
    (laws : MemoryLaws pf pid byte) where
  -- The memory with the bytes that enabled sites replaced put back.
  abbrev pub program_byte : Process W → ℕ → Option ℕ
  program_byte p c = owned p.breakpoint_sites c (byte p.world c)

  pub record IsPatched (p : Process W) : Type 0 where
    pub inferior : p.pid ≡ pid
    pub distinct : DistinctSites p
    pub software : All IsSoftware p.breakpoint_sites

  abbrev pub Unseen : Process W → Process W → Type 0
  Unseen p q = IsPatched q × ((c : ℕ) → program_byte q c ≡ program_byte p c)

  -- One site is replaced by one at the same address.
  replaced :
      (p q : Process W) (i : ℕ) (s t : BreakpointSite)
      → IsPatched p
      → get_elem? p.breakpoint_sites i ≡ some s
      → t.address ≡ s.address
      → IsSoftware t
      → q.breakpoint_sites ≡ set p.breakpoint_sites i t
      → q.pid ≡ p.pid
      → ((c : ℕ) → (s.address == c) ≡ false → byte q.world c ≡ byte p.world c)
      → ((c : ℕ)
          → (s.address == c) ≡ true
          → owned (t ∷ []) c (byte q.world c) ≡ owned (s ∷ []) c (byte p.world c))
      → Unseen p q
  replaced p q i s t good at same soft e pids elsewhere here = (
    record {
      inferior = pids ∙ good.inferior;
      distinct =
          subst AllDistinct (sym (ap addresses e ∙ addresses-set p.breakpoint_sites i s t at same))
            good.distinct;
      software =
          subst (All IsSoftware) (sym e)
            (All-set IsSoftware p.breakpoint_sites i t good.software soft);
    },
    λ c.
        ap (λ ss. owned ss c (byte q.world c)) e
        ∙ owned_update p.breakpoint_sites i c s t (byte p.world c) (byte q.world c) good.distinct at
            same (elsewhere c) (here c),
  )

  module _ (p : Process W) (i : ℕ) (s : BreakpointSite) (good : IsPatched p)
      (at : get_elem? p.breakpoint_sites i ≡ some s) where
    soft_site : IsSoftware s
    soft_site = All-get IsSoftware p.breakpoint_sites i s good.software at

    enabled_unseen :
        (q : Process W) → s.is_enabled ≡ false → enable pf i p ≡ returned tt q → Unseen p q
    enabled_unseen q off run =
        let (word, e, d, r) = enable_cases pf laws p q i s at off soft_site.0 run in
        let pids : p.pid ≡ pid = good.inferior in
        replaced p q i s (planted pf laws s word) good at refl
          (soft_site.0, omega (arith, low_byte word), soft_site.2) (ground arith) (ground arith)
          (λ c other. ground (arith, poke_low pf laws p.world s.address word int3 c))
          (λ c hit. ground (
            arith,
            poke_low pf laws p.world s.address word int3 c,
            first_byte pf laws p.world s.address word,
          ))

    enabling_failed :
        (q : Process W) (e : Failure)
        → s.is_enabled ≡ false
        → InPage s.address
        → enable pf i p ≡ threw e q
        → Unseen p q
    unfolding enable site_at plant update_site
    enabling_failed q e off page run =
        let pids : p.pid ≡ pid = good.inferior in
        let soft : s.is_hardware ≡ false = soft_site.0 in
        let small : s.address < 2 ^ 64 = soft_site.2 in
        elim (Sys-cases (pf.peek_data p.pid s.address p.world)) [
          | inr (n, f) ↦
              let same : q ≡ p = ground arith in subst (Unseen p) (sym same) (good, λ c. refl)
          | inl (word, f) ↦
              let marked : BreakpointSite = record s { saved_data = bit_and word 0xff } in
              let again = get_elem?-set_found p.breakpoint_sites i marked at in
              elim (Sys-cases (pf.poke_data p.pid s.address (with_low_byte word int3) p.world).0) [
                | inl (_, g) ↦ absurd (
                    ground (
                      arith,
                      again,
                      get_elem?-set_found (set p.breakpoint_sites i marked) i
                          (planted pf laws s word) again,
                    ))
                | inr (n, g) ↦
                    let quiet : (c : ℕ) → byte q.world c ≡ byte p.world c = λ c. ground (
                      arith,
                      again,
                      laws.poke_failed s.address (with_low_byte word int3) n c p.world
                          (ground arith) page,
                    ) in
                    replaced p q i s marked good at refl (soft, omega (arith, low_byte word), small)
                      (ground (arith, again)) (ground (arith, again)) (λ c other. quiet c)
                      (λ c hit. rw (quiet c) (sides (byte p.world c) c word off))
              ]
        ]
      where
        sides :
            (o : Option ℕ) (c word : ℕ)
            → s.is_enabled ≡ false
            → owned (record s { saved_data = bit_and word 0xff } ∷ []) c o ≡ owned (s ∷ []) c o
        sides o c word off = ground arith

    disabled_unseen :
        (q : Process W) → s.is_enabled ≡ true → disable pf i p ≡ returned tt q → Unseen p q
    disabled_unseen q on run =
        let (word, e, d, r) = disable_cases pf laws p q i s at on soft_site.0 run in
        let pids : p.pid ≡ pid = good.inferior in
        let small : s.saved_data < 256 = soft_site.1 in
        replaced p q i s (record s { is_enabled = false }) good at refl soft_site (ground arith)
          (ground arith)
          (λ c other. ground (arith, poke_low pf laws p.world s.address word s.saved_data c))
          (λ c hit. ground (
            arith,
            soft_site,
            poke_low pf laws p.world s.address word s.saved_data c,
            first_byte pf laws p.world s.address word,
          ))

  -- A call of `enable` that throws has the word of its site in one page.
  abbrev pub FailsInPage : Process W → ℕ → Type 0
  FailsInPage p i =
      (e : Failure) (q : Process W) (s : BreakpointSite)
      → enable pf i p ≡ threw e q
      → get_elem? p.breakpoint_sites i ≡ some s
      → InPage s.address

  pub enable_unseen :
      (p : Process W) (i : ℕ) → IsPatched p → FailsInPage p i → Unseen p (final (enable pf i p))
  unfolding enable site_at
  enable_unseen p i good page = elim (Option-cases (get_elem? p.breakpoint_sites i)) [
    | inl absent ↦ rw absent (good, λ c. refl)
    | inr (s, at) ↦ elim (Bool-cases s.is_enabled) [
      | inl on ↦ rw at (rw on (good, λ c. refl))
      | inr off ↦ elim (Run-cases (enable pf i p)) [
        | inl (_, q, run) ↦
            subst (λ r. Unseen p (final r)) (sym run) (enabled_unseen p i s good at q off run)
        | inr (e, q, run) ↦
            subst (λ r. Unseen p (final r)) (sym run)
              (enabling_failed p i s good at q e off (page e q s run at) run)
      ]
    ]
  ]

  disabling_failed :
      (p : Process W) (i : ℕ) (s : BreakpointSite) (q : Process W) (e : Failure)
      → IsPatched p
      → get_elem? p.breakpoint_sites i ≡ some s
      → s.is_enabled ≡ true
      → disable pf i p ≡ threw e q
      → Unseen p q
  unfolding disable site_at unplant update_site
  disabling_failed p i s q e good at on run =
      let soft : IsSoftware s = All-get IsSoftware p.breakpoint_sites i s good.software at in
      let pids : p.pid ≡ pid = good.inferior in
      elim (Sys-cases (pf.peek_data p.pid s.address p.world)) [
        | inr (n, f) ↦
            let same : q ≡ p = ground (arith, soft) in subst (Unseen p) (sym same) (good, λ c. refl)
        | inl (word, f) ↦
            elim (Sys-cases
              (pf.poke_data p.pid s.address (with_low_byte word s.saved_data) p.world).0) [
                | inl (_, g) ↦ absurd (ground (arith, soft))
                | inr (n, g) ↦
                    let sites : q.breakpoint_sites ≡ p.breakpoint_sites = ground (arith, soft) in
                    let there : q.world
                        ≡ (pf.poke_data pid s.address (with_low_byte word s.saved_data) p.world).1 =
                      ground (arith, soft) in
                    let part = λ (c : ℕ).
                      poke_low_failed pf laws p.world s.address word s.saved_data c n (ground arith)
                        soft.1 (ground arith) in
                    replaced p q i s s good at refl soft
                      (sites ∙ sym (set_same p.breakpoint_sites i s at)) (ground (arith, soft))
                      (λ c other. ground (arith, there, part c))
                      (λ c hit.
                        ground
                          (arith, there, on, part c, first_byte pf laws p.world s.address word))
              ]
      ]

  pub disable_unseen : (p : Process W) (i : ℕ) → IsPatched p → Unseen p (final (disable pf i p))
  unfolding disable site_at
  disable_unseen p i good = elim (Option-cases (get_elem? p.breakpoint_sites i)) [
    | inl absent ↦ rw absent (good, λ c. refl)
    | inr (s, at) ↦ elim (Bool-cases s.is_enabled) [
      | inr off ↦ rw at (rw off (good, λ c. refl))
      | inl on ↦ elim (Run-cases (disable pf i p)) [
        | inl (_, q, run) ↦
            subst (λ r. Unseen p (final r)) (sym run) (disabled_unseen p i s good at q on run)
        | inr (e, q, run) ↦
            subst (λ r. Unseen p (final r)) (sym run) (disabling_failed p i s q e good at on run)
      ]
    ]
  ]
