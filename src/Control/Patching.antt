-- ===== src/Control/Patching.antt =====
-- The program behind its breakpoints: `create_breakpoint_site` and `read_memory_without_traps` of
-- src/process.cpp, `enable` and `disable` of src/breakpoint_site.cpp, and `remove_by_id` and
-- `remove_by_address` of include/libsdb/stoppoint_collection.hpp.
use sdb_building_a_debugger.Base.{
  ℕ, ◌+◌, ◌^◌, ◌≤◌, ◌<◌, ◌≡◌, refl, sym, subst, ap, ◌∙◌, arith, Bool, false, List, [], Option, some,
  get_or, All, ℤ,
}
use sdb_building_a_debugger.Platform.{Platform}
use sdb_building_a_debugger.Memory.Model.{MemoryLaws, stretch}
use sdb_building_a_debugger.Process.State.{Process}
use sdb_building_a_debugger.Process.Run.{returned}
use sdb_building_a_debugger.Process.Keeps.{final}
use sdb_building_a_debugger.Stoppoints.{
  breakpoint_stoppoint, remove_by_id, remove_by_address, find_by_id, find_by_address,
}
use sdb_building_a_debugger.Breakpoint.{
  enable, disable, create_breakpoint_site, remove_site_by_id, remove_site_by_address,
}
use sdb_building_a_debugger.Control.Reach.{AllDistinct, addresses}
use sdb_building_a_debugger.Control.OwnBytes.{
  owned, owned-nil, owned_off, owned_mapped, IsSoftware, IsSoftware-IsAddress,
}
use sdb_building_a_debugger.Memory.{read_memory_without_traps}
use sdb_building_a_debugger.Memory.Traps.{read_memory_without_traps_lem}
use sdb_building_a_debugger.Memory.Stretch.{stretch_mapped, get_or-stretch, read_memory_mapped}
use sdb_building_a_debugger.Control.Unseen.{
  program_byte, IsPatched, FailsInPage, Unseen, enable_unseen, disable_unseen,
}
use sdb_building_a_debugger.Control.Creation.{create_unseen, remove_unseen}

module _ {W : Type 0} (pf : Platform W) {pid : ℕ} {byte : W → ℕ → Option ℕ}
    (laws : MemoryLaws pf pid byte) where
  -- A call on the breakpoint sites: the process that it leaves, whether it returns or throws. A call
  -- of `enable` that throws is one on a site whose word lies in one page.
  pub data Patching : Process W → Process W → Type 0 where
    create :
        (p : Process W) (address : ℕ) (internal : Bool)
        → address < 2 ^ 64
        → Patching p (final (create_breakpoint_site address false internal p))
    enabling :
        (p : Process W) (i : ℕ) → FailsInPage pf laws p i → Patching p (final (enable pf i p))
    disabling : (p : Process W) (i : ℕ) → Patching p (final (disable pf i p))
    removing_by_id : (p : Process W) (id : ℤ) → Patching p (final (remove_site_by_id pf id p))
    removing_by_address :
        (p : Process W) (address : ℕ) → Patching p (final (remove_site_by_address pf address p))

  pub data Patched : Process W → Process W → Type 0 where
    here : (p : Process W) → Patched p p
    further : (p q r : Process W) → Patched p q → Patching q r → Patched p r

  Patching-Unseen : (p q : Process W) → Patching p q → IsPatched pf laws p → Unseen pf laws p q
  unfolding remove_site_by_id remove_site_by_address remove_by_id remove_by_address
  Patching-Unseen _ _ (create p address internal fits) good =
      create_unseen pf laws p address internal fits good
  Patching-Unseen _ _ (enabling p i page) good = enable_unseen pf laws p i good page
  Patching-Unseen _ _ (disabling p i) good = disable_unseen pf laws p i good
  Patching-Unseen _ _ (removing_by_id p id) good =
      remove_unseen pf laws (find_by_id p.breakpoint_sites id) p good
  Patching-Unseen _ _ (removing_by_address p a) good =
      remove_unseen pf laws (find_by_address p.breakpoint_sites a) p good

  Patched-Unseen : (p q : Process W) → Patched p q → IsPatched pf laws p → Unseen pf laws p q
  Patched-Unseen _ _ (here p) good = (good, λ c. refl)
  Patched-Unseen _ _ (further p q r before s) good =
      let (kept, same) = Patched-Unseen p q before good in
      let (still, now) = Patching-Unseen q r s kept in (still, λ c. now c ∙ same c)

  program_byte_none :
      (p : Process W) (c : ℕ) → p.breakpoint_sites ≡ [] → program_byte pf laws p c ≡ byte p.world c
  program_byte_none p c empty =
      ap (λ ss. owned ss c (byte p.world c)) empty ∙ owned-nil c (byte p.world c)

  fresh : (p : Process W) → p.pid ≡ pid → p.breakpoint_sites ≡ [] → IsPatched pf laws p
  fresh p same empty = record {
    inferior = same;
    distinct = subst (λ ss. AllDistinct (addresses ss)) (sym empty) tt;
    software = subst (All IsSoftware) (sym empty) tt;
  }

  -- Where `PTRACE_PEEKDATA`, `PTRACE_POKEDATA` and `process_vm_readv` read and write one memory,
  -- and the process has no breakpoint site at first: whatever sequence is made of creating
  -- software sites at 64-bit addresses, enabling, disabling and removing sites, and whether the
  -- calls return or throw (`enable` only for a site whose eight bytes lie in one page), for a range
  -- of at most 0x3ff000 bytes that were mapped at the start and that does not wrap
  -- `read_memory_without_traps` then succeeds, and returns at each place the byte that the memory
  -- had there at the start.
  pub reads_unpatched :
      (p q : Process W) (a n j : ℕ) (bs : List ℕ)
      → p.pid ≡ pid
      → p.breakpoint_sites ≡ []
      → Patched p q
      → a + n < 2 ^ 64
      → n ≤ 0x3f_f000
      → j < n
      → stretch (byte p.world) a n ≡ some bs
      → (bytes : List ℕ) × (read_memory_without_traps pf a n q ≡ returned bytes q)
        × (get_or bytes j 0 ≡ get_or bs j 0)
  reads_unpatched p q a n j bs same empty run fits few inside mapped =
      let (good, unseen) = Patched-Unseen p q run (fresh p same empty) in
      let shows : (i : ℕ) → i < n → program_byte pf laws q (a + i) ≡ some (get_or bs i 0) = λ i h.
        unseen (a + i)
        ∙ program_byte_none p (a + i) empty
        ∙ get_or-stretch (byte p.world) n a i bs mapped h in
      let (raw, there) = stretch_mapped (byte q.world) n a (λ i h none_there.
        owned_mapped q.breakpoint_sites (a + i) (get_or bs i 0) (byte q.world (a + i)) (shows i h)
          none_there) in
      let (bytes, reads, at) =
        read_memory_without_traps_lem pf q q a n j raw
          (IsSoftware-IsAddress q.breakpoint_sites good.software) fits inside
          (read_memory_mapped pf laws q a n raw good.inferior fits few there) in
      (
        bytes,
        reads,
        ground (arith, at, shows j inside, get_or-stretch (byte q.world) n a j raw there inside),
      )

  -- Where `PTRACE_PEEKDATA` and `PTRACE_POKEDATA` read and write one memory, and the process has
  -- no breakpoint site at first: whatever sequence is made of creating software sites at 64-bit
  -- addresses, enabling, disabling and removing sites, and whether the calls return or throw
  -- (`enable` only for a site whose eight bytes lie in one page), when no site is enabled in the
  -- end, every byte of the memory is as it was at the start.
  pub memory_unpatched :
      (p q : Process W) (c : ℕ)
      → p.pid ≡ pid
      → p.breakpoint_sites ≡ []
      → Patched p q
      → All (λ s. s.is_enabled ≡ false) q.breakpoint_sites
      → byte q.world c ≡ byte p.world c
  memory_unpatched p q c same empty run off =
      let (_, unseen) = Patched-Unseen p q run (fresh p same empty) in
      sym (owned_off q.breakpoint_sites c (byte q.world c) off)
      ∙ unseen c
      ∙ program_byte_none p c empty
