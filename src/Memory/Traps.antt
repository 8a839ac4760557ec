-- ===== src/Memory/Traps.antt =====
-- `process::read_memory_without_traps` of src/process.cpp: the bytes that breakpoints replaced are put
-- back into what was read.
use sdb_building_a_debugger.Base.{
  ℕ, zero, suc, ◌+◌, ◌^◌, ◌≤◌, ◌<◌, ◌≡◌, refl, arith, not, ◌&&◌, List, [], ◌∷◌, length, set, get_or,
  length-set, ◌==◌, if◌then◌else◌, All, inl, inr,
}
use sdb_building_a_debugger.Platform.{Platform}
use sdb_building_a_debugger.Types.VirtAddr
use sdb_building_a_debugger.Process.State.{Process, BreakpointSite}
use sdb_building_a_debugger.Process.Run.{returned, Sys-cases}
use sdb_building_a_debugger.Stoppoints.{get_in_region, breakpoint_stoppoint}
use sdb_building_a_debugger.Memory.Chunks.{length-fill_buffer}
use sdb_building_a_debugger.Memory.{
  remote_descs, restore_byte, restore_bytes, read_memory, read_memory_without_traps,
}

-- What the program has at an address, where `b` was read: the byte that the last enabled software
-- site at the address keeps, or `b` where there is none.
abbrev pub own_byte : List BreakpointSite → ℕ → ℕ → ℕ
own_byte [] c b = b
own_byte (s ∷ ss) c b =
    own_byte ss c
      (if s.is_enabled && (not s.is_hardware && s.address == c) then s.saved_data else b)

abbrev pub IsAddress : BreakpointSite → Type 0
IsAddress s = s.address < 2 ^ 64

get_or-set :
    (xs : List ℕ) (i j v : ℕ)
    → j < length xs
    → get_or (set xs i v) j 0 ≡ (if i == j then v else get_or xs j 0)
get_or-set [] i j v h = absurd (omega arith)
get_or-set (x ∷ xs) zero zero v h = ground arith
get_or-set (x ∷ xs) zero (suc j) v h = ground arith
get_or-set (x ∷ xs) (suc i) zero v h = ground arith
get_or-set (x ∷ xs) (suc i) (suc j) v h = ground (arith, get_or-set xs i j v)

length-restore_byte :
    (a : ℕ) (s : BreakpointSite) (memory : List ℕ)
    → length (restore_byte a s memory) ≡ length memory
unfolding restore_byte
length-restore_byte a s memory =
    ground (arith, length-set memory (VirtAddr.sub s.address a) s.saved_data)

-- One site of the region.
restore_byte_lem :
    (a j : ℕ) (s : BreakpointSite) (memory : List ℕ)
    → j < length memory
    → a ≤ s.address
    → s.address < 2 ^ 64
    → get_or (restore_byte a s memory) j 0 ≡ (
        if s.is_enabled && (not s.is_hardware && s.address == a + j)
        then s.saved_data
        else get_or memory j 0)
unfolding restore_byte
restore_byte_lem a j s memory h low high =
    ground (arith, get_or-set memory (VirtAddr.sub s.address a) j s.saved_data)

-- All sites: those outside the region do not touch the bytes that were read.
restore_bytes_lem :
    (sites : List BreakpointSite) (a high j : ℕ) (memory : List ℕ)
    → All IsAddress sites
    → j < length memory
    → a + length memory ≡ high
    → get_or (restore_bytes a (get_in_region sites a high) memory) j 0
      ≡ own_byte sites (a + j) (get_or memory j 0)
unfolding restore_bytes get_in_region
restore_bytes_lem [] a high j memory good h e = refl
restore_bytes_lem (s ∷ ss) a high j memory good h e =
    let kept = length-restore_byte a s memory in
    ground (
      arith,
      kept,
      restore_byte_lem a j s memory,
      restore_bytes_lem ss a high j memory good.1,
      restore_bytes_lem ss a high j (restore_byte a s memory) good.1,
    )

module _ {W : Type 0} (pf : Platform W) where
  -- A read changes nothing in the process, and returns as many bytes as were asked for.
  pub read_memory_lem :
      (p q : Process W) (a n : ℕ) (raw : List ℕ)
      → read_memory pf a n p ≡ returned raw q
      → (q ≡ p) × (length raw ≡ n)
  unfolding read_memory
  read_memory_lem p q a n raw e =
      elim (Sys-cases (pf.process_vm_readv p.pid (remote_descs n a n) p.world)) [
        | inl (bytes, f) ↦ ground (arith, length-fill_buffer n bytes)
        | inr (k, f) ↦ absurd (ground arith)
      ]

  -- Where `read_memory` reads a range that does not wrap, `read_memory_without_traps` succeeds too, and
  -- each of its bytes is the one that the last enabled software site at that address keeps, or the
  -- byte that was read where there is no such site.
  pub read_memory_without_traps_lem :
      (p q : Process W) (a n j : ℕ) (raw : List ℕ)
      → All IsAddress p.breakpoint_sites
      → a + n < 2 ^ 64
      → j < n
      → read_memory pf a n p ≡ returned raw q
      → (bytes : List ℕ) × (read_memory_without_traps pf a n p ≡ returned bytes q)
        × (get_or bytes j 0 ≡ own_byte p.breakpoint_sites (a + j) (get_or raw j 0))
  unfolding read_memory_without_traps
  read_memory_without_traps_lem p q a n j raw good fits inside e =
      let (same, size) = read_memory_lem p q a n raw e in
      let high : a + length raw ≡ VirtAddr.add a n = omega arith in
      (
        restore_bytes a (get_in_region p.breakpoint_sites a (VirtAddr.add a n)) raw,
        ground (arith, e, same),
        restore_bytes_lem p.breakpoint_sites a (VirtAddr.add a n) j raw good (omega arith) high,
      )
