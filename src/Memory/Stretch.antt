-- ===== src/Memory/Stretch.antt =====
-- Mapped stretches of the inferior's memory, and the descriptors of `process::read_memory` over them.
use sdb_building_a_debugger.Base.{
  ℕ, zero, suc, ◌+◌, ◌-◌, ◌%◌, ◌^◌, ◌≤◌, ◌<◌, min, ◌≡◌, ◌≢◌, refl, ◌∙◌, arith, List, [], ◌∷◌,
  length, get_or, Option, none, some, Option-cases, Bool-cases, ltb, All, inl, inr, bit_and, IsByte,
}
use sdb_building_a_debugger.Platform.{Platform}
use sdb_building_a_debugger.Types.VirtAddr
use sdb_building_a_debugger.Process.State.{Process}
use sdb_building_a_debugger.Process.Run.{returned}
use sdb_building_a_debugger.Memory.{remote_descs, read_memory}
use sdb_building_a_debugger.Memory.Model.{MemoryLaws, stretch, gather, append?}
use sdb_building_a_debugger.Memory.Chunks.{page_offset, fill_buffer_full, remote_descs_bound}

-- A mapped stretch of memory, cut in two.
stretch-split :
    (memory : ℕ → Option ℕ) (m n k a b : ℕ)
    → m + n ≡ k
    → a + m ≡ b
    → stretch memory a k ≡ append? (stretch memory a m) (stretch memory b n)
stretch-split memory zero n k a b e f =
    let same : k ≡ n = omega arith in
    let here : b ≡ a = omega arith in
    rw (same, here) (elim (Option-cases (stretch memory a n)) [ inl g ↦ rw g | inr (bs, g) ↦ rw g ])
stretch-split memory (suc m) n zero a b e f = absurd (omega arith)
stretch-split memory (suc m) n (suc k) a b e f =
    ground (arith, stretch-split memory m n k (a + 1) b (omega arith) (omega arith))

pub length-stretch :
    (memory : ℕ → Option ℕ) (n a : ℕ) (bs : List ℕ) → stretch memory a n ≡ some bs → length bs ≡ n
length-stretch memory zero a bs e = ground arith
length-stretch memory (suc n) a bs e = elim (Option-cases (stretch memory (a + 1) n)) [
  | inl g ↦ absurd (ground arith)
  | inr (cs, g) ↦ ground (arith, length-stretch memory n (a + 1) cs)
]

-- The byte at a place of a mapped stretch.
pub get_or-stretch :
    (memory : ℕ → Option ℕ) (n a i : ℕ) (bs : List ℕ)
    → stretch memory a n ≡ some bs
    → i < n
    → memory (a + i) ≡ some (get_or bs i 0)
get_or-stretch memory zero a i bs e h = absurd (omega arith)
get_or-stretch memory (suc n) a zero bs e h = elim (Option-cases (stretch memory (a + 1) n)) [
  | inl g ↦ absurd (ground arith)
  | inr (cs, g) ↦ ground arith
]
get_or-stretch memory (suc n) a (suc i) bs e h = elim (Option-cases (stretch memory (a + 1) n)) [
  | inl g ↦ absurd (ground arith)
  | inr (cs, g) ↦ ground (arith, get_or-stretch memory n (a + 1) i cs)
]

-- If every byte is mapped, so is the stretch.
pub stretch_mapped :
    (memory : ℕ → Option ℕ) (n a : ℕ)
    → ((i : ℕ) → i < n → memory (a + i) ≢ none)
    → (bs : List ℕ) × (stretch memory a n ≡ some bs)
stretch_mapped memory zero a h = ([], refl)
stretch_mapped memory (suc n) a h =
    let (bs, e) =
      stretch_mapped memory n (a + 1) (λ i g f. h (suc i) (omega arith) (ground arith)) in
    elim (Option-cases (memory a)) [
      | inl g ↦ absurd (h 0 (omega arith) (ground arith))
      | inr (b, g) ↦ (b ∷ bs, ground arith)
    ]

-- The descriptors of a range that does not wrap give the bytes of the range.
gather-remote_descs :
    (memory : ℕ → Option ℕ) (fuel a n : ℕ)
    → n ≤ fuel
    → a + n < 2 ^ 64
    → gather memory (remote_descs fuel a n) ≡ stretch memory a n
unfolding remote_descs VirtAddr.add
gather-remote_descs memory zero a zero h fits = refl
gather-remote_descs memory zero a (suc n) h fits = absurd (omega arith)
gather-remote_descs memory (suc fuel) a n h fits =
    let size = min n (0x1000 - bit_and a 0xfff) in
    elim (Bool-cases (ltb 0 n)) [
      | inl more ↦ ground (
        arith,
        page_offset a,
        gather-remote_descs memory fuel ((a + size) % 2 ^ 64) (n - size),
        stretch-split memory size (n - size) n a ((a + size) % 2 ^ 64),
      )
      | inr last ↦ ground arith
    ]

pub stretch-IsByte :
    (memory : ℕ → Option ℕ) (n a : ℕ) (bs : List ℕ)
    → ((c b : ℕ) → memory c ≡ some b → b < 256)
    → stretch memory a n ≡ some bs
    → All IsByte bs
stretch-IsByte memory zero a [] lt e = tt
stretch-IsByte memory zero a (b ∷ bs) lt e = cc
stretch-IsByte memory (suc n) a [] lt e = elim (Option-cases (stretch memory (a + 1) n)) [
  | inl g ↦ tt
  | inr (cs, g) ↦ tt
]
stretch-IsByte memory (suc n) a (b ∷ bs) lt e = elim (Option-cases (stretch memory (a + 1) n)) [
  | inl g ↦ absurd (ground arith)
  | inr (cs, g) ↦ (lt a b (ground arith), stretch-IsByte memory n (a + 1) bs lt (ground arith))
]

module _ {W : Type 0} (pf : Platform W) {pid : ℕ} {byte : W → ℕ → Option ℕ}
    (laws : MemoryLaws pf pid byte) where
  -- A read of a mapped range of 1023 pages at most that does not wrap returns its bytes.
  pub read_memory_mapped :
      (p : Process W) (a n : ℕ) (bs : List ℕ)
      → p.pid ≡ pid
      → a + n < 2 ^ 64
      → n ≤ 0x3f_f000
      → stretch (byte p.world) a n ≡ some bs
      → read_memory pf a n p ≡ returned bs p
  unfolding read_memory
  read_memory_mapped p a n bs same fits few e =
      let got =
        laws.readv_mapped (remote_descs n a n) bs p.world (remote_descs_bound a n few)
          (gather-remote_descs (byte p.world) n a n (omega arith) fits ∙ e) in
      ground (arith, got, length-stretch (byte p.world) n a bs e, fill_buffer_full bs)
