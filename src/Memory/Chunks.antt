-- ===== src/Memory/Chunks.antt =====
-- The loop of `process::read_memory` that splits a range at the page boundaries.
use sdb_building_a_debugger.Base.{
  ℕ, zero, suc, ◌+◌, ◌-◌, ◌*◌, ◌%◌, ◌^◌, ◌≤◌, ◌<◌, min, ◌≡◌, refl, arith, List, [], ◌∷◌, ◌++◌,
  length, take, replicate, length-take, length-append, length-replicate, bit_and, bit_and_mask, ltb,
  Bool-cases, inl, inr,
}
use sdb_building_a_debugger.Types.VirtAddr
use sdb_building_a_debugger.Memory.{remote_descs, fill_buffer}

-- The descriptors follow one another from `a` on and make up `n` bytes; each is within one page,
-- and none is empty.
abbrev pub Covers : List (ℕ × ℕ) → ℕ → ℕ → Type 0
Covers [] a n = n ≡ 0
Covers ((b, s) ∷ ds) a n =
    (b ≡ a) × (0 < s) × (s ≤ n) × (a % 0x1000 + s ≤ 0x1000) × Covers ds (VirtAddr.add a s) (n - s)

pub page_offset : (a : ℕ) → bit_and a 0xfff ≡ a % 0x1000
page_offset a = bit_and_mask 12 a

-- With a round for each byte, the descriptors of `read_memory` cover the range that is to be read:
-- they are consecutive, of the right total size, not empty, and none crosses a page boundary.
pub remote_descs-Covers : (fuel a n : ℕ) → n ≤ fuel → Covers (remote_descs fuel a n) a n
unfolding remote_descs
remote_descs-Covers zero a n h = omega arith
remote_descs-Covers (suc fuel) a n h =
    let size = min n (0x1000 - bit_and a 0xfff) in
    ground (arith, page_offset a, remote_descs-Covers fuel (VirtAddr.add a size) (n - size))

remote_descs_none : (fuel a : ℕ) → remote_descs fuel a 0 ≡ []
unfolding remote_descs
remote_descs_none zero a = refl
remote_descs_none (suc fuel) a = refl

-- There is a descriptor for each page that the range touches.
length-remote_descs :
    (fuel a n : ℕ) → length (remote_descs fuel a n) * 0x1000 ≤ n + a % 0x1000 + 0xfff
unfolding remote_descs VirtAddr.add
length-remote_descs zero a n = omega arith
length-remote_descs (suc fuel) a n = elim (Bool-cases (ltb n (0x1000 - a % 0x1000))) [
  | inl short ↦ ground (arith, page_offset a, remote_descs_none fuel ((a + n) % 2 ^ 64))
  | inr long ↦
      let size = 0x1000 - a % 0x1000 in
      ground (arith, page_offset a, length-remote_descs fuel ((a + size) % 2 ^ 64) (n - size))
]

-- A range of 1023 pages at most needs no more descriptors than `process_vm_readv` takes.
pub remote_descs_bound : (a n : ℕ) → n ≤ 0x3f_f000 → length (remote_descs n a n) ≤ 1024
remote_descs_bound a n h = omega (arith, length-remote_descs n a n)

-- The buffer has the size that was asked for, whatever was transferred.
pub length-fill_buffer : (n : ℕ) (bytes : List ℕ) → length (fill_buffer n bytes) ≡ n
unfolding fill_buffer
length-fill_buffer n bytes =
    length-take n (bytes ++ replicate n 0)
      (omega (arith, length-append bytes (replicate n 0), length-replicate n (let z : ℕ = 0 in z)))

take-append_all : {A : Type 0} (xs ys : List A) (n : ℕ) → length xs ≡ n → take n (xs ++ ys) ≡ xs
take-append_all [] ys zero h = refl
take-append_all [] ys (suc n) h = absurd (omega arith)
take-append_all (x ∷ xs) ys zero h = absurd (omega arith)
take-append_all (x ∷ xs) ys (suc n) h = ground (arith, take-append_all xs ys n)

-- A complete transfer is what the caller gets.
pub fill_buffer_full : (bytes : List ℕ) → fill_buffer (length bytes) bytes ≡ bytes
unfolding fill_buffer
fill_buffer_full bytes = take-append_all bytes (replicate (length bytes) 0) (length bytes) refl
