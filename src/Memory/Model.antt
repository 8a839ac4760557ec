-- ===== src/Memory/Model.antt =====
-- What the debugger relies on of `PTRACE_PEEKDATA`, `PTRACE_POKEDATA` and `process_vm_readv`: they
-- read and write one memory, the bytes that are mapped in the inferior.
use sdb_building_a_debugger.Base.{
  ℕ, zero, suc, ◌+◌, ◌-◌, ◌%◌, ◌^◌, ◌≤◌, ◌<◌, ◌≡◌, ◌≢◌, ◌⊎◌, ◌&&◌, List, [], ◌∷◌, ◌++◌, length,
  Option, none, some, leb, ltb, if◌then◌else◌, byte_of,
}
use sdb_building_a_debugger.Platform.{Platform, done, failed}

-- The memory after a word has been written at an address.
abbrev pub poked : ℕ → ℕ → (ℕ → Option ℕ) → ℕ → Option ℕ
poked a n memory b = if leb a b && ltb b (a + 8) then some (byte_of n (b - a)) else memory b

-- The bytes of a stretch of the memory, and of a list of descriptors, if all of them are mapped.
abbrev pub cons? : Option ℕ → Option (List ℕ) → Option (List ℕ)
cons? (some b) (some bs) = some (b ∷ bs)
cons? (some b) none = none
cons? none bs = none

abbrev pub append? : Option (List ℕ) → Option (List ℕ) → Option (List ℕ)
append? (some xs) (some ys) = some (xs ++ ys)
append? (some xs) none = none
append? none ys = none

abbrev pub stretch : (ℕ → Option ℕ) → ℕ → ℕ → Option (List ℕ)
stretch memory a zero = some []
stretch memory a (suc n) = cons? (memory a) (stretch memory (a + 1) n)

abbrev pub gather : (ℕ → Option ℕ) → List (ℕ × ℕ) → Option (List ℕ)
gather memory [] = some []
gather memory ((a, n) ∷ ds) = append? (stretch memory a n) (gather memory ds)

-- The word at an address lies in one page.
abbrev pub InPage : ℕ → Type 0
InPage a = a % 0x1000 + 8 ≤ 0x1000

-- `process_vm_readv` takes `IOV_MAX` descriptors at most, which is 1024.
pub record MemoryLaws {W : Type 0} (pf : Platform W) (pid : ℕ) (byte : W → ℕ → Option ℕ)
    : Type 0 where
  pub peek_word : (a n : ℕ) (w : W) → pf.peek_data pid a w ≡ done n → n < 2 ^ 64
  pub peek_byte :
      (a n i : ℕ) (w : W)
      → pf.peek_data pid a w ≡ done n
      → i < 8
      → byte w (a + i) ≡ some (byte_of n i)
  pub poke_byte :
      (a n b : ℕ) (w : W)
      → (pf.poke_data pid a n w).0 ≡ done tt
      → byte (pf.poke_data pid a n w).1 b ≡ poked a n (byte w) b
  pub poke_mapped :
      (a n i : ℕ) (w : W) → (pf.poke_data pid a n w).0 ≡ done tt → i < 8 → byte w (a + i) ≢ none
  -- A write that fails may have put a part of the word in place where the word lies in two pages, and
  -- has put nothing in place where it lies in one.
  pub poke_part :
      (a n e b : ℕ) (w : W)
      → (pf.poke_data pid a n w).0 ≡ failed e
      → (byte (pf.poke_data pid a n w).1 b ≡ byte w b)
        ⊎ (byte (pf.poke_data pid a n w).1 b ≡ poked a n (byte w) b)
  pub poke_failed :
      (a n e b : ℕ) (w : W)
      → (pf.poke_data pid a n w).0 ≡ failed e
      → InPage a
      → byte (pf.poke_data pid a n w).1 b ≡ byte w b
  pub byte_lt : (a b : ℕ) (w : W) → byte w a ≡ some b → b < 256
  pub readv_mapped :
      (descs : List (ℕ × ℕ)) (bs : List ℕ) (w : W)
      → length descs ≤ 1024
      → gather (byte w) descs ≡ some bs
      → pf.process_vm_readv pid descs w ≡ done bs
