-- ===== src/Memory/Total.antt =====
-- When `process::write_memory` of src/process.cpp succeeds.
use sdb_building_a_debugger.Base.{
  ℕ, zero, suc, ◌+◌, ◌*◌, ◌/◌, ◌^◌, ◌≤◌, ◌<◌, ◌≡◌, ◌≢◌, arith, ◌&&◌, List, [], ◌∷◌, length, drop,
  Option, none, Bool-cases, leb, ltb, inl, inr, length-drop, subst, le_value,
}
use sdb_building_a_debugger.Platform.{Platform, done}
use sdb_building_a_debugger.Types.VirtAddr
use sdb_building_a_debugger.Process.State.{Process}
use sdb_building_a_debugger.Process.Run.{returned}
use sdb_building_a_debugger.Registers.Access.{from_bytes}
use sdb_building_a_debugger.Memory.{merge_word, next_word, poke_word, write_words, write_memory}
use sdb_building_a_debugger.Memory.Model.{MemoryLaws}
use sdb_building_a_debugger.Memory.Stretch.{stretch_mapped, read_memory_mapped}

-- The kernel writes a word wherever its eight bytes are mapped.
abbrev pub Writable : {W : Type 0} → Platform W → ℕ → (W → ℕ → Option ℕ) → Type 0
Writable {W} pf pid byte =
    (a n : ℕ) (w : W)
    → ((i : ℕ) → i < 8 → byte w (a + i) ≢ none)
    → (pf.poke_data pid a n w).0 ≡ done tt

-- The bytes of all the words that cover the data are mapped.
abbrev pub MappedFor : (ℕ → Option ℕ) → ℕ → ℕ → Type 0
MappedFor memory a n = (i : ℕ) → i < (n + 7) / 8 * 8 → memory (a + i) ≢ none

module _ {W : Type 0} (pf : Platform W) {pid : ℕ} {byte : W → ℕ → Option ℕ}
    (laws : MemoryLaws pf pid byte) (writable : Writable pf pid byte) where
  word_returns :
      (p : Process W) (a : ℕ) (rest : List ℕ)
      → p.pid ≡ pid
      → a + 8 < 2 ^ 64
      → ((i : ℕ) → i < 8 → byte p.world (a + i) ≢ none)
      → (word : ℕ) × (next_word pf a rest p ≡ returned word p)
  unfolding next_word
  word_returns p a rest same fits mapped = elim (Bool-cases (leb 8 (length rest))) [
    | inl full ↦ (le_value (from_bytes 8 rest 0), ground arith)
    | inr short ↦
        let (bs, e) = stretch_mapped (byte p.world) 8 a mapped in
        (
          merge_word rest bs,
          ground (arith, read_memory_mapped pf laws p a 8 bs same fits (omega arith) e),
        )
  ]

  still_mapped :
      (w : W) (a n b : ℕ)
      → (pf.poke_data pid a n w).0 ≡ done tt
      → byte w b ≢ none
      → byte (pf.poke_data pid a n w).1 b ≢ none
  still_mapped w a n b e h d = elim (Bool-cases (leb a b && ltb b (a + 8))) [
    | inl i ↦ ground (arith, laws.poke_byte a n b w e)
    | inr o ↦ ground (arith, laws.poke_byte a n b w e)
  ]

  words_return :
      (fuel : ℕ) (p : Process W) (a written : ℕ) (rest : List ℕ)
      → p.pid ≡ pid
      → length rest ≤ fuel
      → (0 < length rest → a + written + length rest + 8 < 2 ^ 64)
      → MappedFor (byte p.world) (a + written) (length rest)
      → (q : Process W) × (write_words pf fuel a written rest p ≡ returned tt q)
  unfolding write_words poke_word
  words_return fuel p a written [] same enough fits mapped = (p, ground arith)
  words_return zero p a written (b ∷ bs) same enough fits mapped = absurd (omega arith)
  words_return (suc fuel) p a written (b ∷ bs) same enough fits mapped =
      let rest : List ℕ = b ∷ bs in
      let here : VirtAddr.add a written ≡ a + written =
        unfold VirtAddr.add in omega (arith, fits (omega arith)) in
      let eight : (i : ℕ) → i < 8 → byte p.world (a + written + i) ≢ none =
        λ i h. mapped i (omega arith) in
      let (word, e) =
        word_returns p (a + written) rest same (omega (arith, fits (omega arith))) eight in
      let poke = pf.poke_data pid (a + written) word p.world in
      let wrote : poke.0 ≡ done tt = writable (a + written) word p.world eight in
      let next : (i : ℕ) → a + written + (8 + i) ≡ a + (written + 8) + i = λ i. omega arith in
      let r : Process W = record p { world = poke.1 } in
      let (q, f) =
        words_return fuel r a (written + 8) (drop 8 rest) same (omega (arith, length-drop 8 rest))
          (λ more. omega (arith, length-drop 8 rest, fits (omega arith)))
          (λ i h.
            subst (λ (c : ℕ). byte r.world c ≢ none) (next i)
              (still_mapped p.world (a + written) word (a + written + (8 + i)) wrote
                (mapped (8 + i) (omega (arith, length-drop 8 rest))))) in
      (q, ground (arith, here, e, wrote, f))

  -- Where the kernel writes mapped words, and all bytes of the words that cover the data are mapped
  -- and lie below the top of the address space, `write_memory` returns.
  pub write_memory_returns :
      (p : Process W) (a : ℕ) (bytes : List ℕ)
      → p.pid ≡ pid
      → a + length bytes + 8 < 2 ^ 64
      → MappedFor (byte p.world) a (length bytes)
      → (q : Process W) × (write_memory pf a bytes p ≡ returned tt q)
  unfolding write_memory
  write_memory_returns p a bytes same fits mapped =
      words_return (length bytes) p a 0 bytes same (omega arith) (λ more. omega arith)
        (λ i h. ground (arith, mapped i h))
