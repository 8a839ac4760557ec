-- ===== src/Memory/Keeps.antt =====
-- Reading and writing the inferior's memory leaves the breakpoint sites alone.
use sdb_building_a_debugger.Base.{ℕ, zero, suc, ◌+◌, List, [], ◌∷◌, drop}
use sdb_building_a_debugger.Platform.{Platform}
use sdb_building_a_debugger.Process.Keeps.{Keeps, keeps, Keeps-bind}
use sdb_building_a_debugger.Memory.{
  read_memory, read_memory_without_traps, next_word, poke_word, write_words, write_memory,
}

module _ {W : Type 0} (pf : Platform W) where
  pub Keeps-read_memory : (address amount : ℕ) → Keeps (read_memory pf address amount)
  unfolding read_memory
  Keeps-read_memory address amount = search keeps depth 8

  pub Keeps-read_memory_without_traps :
      (address amount : ℕ) → Keeps (read_memory_without_traps pf address amount)
  unfolding read_memory_without_traps
  Keeps-read_memory_without_traps address amount = search (keeps, Keeps-read_memory) depth 8

  Keeps-next_word : (address : ℕ) (rest : List ℕ) → Keeps (next_word pf address rest)
  unfolding next_word
  Keeps-next_word address rest = search (keeps, Keeps-read_memory) depth 8

  Keeps-poke_word : (address word : ℕ) → Keeps (poke_word pf address word)
  unfolding poke_word
  Keeps-poke_word address word = search keeps depth 8

  Keeps-write_words :
      (fuel address written : ℕ) (bytes : List ℕ)
      → Keeps (write_words pf fuel address written bytes)
  unfolding write_words
  Keeps-write_words fuel address written [] = search keeps
  Keeps-write_words zero address written (b ∷ bs) = search keeps
  Keeps-write_words (suc fuel) address written (b ∷ bs) =
      Keeps-bind (Keeps-next_word _ (b ∷ bs)) (λ word.
        Keeps-bind (Keeps-poke_word _ word)
          (λ _. Keeps-write_words fuel address (written + 8) (drop 8 (b ∷ bs))))

  pub Keeps-write_memory : (address : ℕ) (bytes : List ℕ) → Keeps (write_memory pf address bytes)
  unfolding write_memory
  Keeps-write_memory address bytes = Keeps-write_words _ address 0 bytes
