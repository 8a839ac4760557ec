-- ===== src/Memory/Patch.antt =====
-- The loop of `process::write_memory` of src/process.cpp.
use sdb_building_a_debugger.Base.{
  ℕ, zero, suc, ◌+◌, ◌-◌, ◌^◌, ◌≤◌, ◌<◌, ◌≡◌, ◌≢◌, ◌∙◌, subst, arith, ◌&&◌, List, [], ◌∷◌, length,
  drop, get_or, get_or-drop, length-drop, Option, some, leb, ltb, if◌then◌else◌, All, All-drop, inl,
  inr, IsByte,
}
use sdb_building_a_debugger.Platform.{Platform}
use sdb_building_a_debugger.Types.VirtAddr
use sdb_building_a_debugger.Process.State.{Process}
use sdb_building_a_debugger.Process.Run.{
  returned, threw, out_of_fuel, >>=-eq-returned, ◌>>◌, Run-cases, Sys-cases,
}
use sdb_building_a_debugger.Memory.{
  next_word, poke_word, read_memory, write_words, write_memory, remote_descs,
}
use sdb_building_a_debugger.Memory.Model.{MemoryLaws}
use sdb_building_a_debugger.Memory.Write.{round, written_word}

-- The memory after data has been written from an address on.
abbrev pub overwritten : ℕ → List ℕ → (ℕ → Option ℕ) → ℕ → Option ℕ
overwritten a bytes memory c =
    if leb a c && ltb c (a + length bytes) then some (get_or bytes (c - a) 0) else memory c

later_words :
    (a c : ℕ) (rest : List ℕ) (memory : ℕ → Option ℕ) {there : Option ℕ}
    → there ≡ written_word a rest memory c
    → overwritten (a + 8) (drop 8 rest) (λ _. there) c ≡ overwritten a rest memory c
later_words a c rest memory e =
    ground (arith, length-drop 8 rest, get_or-drop 8 (c - (a + 8)) (c - a) rest 0)

module _ {W : Type 0} (pf : Platform W) {pid : ℕ} {byte : W → ℕ → Option ℕ}
    (laws : MemoryLaws pf pid byte) where
  write_words_lem :
      (fuel : ℕ) (p q : Process W) (a written c : ℕ) (rest : List ℕ)
      → p.pid ≡ pid
      → (0 < length rest → a + written + length rest + 8 < 2 ^ 64)
      → All IsByte rest
      → write_words pf fuel a written rest p ≡ returned tt q
      → (q ≡ record p { world = q.world })
        × (byte q.world c ≡ overwritten (a + written) rest (byte p.world) c)
  unfolding write_words
  write_words_lem fuel p q a written c [] same fits good run = (ground arith, ground arith)
  write_words_lem zero p q a written c (b ∷ bs) same fits good run = cc
  write_words_lem (suc fuel) p q a written c (b ∷ bs) same fits good run =
      let rest : List ℕ = b ∷ bs in
      let here : VirtAddr.add a written ≡ a + written =
        unfold VirtAddr.add in omega (arith, fits (omega arith)) in
      let at = VirtAddr.add a written in
      let (word, s, e, f) =
        >>=-eq-returned (next_word pf at rest)
          (λ word. poke_word pf at word >> write_words pf fuel a (written + 8) (drop 8 rest)) p
          run in
      let (_, r, g, h) =
        >>=-eq-returned (poke_word pf at word)
          (λ _. write_words pf fuel a (written + 8) (drop 8 rest)) s f in
      let (kept, now) =
        round pf laws p s r at word c rest same (omega (arith, fits (omega arith))) good e g in
      let (final, later) =
        write_words_lem fuel r q a (written + 8) c (drop 8 rest) (ground arith)
          (λ more. omega (arith, length-drop 8 rest, fits (omega arith)))
          (All-drop IsByte 8 rest good) h in
      let now' : byte r.world c ≡ written_word (a + written) rest (byte p.world) c =
        subst (λ (t : ℕ). byte r.world c ≡ written_word t rest (byte p.world) c) here now in
      let next : a + (written + 8) ≡ a + written + 8 = omega arith in
      let later' : byte q.world c ≡ overwritten (a + written + 8) (drop 8 rest) (byte r.world) c =
        subst (λ (t : ℕ). byte q.world c ≡ overwritten t (drop 8 rest) (byte r.world) c) next
          later in
      (ground arith, later' ∙ later_words (a + written) c rest (byte p.world) now')

  -- When `write_memory` returns, on a range that stays below the top of the address space, the memory
  -- from the address on holds the data, every other byte is as before, and nothing of the process
  -- but the inferior has changed.
  pub write_memory_lem :
      (p q : Process W) (a c : ℕ) (bytes : List ℕ)
      → p.pid ≡ pid
      → a + length bytes + 8 < 2 ^ 64
      → All IsByte bytes
      → write_memory pf a bytes p ≡ returned tt q
      → (q ≡ record p { world = q.world }) × (byte q.world c ≡ overwritten a bytes (byte p.world) c)
  unfolding write_memory
  write_memory_lem p q a c bytes same fits good run =
      let start : a + 0 ≡ a = omega arith in
      let (kept, now) =
        write_words_lem (length bytes) p q a 0 c bytes same (λ more. omega arith) good run in
      (kept, subst (λ (t : ℕ). byte q.world c ≡ overwritten t bytes (byte p.world) c) start now)

module _ {W : Type 0} (pf : Platform W) where
  word_ends :
      (p q : Process W) (a : ℕ) (rest : List ℕ) → next_word pf a rest p ≢ threw out_of_fuel q
  unfolding next_word read_memory
  word_ends p q a rest e =
      elim (Sys-cases (pf.process_vm_readv p.pid (remote_descs 8 a 8) p.world)) [
        | inl (bytes, f) ↦ ground arith
        | inr (n, f) ↦ ground arith
      ]

  poke_ends : (p q : Process W) (a word : ℕ) → poke_word pf a word p ≢ threw out_of_fuel q
  unfolding poke_word
  poke_ends p q a word e = ground arith

  words_end :
      (fuel : ℕ) (p q : Process W) (a written : ℕ) (rest : List ℕ)
      → length rest ≤ fuel
      → write_words pf fuel a written rest p ≢ threw out_of_fuel q
  unfolding write_words
  words_end fuel p q a written [] h e = cc
  words_end zero p q a written (b ∷ bs) h e = absurd (omega arith)
  words_end (suc fuel) p q a written (b ∷ bs) h e =
      let at = VirtAddr.add a written in
      elim (Run-cases (next_word pf at (b ∷ bs) p)) [
        | inr (f, s, g) ↦ ground (arith, word_ends p q at (b ∷ bs))
        | inl (word, s, g) ↦ elim (Run-cases (poke_word pf at word s)) [
          | inr (f, r, k) ↦ ground (arith, poke_ends s q at word)
          | inl (_, r, k) ↦
              ground (
                arith,
                length-drop 8 (b ∷ bs),
                words_end fuel r q a (written + 8) (drop 8 (b ∷ bs)),
              )
        ]
      ]

  -- The loop of `write_memory` ends: with a round for each byte it never runs out of rounds.
  pub write_memory_ends :
      (p q : Process W) (a : ℕ) (bytes : List ℕ) → write_memory pf a bytes p ≢ threw out_of_fuel q
  unfolding write_memory
  write_memory_ends p q a bytes = words_end (length bytes) p q a 0 bytes (omega arith)
