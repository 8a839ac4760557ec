-- ===== src/Memory/Write.antt =====
-- `process::write_memory` of src/process.cpp: whole words, and a last word that is completed by what is
-- in the memory behind the data.
use sdb_building_a_debugger.Base.{
  ℕ, ◌+◌, ◌-◌, ◌^◌, ◌≤◌, ◌<◌, ◌≡◌, ◌≢◌, ap, ◌∙◌, subst, arith, ◌&&◌, List, ◌++◌, length, take, drop,
  get_or, Option, none, some, Bool-cases, leb→le, leb, ltb, if◌then◌else◌, All, inl, inr, IsByte,
  length-take, length-drop, length-append, take-length, get_or-take, get_or-drop,
  get_or-append_left, get_or-append_right, All-append, All-take, All-drop, le_value, le_bytes,
  byte_of, le_bytes-le_value,
}
use sdb_building_a_debugger.Platform.{Platform, done}
use sdb_building_a_debugger.Process.State.{Process}
use sdb_building_a_debugger.Process.Run.{returned, Run-cases}
use sdb_building_a_debugger.Memory.{read_memory, next_word, poke_word, merge_word}
use sdb_building_a_debugger.Memory.Model.{MemoryLaws}
use sdb_building_a_debugger.Memory.Traps.{read_memory_lem}
use sdb_building_a_debugger.Registers.Access.{from_bytes}
use sdb_building_a_debugger.Memory.Stretch.{
  length-stretch, get_or-stretch, stretch_mapped, stretch-IsByte, read_memory_mapped,
}

-- What one round of the loop leaves in the memory, where `rest` is what is still to be written.
abbrev pub written_word : ℕ → List ℕ → (ℕ → Option ℕ) → ℕ → Option ℕ
written_word a rest memory c =
    if leb a c && (ltb c (a + 8) && ltb c (a + length rest))
    then some (get_or rest (c - a) 0)
    else memory c

full_word :
    (rest : List ℕ)
    → All IsByte rest
    → 8 ≤ length rest
    → le_bytes 8 (le_value (from_bytes 8 rest 0)) ≡ take 8 rest
unfolding from_bytes
full_word rest good h =
    let size : length (take 8 rest) ≡ 8 = length-take 8 rest h in
    subst (λ (n : ℕ). le_bytes n (le_value (take 8 rest)) ≡ take 8 rest) size
      (le_bytes-le_value (take 8 rest) (All-take IsByte 8 rest good))

get_or-full :
    (rest : List ℕ) (j : ℕ)
    → All IsByte rest
    → 8 ≤ length rest
    → j < 8
    → byte_of (le_value (from_bytes 8 rest 0)) j ≡ get_or rest j 0
unfolding byte_of
get_or-full rest j good h k =
    ap (λ (bs : List ℕ). get_or bs j 0) (full_word rest good h) ∙ get_or-take 8 j rest 0 k

get_or-merge :
    (rest read : List ℕ) (j : ℕ)
    → All IsByte rest
    → All IsByte read
    → length rest < 8
    → length read ≡ 8
    → j < 8
    → byte_of (merge_word rest read) j
      ≡ (if ltb j (length rest) then get_or rest j 0 else get_or read j 0)
unfolding merge_word byte_of
get_or-merge rest read j good fine h e k =
    let n = length rest in
    let tail = take (8 - n) (drop n read) in
    let word : List ℕ = take n rest ++ tail in
    let size_tail : length tail ≡ 8 - n =
      length-take (8 - n) (drop n read) (omega (arith, length-drop n read)) in
    let size : length word ≡ 8 =
      omega (arith, length-append (take n rest) tail, length-take n rest) in
    let bytes : All IsByte word =
      All-append IsByte (take n rest) tail (All-take IsByte n rest good)
        (All-take IsByte (8 - n) (drop n read) (All-drop IsByte n read fine)) in
    let same : le_bytes 8 (le_value word) ≡ word =
      subst (λ (m : ℕ). le_bytes m (le_value word) ≡ word) size (le_bytes-le_value word bytes) in
    ap (λ (bs : List ℕ). get_or bs j 0) same
    ∙ ground (
      arith,
      take-length rest,
      get_or-append_left rest tail j 0,
      get_or-append_right rest tail (j - n) j 0,
      get_or-take (8 - n) (j - n) (drop n read) 0,
      get_or-drop n (j - n) j read 0,
    )

module _ {W : Type 0} (pf : Platform W) {pid : ℕ} {byte : W → ℕ → Option ℕ}
    (laws : MemoryLaws pf pid byte) where
  abbrev pub after_poke : Process W → ℕ → ℕ → Process W
  after_poke p a word = record p { world = (pf.poke_data p.pid a word p.world).1 }

  -- The last word, where all of it is mapped.
  last_word :
      (p q : Process W) (a word j : ℕ) (rest : List ℕ)
      → p.pid ≡ pid
      → a + 8 < 2 ^ 64
      → All IsByte rest
      → length rest < 8
      → ((i : ℕ) → i < 8 → byte p.world (a + i) ≢ none)
      → next_word pf a rest p ≡ returned word q
      → j < 8
      → (q ≡ p)
        × (some (byte_of word j)
            ≡ (if ltb j (length rest) then some (get_or rest j 0) else byte p.world (a + j)))
  unfolding next_word
  last_word p q a word j rest same fits good short mapped run inside =
      let (bs, e) = stretch_mapped (byte p.world) 8 a mapped in
      let fine = stretch-IsByte (byte p.world) 8 a bs (λ c b. laws.byte_lt c b p.world) e in
      let got = read_memory_mapped pf laws p a 8 bs same fits (omega arith) e in
      let there = get_or-stretch (byte p.world) 8 a j bs e inside in
      let merged =
        get_or-merge rest bs j good fine short (length-stretch (byte p.world) 8 a bs e) inside in
      let parts : (q ≡ p) × (word ≡ merge_word rest bs) = ground (arith, got) in
      (parts.0, rw parts.1 (ground (arith, merged, there)))

  next_word_same :
      (p q : Process W) (a word : ℕ) (rest : List ℕ)
      → next_word pf a rest p ≡ returned word q
      → q ≡ p
  unfolding next_word
  next_word_same p q a word rest run = elim (Bool-cases (leb 8 (length rest))) [
    | inl full ↦ ground arith
    | inr short ↦ elim (Run-cases (read_memory pf a 8 p)) [
      | inl (raw, s, e) ↦ ground (arith, read_memory_lem pf p s a 8 raw e)
      | inr (f, s, e) ↦ absurd (ground arith)
    ]
  ]

  -- A byte of the word that is written.
  next_byte :
      (p q : Process W) (a word j : ℕ) (rest : List ℕ)
      → p.pid ≡ pid
      → a + 8 < 2 ^ 64
      → All IsByte rest
      → ((i : ℕ) → i < 8 → byte p.world (a + i) ≢ none)
      → next_word pf a rest p ≡ returned word q
      → j < 8
      → some (byte_of word j)
        ≡ (if ltb j (length rest) then some (get_or rest j 0) else byte p.world (a + j))
  next_byte p q a word j rest same fits good mapped run inside =
      elim (Bool-cases (leb 8 (length rest))) [
        | inl full ↦
            let whole : word ≡ le_value (from_bytes 8 rest 0) = unfold next_word in ground arith in
            rw whole (ground (arith, get_or-full rest j good (leb→le 8 (length rest) full) inside))
        | inr short ↦
            (last_word p q a word j rest same fits good (ground arith) mapped run inside).1
      ]

  poke_word_cases :
      (p r : Process W) (a word : ℕ)
      → poke_word pf a word p ≡ returned tt r
      → ((pf.poke_data p.pid a word p.world).0 ≡ done tt) × (r ≡ after_poke p a word)
  unfolding poke_word
  poke_word_cases p r a word e = ground arith

  -- One round.
  pub round :
      (p q r : Process W) (a word c : ℕ) (rest : List ℕ)
      → p.pid ≡ pid
      → a + 8 < 2 ^ 64
      → All IsByte rest
      → next_word pf a rest p ≡ returned word q
      → poke_word pf a word q ≡ returned tt r
      → (r ≡ record p { world = r.world }) × (byte r.world c ≡ written_word a rest (byte p.world) c)
  round p q r a word c rest same fits good run poke =
      let kept = next_word_same p q a word rest run in
      let poke' : poke_word pf a word p ≡ returned tt r = rw kept at poke in
      let (d, final) = poke_word_cases p r a word poke' in
      let d' : (pf.poke_data pid a word p.world).0 ≡ done tt = ground arith in
      let mapped = λ (i : ℕ) (h : i < 8). laws.poke_mapped a word i p.world d' h in
      let written = laws.poke_byte a word c p.world d' in
      let world : r.world ≡ (pf.poke_data pid a word p.world).1 = ground arith in
      (
        rw final,
        rw (world, written)
            (elim (Bool-cases (leb a c && ltb c (a + 8))) [
              | inr outside ↦ ground arith
              | inl inside ↦ ground (
                arith,
                next_byte p q a word (c - a) rest same fits good mapped run (ground arith),
              )
            ]),
      )
