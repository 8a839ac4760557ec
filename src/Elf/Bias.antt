-- ===== src/Elf/Bias.antt =====
-- Addresses of the file and addresses of the running program, between which the load bias stands.
use sdb_building_a_debugger.Base.{
  ℕ, suc, ◌+◌, ◌-◌, ◌%◌, ◌^◌, ◌<◌, ◌≡◌, refl, sym, ap, subst, ◌∙◌, arith, true, false, List, [],
  ◌∷◌, All, none, some, leb, ◌==◌, Bool-cases, inl, inr,
}
use sdb_building_a_debugger.Types.FileAddr.{FileAddr}
use sdb_building_a_debugger.Types.VirtAddr
use sdb_building_a_debugger.Types.VirtAddr.{VirtAddr}
use sdb_building_a_debugger.Process.Run.{ok}
use sdb_building_a_debugger.Elf.Types.{Section, Elf}
use sdb_building_a_debugger.Elf.Addresses.{
  find_section, contains_file, contains_virt, section_containing_file, section_containing_virt,
  to_virt_addr, to_file_addr, symbol_at_file, symbol_at_virt, symbol_containing_file,
  symbol_containing_virt,
}

-- No section, loaded at a bias, reaches the end of the address space.
abbrev pub Fits : ℕ → List Section → Type 0
Fits bias sections = All (λ (s : Section). bias + s.sh_addr + s.sh_size < 2 ^ 64) sections

contains_virt_above :
    (bias a : ℕ) (s : Section)
    → bias + s.sh_addr + s.sh_size < 2 ^ 64
    → contains_virt bias (a + bias) s ≡ contains_file a s
unfolding contains_virt contains_file VirtAddr.add
contains_virt_above bias a s h = ground arith

contains_virt_below :
    (bias v : ℕ) (s : Section)
    → bias + s.sh_addr + s.sh_size < 2 ^ 64
    → v < bias
    → contains_virt bias v s ≡ false
unfolding contains_virt VirtAddr.add
contains_virt_below bias v s h g = ground arith

find_section_above :
    (bias a i : ℕ) (sections : List Section)
    → Fits bias sections
    → find_section (contains_virt bias (a + bias)) i sections
      ≡ find_section (contains_file a) i sections
unfolding find_section
find_section_above bias a i [] h = refl
find_section_above bias a i (s ∷ sections) h =
    rw (contains_virt_above bias a s h.0, find_section_above bias a (suc i) sections h.1)

find_section_below :
    (bias v i : ℕ) (sections : List Section)
    → Fits bias sections
    → v < bias
    → find_section (contains_virt bias v) i sections ≡ none
unfolding find_section
find_section_below bias v i [] h g = refl
find_section_below bias v i (s ∷ sections) h g =
    rw (contains_virt_below bias v s h.0 g, find_section_below bias v (suc i) sections h.1 g)

-- Where a section is found, it ends in front of the end of the address space.
find_section_bound :
    (bias a i k : ℕ) (sections : List Section)
    → Fits bias sections
    → find_section (contains_file a) i sections ≡ some k
    → a + bias < 2 ^ 64
unfolding find_section contains_file
find_section_bound bias a i k [] h e = cc
find_section_bound bias a i k (s ∷ sections) h e =
    ground (arith, find_section_bound bias a (suc i) k sections h.1)

-- An address of the file `obj`.
abbrev pub in_file : Elf → ℕ → FileAddr
in_file obj a = record { elf = some obj.number; addr = a }

section_containing_file_here :
    (obj : Elf) (a : ℕ)
    → section_containing_file obj (in_file obj a)
      ≡ find_section (contains_file a) 0 obj.section_headers
unfolding section_containing_file
section_containing_file_here obj a =
    let same : (obj.number == obj.number) ≡ true = ground arith in rw same

section_containing_virt_lem :
    (obj : Elf) (a : ℕ)
    → Fits obj.load_bias obj.section_headers
    → section_containing_virt obj (a + obj.load_bias) ≡ section_containing_file obj (in_file obj a)
unfolding section_containing_virt
section_containing_virt_lem obj a h =
    rw (section_containing_file_here obj a)
      (find_section_above obj.load_bias a 0 obj.section_headers h)

-- Where no section, loaded at the load bias, reaches the end of the address space, and a section of the
-- file holds the address `a`, `to_virt_addr` adds the load bias, and `to_file_addr` gives `a` back.
pub to_file_addr-to_virt_addr :
    (object : ℕ → Elf) (obj : Elf) (a k : ℕ)
    → object obj.number ≡ obj
    → Fits obj.load_bias obj.section_headers
    → section_containing_file obj (in_file obj a) ≡ some k
    → (to_virt_addr object (in_file obj a) ≡ ok (a + obj.load_bias))
      × (to_file_addr (a + obj.load_bias) obj ≡ in_file obj a)
unfolding to_virt_addr to_file_addr
to_file_addr-to_virt_addr object obj a k e h g =
    let bound : a + obj.load_bias < 2 ^ 64 =
      find_section_bound obj.load_bias a 0 k obj.section_headers h
        (sym (section_containing_file_here obj a) ∙ g) in
    let small : (a + obj.load_bias) % 2 ^ 64 ≡ a + obj.load_bias = omega arith in
    let back : (a + obj.load_bias + 2 ^ 64 - obj.load_bias) % 2 ^ 64 ≡ a = omega arith in
    (
      rw (to_virt_addr, e, g, e) (ap ok small),
      rw (to_file_addr, section_containing_virt_lem obj a h, g) (ap (in_file obj) back),
    )

back_again :
    (object : ℕ → Elf) (obj : Elf) (a k : ℕ)
    → object obj.number ≡ obj
    → Fits obj.load_bias obj.section_headers
    → section_containing_virt obj (a + obj.load_bias) ≡ some k
    → to_virt_addr object (to_file_addr (a + obj.load_bias) obj) ≡ ok (a + obj.load_bias)
back_again object obj a k e h g =
    let (there, back) =
      to_file_addr-to_virt_addr object obj a k e h
        (sym (section_containing_virt_lem obj a h) ∙ g) in
    rw back there

-- Where no section, loaded at the load bias, reaches the end of the address space, and a loaded section
-- holds the address `v`, `to_virt_addr` gives `v` back from what `to_file_addr` makes of it.
pub to_virt_addr-to_file_addr :
    (object : ℕ → Elf) (obj : Elf) (v k : ℕ)
    → object obj.number ≡ obj
    → Fits obj.load_bias obj.section_headers
    → section_containing_virt obj v ≡ some k
    → to_virt_addr object (to_file_addr v obj) ≡ ok v
unfolding section_containing_virt
to_virt_addr-to_file_addr object obj v k e h g = elim (Bool-cases (leb obj.load_bias v)) [
  | inl p ↦
      let shifted : v ≡ v - obj.load_bias + obj.load_bias = ground arith in
      rw shifted (
        back_again object obj (v - obj.load_bias) k e h
          (subst (λ u. section_containing_virt obj u ≡ some k) shifted g))
  | inr p ↦
      let below : v < obj.load_bias = ground arith in
      absurd (cc (g, find_section_below obj.load_bias v 0 obj.section_headers h below))
]

-- Where no section, loaded at the load bias, reaches the end of the address space, and a section of the
-- file holds the address `a`, the lookups of symbols for its place in the running program are those
-- for the address of the file.
pub symbol_at_virt_lem :
    (obj : Elf) (a k : ℕ)
    → Fits obj.load_bias obj.section_headers
    → section_containing_file obj (in_file obj a) ≡ some k
    → (symbol_at_virt obj (a + obj.load_bias) ≡ symbol_at_file obj (in_file obj a))
      × (symbol_containing_virt obj (a + obj.load_bias)
          ≡ symbol_containing_file obj (in_file obj a))
unfolding symbol_at_virt symbol_containing_virt
symbol_at_virt_lem obj a k h g =
    let back = (to_file_addr-to_virt_addr (λ _. obj) obj a k refl h g).1 in
    (ap (symbol_at_file obj) back, ap (symbol_containing_file obj) back)
