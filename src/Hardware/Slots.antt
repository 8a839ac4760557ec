-- ===== src/Hardware/Slots.antt =====
-- Which slot `find_free_stoppoint_register` of src/process.cpp picks, and what is left in DR7 after a
-- stop point has been written and cleared again.
use sdb_building_a_debugger.Base.{
  ℕ, zero, suc, ◌+◌, ◌*◌, ◌/◌, ◌%◌, ◌^◌, ◌<◌, ◌≡◌, refl, subst, one-le-pow, arith, ◌∙◌, Bool, true,
  false, ◌&&◌, ◌==◌, bit_at, bit_and, bit_and_split, bit_and_mask, bit_and-zero, Bool-cases, inl,
  inr,
}
use sdb_building_a_debugger.Process.Run.{Outcome, ok, bad, error}
use sdb_building_a_debugger.Hardware.{
  find_free_from, find_free_stoppoint_register, control_with, control_without, shl_int, int_to_u64,
}
use sdb_building_a_debugger.Hardware.ControlBits.{control_with_bits, control_without_bits}

-- Neither of the slot's two enable bits is set.
abbrev pub is_free : ℕ → ℕ → Bool
is_free control slot = bit_at control (2 * slot) == 0 && bit_at control (2 * slot + 1) == 0

abbrev pub AllUsed : ℕ → ℕ → Type 0
AllUsed control zero = Unit {0}
AllUsed control (suc slot) = AllUsed control slot × (is_free control slot ≡ false)

-- The first free slot of the four, or the error where there is none.
abbrev pub FindsFree : ℕ → Outcome ℕ → Type 0
FindsFree control (ok slot) = (slot < 4) × (is_free control slot ≡ true) × AllUsed control slot
FindsFree control (bad e) = (e ≡ error "no remaining hardware debug registers") × AllUsed control 4

enable_bits : (k c : ℕ) → bit_and c (3 * 2 ^ k + 0) ≡ c / 2 ^ k % 4 * 2 ^ k
enable_bits k c = ground (
  arith,
  bit_and_split k (c / 2 ^ k) (c % 2 ^ k) 3 0,
  bit_and_mask 2 (c / 2 ^ k),
  bit_and-zero (c % 2 ^ k),
  one-le-pow k 2,
)

slot_test :
    (control slot : ℕ)
    → slot < 4
    → (bit_and control (int_to_u64 (shl_int 0b11 (slot * 2))) == 0) ≡ is_free control slot
slot_test c zero h = ground (arith, enable_bits 0 c)
slot_test c (suc zero) h = ground (arith, enable_bits 2 c)
slot_test c (suc (suc zero)) h = ground (arith, enable_bits 4 c)
slot_test c (suc (suc (suc zero))) h = ground (arith, enable_bits 6 c)
slot_test c (suc (suc (suc (suc n)))) h = absurd (omega arith)

find_free_from-FindsFree :
    (rounds slot control : ℕ)
    → rounds + slot ≡ 4
    → AllUsed control slot
    → FindsFree control (find_free_from rounds slot control)
unfolding find_free_from
find_free_from-FindsFree zero slot control e used =
    let last : slot ≡ 4 = omega arith in (refl, subst (AllUsed control) last used)
find_free_from-FindsFree (suc rounds) slot control e used =
    let test = slot_test control slot (omega arith) in
    let next : suc slot ≡ slot + 1 = omega arith in
    elim (Bool-cases (is_free control slot)) [
      | inl free ↦ rw (test ∙ free) (omega arith, free, used)
      | inr taken ↦ rw (test ∙ taken) (
          find_free_from-FindsFree rounds (slot + 1) control (omega arith)
            (subst (AllUsed control) next (used, taken)))
    ]

-- `find_free_stoppoint_register` returns the first of the four slots with no enable bit set, and throws
-- exactly where all four are in use.
pub find_free-FindsFree : (control : ℕ) → FindsFree control (find_free_stoppoint_register control)
unfolding find_free_stoppoint_register
find_free-FindsFree control = find_free_from-FindsFree 4 0 control refl tt

-- Clearing a stop point that was just written leaves each of the 64 bits as clearing the slot alone
-- does, whatever the mode and the size.
pub control_without-control_with :
    (control slot mode size j : ℕ)
    → slot < 4
    → mode < 4
    → size < 4
    → j < 64
    → bit_at (control_without (control_with control slot mode size) slot) j
      ≡ bit_at (control_without control slot) j
control_without-control_with control slot mode size j h m s k = ground (
  arith,
  control_without_bits (control_with control slot mode size) slot j h k,
  control_without_bits control slot j h k,
  control_with_bits control slot mode size j h m s k,
)
