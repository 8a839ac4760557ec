-- ===== src/Hardware/ControlBits.antt =====
-- The debug control register bit by bit: what `set_hardware_stoppoint` and
-- `clear_hardware_stoppoint` of src/process.cpp write into DR7. In DR7 stop point `slot` has two enable
-- bits from bit `2 * slot` on, and two mode and two size bits from bit `16 + 4 * slot` on.
use sdb_building_a_debugger.Base.{
  ℕ, ◌+◌, ◌*◌, ◌/◌, ◌%◌, ◌<◌, min, max, ◌≡◌, refl, ap, ap₂, ◌∙◌, arith, Bool, true, false, ◌&&◌,
  ◌||◌, ltb, leb, ◌==◌, ==_iff, if◌then◌else◌, bit_at, bit_at-and, bit_at-or, bit_at-lt, bit_and,
  all_below, all_below_sound,
}
use sdb_building_a_debugger.Hardware.{keep_mask, set_bits, control_with, control_without}

abbrev pub in_slot : ℕ → ℕ → Bool
in_slot slot j =
    (leb (2 * slot) j && ltb j (2 * slot + 2)) || (leb (16 + 4 * slot) j && ltb j (20 + 4 * slot))

-- A bit of the fields of a slot that is enabled locally with a mode and a size.
abbrev pub slot_bit : ℕ → ℕ → ℕ → ℕ → ℕ
slot_bit slot mode size j =
    if j == 2 * slot
    then 1
    else if j == 16 + 4 * slot
    then mode % 2
    else if j == 17 + 4 * slot
    then mode / 2
    else if j == 18 + 4 * slot
    then size % 2
    else if j == 19 + 4 * slot
    then size / 2
    else 0

-- `~clear_mask` is an `int`: for the last slot it is positive, so that the upper half is cut off.
abbrev pub dropped : ℕ → ℕ → Bool
dropped slot j = in_slot slot j || (slot == 3 && leb 32 j)

keep_table :
    all_below 4
      (λ slot. all_below 64 (λ j. bit_at (keep_mask slot) j == (if dropped slot j then 0 else 1)))
    ≡ true
unfolding all_below keep_mask
keep_table = refl

set_table :
    all_below 4 (λ slot. all_below 4 (λ mode. all_below 4 (λ size.
      all_below 64 (λ j. bit_at (set_bits slot mode size) j == slot_bit slot mode size j))))
    ≡ true
unfolding all_below set_bits
set_table = refl

bit_at-keep_mask :
    (slot j : ℕ) → slot < 4 → j < 64 → bit_at (keep_mask slot) j ≡ (if dropped slot j then 0 else 1)
bit_at-keep_mask slot j h k = (==_iff _ _).0 (
    all_below_sound 64 (λ j. bit_at (keep_mask slot) j == (if dropped slot j then 0 else 1)) j
      (all_below_sound 4 _ slot keep_table h) k)

bit_at-set_bits :
    (slot mode size j : ℕ)
    → slot < 4
    → mode < 4
    → size < 4
    → j < 64
    → bit_at (set_bits slot mode size) j ≡ slot_bit slot mode size j
bit_at-set_bits slot mode size j h m s k = (==_iff _ _).0 (
    all_below_sound 64 (λ j. bit_at (set_bits slot mode size) j == slot_bit slot mode size j) j
      (all_below_sound 4 _ size (all_below_sound 4 _ mode (all_below_sound 4 _ slot set_table h) m)
        s)
      k)

slot_bit_outside : (slot mode size j : ℕ) → in_slot slot j ≡ false → slot_bit slot mode size j ≡ 0
slot_bit_outside slot mode size j h = ground arith

slot_bit-lt : (slot mode size j : ℕ) → mode < 4 → size < 4 → slot_bit slot mode size j < 2
slot_bit-lt slot mode size j m s = ground arith

merge_bits :
    (own last : Bool) (old new : ℕ)
    → old < 2
    → new < 2
    → (own ≡ false → new ≡ 0)
    → max (min old (if own || last then 0 else 1)) new
      ≡ (if own then new else if own || last then 0 else old)
merge_bits true last old new h k f = omega arith
merge_bits false true old new h k f = omega (arith, f refl)
merge_bits false false old new h k f = omega (arith, f refl)

-- Writing a stop point sets the enable, mode and size bits of its slot, and leaves every other bit of
-- the 64 as it was; only the last slot clears the upper 32 bits.
pub control_with_bits :
    (control slot mode size j : ℕ)
    → slot < 4
    → mode < 4
    → size < 4
    → j < 64
    → bit_at (control_with control slot mode size) j ≡ (
        if in_slot slot j
        then slot_bit slot mode size j
        else if dropped slot j
        then 0
        else bit_at control j)
unfolding control_with
control_with_bits control slot mode size j h m s k =
    bit_at-or (bit_and control (keep_mask slot)) (set_bits slot mode size) j
    ∙ ap₂ max
        (bit_at-and control (keep_mask slot) j
          ∙ ap (min (bit_at control j)) (bit_at-keep_mask slot j h k))
        (bit_at-set_bits slot mode size j h m s k)
    ∙ merge_bits (in_slot slot j) (slot == 3 && leb 32 j) (bit_at control j)
        (slot_bit slot mode size j) (bit_at-lt control j) (slot_bit-lt slot mode size j m s)
        (slot_bit_outside slot mode size j)

-- Clearing a stop point clears the bits of its slot, and leaves every other bit of the 64 as it was;
-- only the last slot clears the upper 32 bits.
pub control_without_bits :
    (control slot j : ℕ)
    → slot < 4
    → j < 64
    → bit_at (control_without control slot) j ≡ (if dropped slot j then 0 else bit_at control j)
unfolding control_without
control_without_bits control slot j h k =
    bit_at-and control (keep_mask slot) j
    ∙ ap (min (bit_at control j)) (bit_at-keep_mask slot j h k)
    ∙ keep (dropped slot j) (bit_at control j) (bit_at-lt control j)
  where
    keep : (d : Bool) (x : ℕ) → x < 2 → min x (if d then 0 else 1) ≡ (if d then 0 else x)
    keep true x lt = omega arith
    keep false x lt = omega arith
