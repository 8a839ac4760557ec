-- ===== src/Memory/Word.antt =====
-- Replacing the low byte of a word, as `breakpoint_site` does.
use sdb_building_a_debugger.Base.{
  ℕ, zero, suc, ◌+◌, ◌-◌, ◌*◌, ◌/◌, ◌%◌, ◌^◌, ◌<◌, ◌≡◌, refl, ap, arith, bit_and, bit_and_split,
  bit_and_mask, bit_and-zero, bit_or_sum, get_or, le_bytes, byte_of,
}
use sdb_building_a_debugger.Breakpoint.{with_low_byte}

pub low_byte : (word : ℕ) → bit_and word 0xff ≡ word % 256
low_byte word = bit_and_mask 8 word

high_part : (word : ℕ) → word < 2 ^ 64 → bit_and word 0xffff_ffff_ffff_ff00 ≡ word / 256 * 256
high_part word h = ground (
  arith,
  bit_and_split 8 (word / 256) (word % 256) (2 ^ 56 - 1) 0 (omega arith) (omega arith),
  bit_and_mask 56 (word / 256),
  bit_and-zero (word % 256),
)

with_low_byte_lem :
    (word byte : ℕ) → word < 2 ^ 64 → byte < 256 → with_low_byte word byte ≡ word / 256 * 256 + byte
unfolding with_low_byte
with_low_byte_lem word byte h g =
    rw (high_part word h) (bit_or_sum 8 (word / 256) byte (omega arith))

pub byte_of-zero : (word : ℕ) → byte_of word 0 ≡ word % 256
unfolding byte_of
byte_of-zero word = refl

-- Its bytes: the new one, and the others as they were.
pub with_low_byte_first :
    (word byte : ℕ) → word < 2 ^ 64 → byte < 256 → byte_of (with_low_byte word byte) 0 ≡ byte
unfolding byte_of
with_low_byte_first word byte h g = rw (with_low_byte_lem word byte h g) (omega arith)

pub with_low_byte_rest :
    (word byte i : ℕ)
    → word < 2 ^ 64
    → byte < 256
    → 0 < i
    → byte_of (with_low_byte word byte) i ≡ byte_of word i
unfolding byte_of
with_low_byte_rest word byte zero h g k = absurd (omega arith)
with_low_byte_rest word byte (suc i) h g k =
    ap (λ (t : ℕ). get_or (le_bytes 7 t) i 0)
      (let same : with_low_byte word byte / 256 ≡ word / 256 =
          omega (arith, with_low_byte_lem word byte h g) in
        same)
