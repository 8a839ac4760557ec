-- ===== src/Hardware.antt =====
-- The debug registers: the encodings, `set_hardware_stoppoint`, `clear_hardware_stoppoint` and
-- `get_current_hardware_stoppoint`'s index of src/process.cpp.
pub mod ControlBits
pub mod Slots
pub mod Keeps
use sdb_building_a_debugger.Base.{
  ℕ, zero, suc, ◌+◌, ◌-◌, ◌*◌, ◌/◌, ◌%◌, ◌^◌, bit_and, bit_or, ltb, ◌==◌, if◌then◌else◌, ℤ, pos,
  negsuc,
}
use sdb_building_a_debugger.Platform.{Platform}
use sdb_building_a_debugger.Types.{StoppointMode, write, read_write, execute}
use sdb_building_a_debugger.Process.Run.{
  Outcome, ok, bad, M, pure, throw, ◌>>=◌, ◌>>◌, from_outcome, error, undefined,
}
use sdb_building_a_debugger.Registers.Value.{u64}
use sdb_building_a_debugger.Registers.Id
use sdb_building_a_debugger.Registers.Access.{read_by_id_as, write_by_id}

-- `int` values as 32-bit patterns: a left shift, `~`, and the conversion to `std::uint64_t`.
abbrev pub shl_int : ℕ → ℕ → ℕ
shl_int x k = x * 2 ^ k % 2 ^ 32

abbrev pub not_int : ℕ → ℕ
not_int x = 2 ^ 32 - 1 - x

abbrev pub int_to_u64 : ℕ → ℕ
int_to_u64 x = if ltb x (2 ^ 31) then x else x + 2 ^ 64 - 2 ^ 32

abbrev pub shl_u64 : ℕ → ℕ → ℕ
shl_u64 x k = x * 2 ^ k % 2 ^ 64

unfoldable pub encode_hardware_stoppoint_mode : StoppointMode → ℕ
encode_hardware_stoppoint_mode write = 0b01
encode_hardware_stoppoint_mode read_write = 0b11
encode_hardware_stoppoint_mode execute = 0b00

unfoldable pub encode_hardware_stoppoint_size : ℕ → Outcome ℕ
encode_hardware_stoppoint_size size =
    if size == 1
    then ok 0b00
    else if size == 2
    then ok 0b01
    else if size == 4
    then ok 0b11
    else if size == 8
    then ok 0b10
    else bad (error "invalid stoppoint size")

-- The loop of `find_free_stoppoint_register`, from `i` on.
unfoldable pub find_free_from : ℕ → ℕ → ℕ → Outcome ℕ
find_free_from zero i control = bad (error "no remaining hardware debug registers")
find_free_from (suc rounds) i control =
    if bit_and control (int_to_u64 (shl_int 0b11 (i * 2))) == 0
    then ok i
    else find_free_from rounds (i + 1) control

unfoldable pub find_free_stoppoint_register : ℕ → Outcome ℕ
unfolding find_free_from
find_free_stoppoint_register control_register = find_free_from 4 0 control_register

-- `~clear_mask` as it meets the control register.
unfoldable pub keep_mask : ℕ → ℕ
keep_mask index =
    int_to_u64 (not_int (bit_or (shl_int 0b11 (index * 2)) (shl_int 0b1111 (index * 4 + 16))))

-- What is put into the control register for one stop point.
unfoldable pub set_bits : ℕ → ℕ → ℕ → ℕ
set_bits free_space mode_flag size_flag =
    bit_or
      (bit_or (int_to_u64 (shl_int 1 (free_space * 2))) (shl_u64 mode_flag (free_space * 4 + 16)))
      (shl_u64 size_flag (free_space * 4 + 18))

unfoldable pub control_with : ℕ → ℕ → ℕ → ℕ → ℕ
unfolding keep_mask set_bits
control_with control free_space mode_flag size_flag =
    bit_or (bit_and control (keep_mask free_space)) (set_bits free_space mode_flag size_flag)

unfoldable pub control_without : ℕ → ℕ → ℕ
unfolding keep_mask
control_without control index = bit_and control (keep_mask index)

-- `__builtin_ctzll`, which is undefined at 0: the place of the lowest bit that is set.
unfoldable pub count_trailing_zeros : ℕ → ℕ → Outcome ℕ
count_trailing_zeros zero x = bad undefined
count_trailing_zeros (suc left) x = elim (x % 2) [
  | zero ↦ elim (count_trailing_zeros left (x / 2)) [ ok n ↦ ok (n + 1) | bad e ↦ bad e ]
  | suc _ ↦ ok 0
]

module _ {W : Type 0} (pf : Platform W) where
  -- The address register is written before the size is encoded, which can throw.
  unfoldable pub set_hardware_stoppoint : ℕ → StoppointMode → ℕ → M W ℕ
  unfolding read_by_id_as write_by_id find_free_stoppoint_register encode_hardware_stoppoint_mode
      encode_hardware_stoppoint_size control_with
  set_hardware_stoppoint address mode size = do
    control ← read_by_id_as pf Id.dr7
    free_space ← from_outcome (find_free_stoppoint_register control)
    write_by_id pf (Id.dr0 + free_space) (u64 address)
    let mode_flag = encode_hardware_stoppoint_mode mode
    size_flag ← from_outcome (encode_hardware_stoppoint_size size)
    write_by_id pf Id.dr7 (u64 (control_with control free_space mode_flag size_flag))
    pure free_space

  -- The size of an execution stop point is 1.
  unfoldable pub set_hardware_breakpoint : ℤ → ℕ → M W ℕ
  unfolding set_hardware_stoppoint
  set_hardware_breakpoint id address = set_hardware_stoppoint address execute 1

  unfoldable pub set_watchpoint : ℤ → ℕ → StoppointMode → ℕ → M W ℕ
  unfolding set_hardware_stoppoint
  set_watchpoint id address mode size = set_hardware_stoppoint address mode size

  -- A shift by a negative index is undefined.
  unfoldable pub clear_hardware_stoppoint : ℤ → M W (Unit {0})
  unfolding read_by_id_as write_by_id control_without
  clear_hardware_stoppoint (negsuc n) = throw undefined
  clear_hardware_stoppoint (pos index) = do
    write_by_id pf (Id.dr0 + index) (u64 0)
    control ← read_by_id_as pf Id.dr7
    write_by_id pf Id.dr7 (u64 (control_without control index))
