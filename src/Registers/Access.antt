-- ===== src/Registers/Access.antt =====
-- `registers::read` and `registers::write` of src/registers.cpp, `read_by_id_as` and `write_by_id` of
-- include/libsdb/registers.hpp, and the writes to the user area of src/process.cpp.
use sdb_building_a_debugger.Base.{
  ℕ, bit_and, List, take, drop, overwrite, ◌==◌, leb, if◌then◌else◌, le_value,
}
use sdb_building_a_debugger.Platform.{Platform}
use sdb_building_a_debugger.Process.Run.{
  Outcome, ok, bad, M, throw, ◌>>=◌, ◌>>◌, get, put, from_outcome, calling, error,
  bad_variant_access, terminate,
}
use sdb_building_a_debugger.Registers.Value.{
  RegisterInfo, RegisterType, fpr, uint, double_float, long_double, vector, Value, u8, u16, u32,
  u64, float64, float80, byte64, byte128, sizeof_value, widen,
}
use sdb_building_a_debugger.Registers.Info.{register_info_by_id}
use sdb_building_a_debugger.Registers.Id

-- `from_bytes` of include/libsdb/bit.hpp: the object of `size` bytes at a place of a buffer.
unfoldable pub from_bytes : ℕ → List ℕ → ℕ → List ℕ
from_bytes size buffer offset = take size (drop offset buffer)

-- The switch on the size of an unsigned register.
unfoldable pub read_uint : ℕ → List ℕ → ℕ → Outcome Value
unfolding from_bytes
read_uint size data_ offset =
    if size == 1
    then ok (u8 (le_value (from_bytes 1 data_ offset)))
    else if size == 2
    then ok (u16 (le_value (from_bytes 2 data_ offset)))
    else if size == 4
    then ok (u32 (le_value (from_bytes 4 data_ offset)))
    else if size == 8
    then ok (u64 (le_value (from_bytes 8 data_ offset)))
    else bad (error "Unexpected register size")

unfoldable pub read : List ℕ → RegisterInfo → Outcome Value
unfolding read_uint from_bytes
read data_ info = elim info.format [
  | uint ↦ read_uint info.size data_ info.offset
  | double_float ↦ ok (float64 (from_bytes 8 data_ info.offset))
  | long_double ↦ ok (float80 (from_bytes 16 data_ info.offset))
  | vector ↦
      if info.size == 8
      then ok (byte64 (from_bytes 8 data_ info.offset))
      else ok (byte128 (from_bytes 16 data_ info.offset))
]

-- `std::get<std::uint64_t>`.
unfoldable pub get_u64 : Value → Outcome ℕ
get_u64 (u64 n) = ok n
get_u64 v = bad bad_variant_access

module _ {W : Type 0} (pf : Platform W) where
  unfoldable pub write_user_area : ℕ → ℕ → M W (Unit {0})
  write_user_area offset word = do
    p ← get
    calling "could not write to user area" (pf.poke_user p.pid offset word)

  unfoldable pub write_fprs : List ℕ → M W (Unit {0})
  write_fprs fprs = do
    p ← get
    calling "could not write floating point registers" (pf.set_fpregs p.pid fprs)

  unfoldable pub write_gprs : List ℕ → M W (Unit {0})
  write_gprs gprs = do
    p ← get
    calling "could not write general purpose registers" (pf.set_regs p.pid gprs)

  -- The bytes of `data_` after the value has been copied in.
  unfoldable pub store_value : RegisterInfo → Value → List ℕ → List ℕ
  store_value info val data_ =
      overwrite data_ info.offset (take info.size (widen pf.floats info val))

  -- The last step of `write`: the floating-point area, or the aligned word around the register.
  unfoldable pub flush_type : RegisterType → ℕ → List ℕ → M W (Unit {0})
  unfolding write_fprs write_user_area from_bytes
  flush_type fpr offset data_ = write_fprs (from_bytes pf.layout.i387_size data_ pf.layout.i387)
  flush_type _ offset data_ =
      let aligned_offset = bit_and offset 0xffff_ffff_ffff_fff8 in
      write_user_area aligned_offset (le_value (from_bytes 8 data_ aligned_offset))

  unfoldable pub flush : RegisterInfo → M W (Unit {0})
  unfolding flush_type
  flush info = do p ← get; flush_type info.type info.offset p.registers

  unfoldable pub store_and_flush : RegisterInfo → Value → M W (Unit {0})
  unfolding store_value flush
  store_and_flush info val = do
    p ← get
    put (record p { registers = store_value info val p.registers })
    flush info

  unfoldable pub write : RegisterInfo → Value → M W (Unit {0})
  unfolding store_and_flush sizeof_value
  write info val =
      if leb (sizeof_value val) info.size then store_and_flush info val else throw terminate

  -- `read_by_id_as<std::uint64_t>`.
  unfoldable pub read_by_id_as : ℕ → M W ℕ
  unfolding read get_u64
  read_by_id_as id = do
    p ← get
    info ← from_outcome (register_info_by_id pf.layout id)
    val ← from_outcome (read p.registers info)
    from_outcome (get_u64 val)

  unfoldable pub write_by_id : ℕ → Value → M W (Unit {0})
  unfolding write
  write_by_id id val = do info ← from_outcome (register_info_by_id pf.layout id); write info val

  -- `process::get_pc` and `process::set_pc` of include/libsdb/process.hpp.
  unfoldable pub get_pc : M W ℕ
  unfolding read_by_id_as
  get_pc = read_by_id_as Id.rip

  unfoldable pub set_pc : ℕ → M W (Unit {0})
  unfolding write_by_id
  set_pc address = write_by_id Id.rip (u64 address)
