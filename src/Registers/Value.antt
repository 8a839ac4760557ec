-- ===== src/Registers/Value.antt =====
-- `register_info`, the variant `registers::value`, and the conversion `widen` of src/registers.cpp
-- with `to_byte128` and `to_byte64` of include/libsdb/bit.hpp.
use sdb_building_a_debugger.Base.{
  ℕ, ◌+◌, ◌-◌, ◌*◌, ◌%◌, ◌^◌, List, take, replicate, ◌++◌, ◌==◌, ltb, if◌then◌else◌, le_bytes, ℤ,
}
use sdb_building_a_debugger.Platform.{FloatCasts}

pub data RegisterType : Type 0 where
  gpr sub_gpr fpr dr : RegisterType

pub data RegisterFormat : Type 0 where
  uint double_float long_double vector : RegisterFormat

pub record RegisterInfo : Type 0 where
  pub id : ℕ
  pub name : List ℕ
  pub dwarf_id : ℤ
  pub size : ℕ
  pub offset : ℕ
  pub type : RegisterType
  pub format : RegisterFormat

-- Integers are their bit patterns; floating-point values and byte arrays are their bytes.
pub data Value : Type 0 where
  u8 u16 u32 u64 : ℕ → Value
  i8 i16 i32 i64 : ℕ → Value
  float32 float64 float80 : List ℕ → Value
  byte64 byte128 : List ℕ → Value

-- `sizeof` of the alternative that the variant holds.
unfoldable pub sizeof_value : Value → ℕ
sizeof_value (u8 n) = 1
sizeof_value (u16 n) = 2
sizeof_value (u32 n) = 4
sizeof_value (u64 n) = 8
sizeof_value (i8 n) = 1
sizeof_value (i16 n) = 2
sizeof_value (i32 n) = 4
sizeof_value (i64 n) = 8
sizeof_value (float32 bs) = 4
sizeof_value (float64 bs) = 8
sizeof_value (float80 bs) = 16
sizeof_value (byte64 bs) = 8
sizeof_value (byte128 bs) = 16

-- `memcpy` of `size` bytes of an object into a zeroed array of 16 or of 8 bytes.
unfoldable pub to_byte128 : ℕ → List ℕ → List ℕ
to_byte128 size object = take 16 (take size object ++ replicate (16 - size) 0)

unfoldable pub to_byte64 : ℕ → List ℕ → List ℕ
to_byte64 size object = take 8 (take size object ++ replicate (8 - size) 0)

-- `static_cast` of a signed integer of `from` bytes to one of `to` bytes, on bit patterns.
unfoldable pub cast_signed : ℕ → ℕ → ℕ → ℕ
cast_signed from to n =
    (if ltb n (2 ^ (8 * from - 1)) then n else n + 2 ^ 128 - 2 ^ (8 * from)) % 2 ^ (8 * to)

-- The branch of `widen` for a signed type of `from` bytes.
unfoldable pub widen_signed : RegisterInfo → ℕ → ℕ → List ℕ
unfolding to_byte128 cast_signed
widen_signed info from n = elim info.format [
  | uint ↦
      if info.size == 2
      then to_byte128 2 (le_bytes 2 (cast_signed from 2 n))
      else if info.size == 4
      then to_byte128 4 (le_bytes 4 (cast_signed from 4 n))
      else if info.size == 8
      then to_byte128 8 (le_bytes 8 (cast_signed from 8 n))
      else to_byte128 from (le_bytes from n)
  | _ ↦ to_byte128 from (le_bytes from n)
]

-- The branch of `widen` for a floating-point type of `size` bytes: the object itself, or its
-- conversions to `double` and to `long double`.
unfoldable pub widen_float : RegisterInfo → ℕ → List ℕ → List ℕ → List ℕ → List ℕ
unfolding to_byte128
widen_float info size object as_double as_long_double = elim info.format [
  | double_float ↦ to_byte128 8 as_double
  | long_double ↦ to_byte128 16 as_long_double
  | _ ↦ to_byte128 size object
]

unfoldable pub widen : FloatCasts → RegisterInfo → Value → List ℕ
unfolding widen_signed widen_float to_byte128
widen fl info (u8 n) = to_byte128 1 (le_bytes 1 n)
widen fl info (u16 n) = to_byte128 2 (le_bytes 2 n)
widen fl info (u32 n) = to_byte128 4 (le_bytes 4 n)
widen fl info (u64 n) = to_byte128 8 (le_bytes 8 n)
widen fl info (i8 n) = widen_signed info 1 n
widen fl info (i16 n) = widen_signed info 2 n
widen fl info (i32 n) = widen_signed info 4 n
widen fl info (i64 n) = widen_signed info 8 n
widen fl info (float32 bs) =
    widen_float info 4 bs (fl.float_to_double bs) (fl.float_to_long_double bs)
widen fl info (float64 bs) = widen_float info 8 bs bs (fl.double_to_long_double bs)
widen fl info (float80 bs) = widen_float info 16 bs (fl.long_double_to_double bs) bs
widen fl info (byte64 bs) = to_byte128 8 bs
widen fl info (byte128 bs) = to_byte128 16 bs
