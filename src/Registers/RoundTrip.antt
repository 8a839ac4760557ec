-- ===== src/Registers/RoundTrip.antt =====
-- Reading back what `registers::write` of src/registers.cpp stored, and what it leaves alone.
use sdb_building_a_debugger.Base.{
  ℕ, zero, suc, ◌+◌, ◌^◌, ◌≤◌, ◌<◌, ◌≡◌, refl, ap, ◌∙◌, subst, arith, List, [], ◌∷◌, length, take,
  drop, overwrite, take-drop-overwrite, take-drop-overwrite_before, drop-overwrite_behind, ◌==◌,
  if◌then◌else◌, le_bytes, length-le_bytes, le_value-le_bytes, ◌⊎◌, inl, inr,
}
use sdb_building_a_debugger.Platform.{Platform}
use sdb_building_a_debugger.Process.Run.{ok}
use sdb_building_a_debugger.Registers.Value.{
  RegisterInfo, uint, double_float, long_double, vector, Value, u8, u16, u32, u64, widen,
}
use sdb_building_a_debugger.Registers.Access.{read, store_value, from_bytes}

-- An unsigned value of the size of a register, and how many bytes `read` looks at.
abbrev pub uint_value : ℕ → ℕ → Value
uint_value size n =
    if size == 1 then u8 n else if size == 2 then u16 n else if size == 4 then u32 n else u64 n

abbrev pub IsUintSize : ℕ → Type 0
IsUintSize size = (size ≡ 1) ⊎ (size ≡ 2) ⊎ (size ≡ 4) ⊎ (size ≡ 8)

abbrev pub read_width : RegisterInfo → ℕ
read_width info = elim info.format [
  | uint ↦ info.size
  | double_float ↦ 8
  | long_double ↦ 16
  | vector ↦ if info.size == 8 then 8 else 16
]

module _ {W : Type 0} (pf : Platform W) where
  stored_uint :
      (info : RegisterInfo) (n : ℕ)
      → IsUintSize info.size
      → take info.size (widen pf.floats info (uint_value info.size n)) ≡ le_bytes info.size n
  unfolding widen
  stored_uint info n (inl e) = rw e refl
  stored_uint info n (inr (inl e)) = rw e refl
  stored_uint info n (inr (inr (inl e))) = rw e refl
  stored_uint info n (inr (inr (inr e))) = rw e refl

  stored_slice :
      (info : RegisterInfo) (n : ℕ) (data_ : List ℕ)
      → IsUintSize info.size
      → info.offset + info.size ≤ length data_
      → from_bytes info.size (store_value pf info (uint_value info.size n) data_) info.offset
        ≡ le_bytes info.size n
  unfolding store_value from_bytes
  stored_slice info n data_ good fits =
      let copied = stored_uint info n good in
      let size = length-le_bytes info.size n in
      let back = take-drop-overwrite data_ info.offset (le_bytes info.size n) (rw size fits) in
      ap (λ (src : List ℕ). take info.size (drop info.offset (overwrite data_ info.offset src)))
        copied
      ∙ subst
          (λ (k : ℕ).
            take k (drop info.offset (overwrite data_ info.offset (le_bytes info.size n)))
            ≡ le_bytes info.size n)
          size back

  -- An unsigned value of the size of an integer register that lies within the user area is read back
  -- as it was written.
  pub read-store_value :
      (info : RegisterInfo) (n : ℕ) (data_ : List ℕ)
      → info.format ≡ uint
      → IsUintSize info.size
      → n < 256 ^ info.size
      → info.offset + info.size ≤ length data_
      → read (store_value pf info (uint_value info.size n) data_) info ≡ ok (uint_value info.size n)
  unfolding read
  read-store_value info n data_ form good small fits =
      ground (arith, stored_slice info n data_ good fits, le_value-le_bytes info.size n small)

length-take-le : {A : Type 0} (n : ℕ) (xs : List A) → length (take n xs) ≤ n
length-take-le zero xs = omega arith
length-take-le (suc n) [] = omega arith
length-take-le (suc n) (x ∷ xs) = omega (arith, length-take-le n xs)

read_congruence :
    (info : RegisterInfo) (d e : List ℕ)
    → from_bytes (read_width info) d info.offset ≡ from_bytes (read_width info) e info.offset
    → read d info ≡ read e info
unfolding read
read_congruence info d e h = ground arith

other_slice :
    (data_ src : List ℕ) (off size o n : ℕ)
    → length src ≤ size
    → (o + n ≤ off) ⊎ (off + size ≤ o)
    → from_bytes n (overwrite data_ off src) o ≡ from_bytes n data_ o
unfolding from_bytes
other_slice data_ src off size o n h (inl before) =
    take-drop-overwrite_before data_ off src o n before
other_slice data_ src off size o n h (inr behind) =
    ap (take n) (drop-overwrite_behind data_ off src o (omega arith))

module _ {W : Type 0} (pf : Platform W) where
  -- Storing any value in one register leaves what is read from every register whose bytes do not overlap
  -- with it.
  pub read-store_value_other :
      (info other : RegisterInfo) (val : Value) (data_ : List ℕ)
      → (other.offset + read_width other ≤ info.offset) ⊎ (info.offset + info.size ≤ other.offset)
      → read (store_value pf info val data_) other ≡ read data_ other
  unfolding store_value
  read-store_value_other info other val data_ apart =
      read_congruence other (store_value pf info val data_) data_ (
        other_slice data_ (take info.size (widen pf.floats info val)) info.offset info.size
          other.offset (read_width other) (length-take-le info.size (widen pf.floats info val))
          apart)
