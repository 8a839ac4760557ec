-- ===== src/Watchpoint/Update.antt =====
-- `watchpoint::update_data` and the alignment test of src/watchpoint.cpp.
use sdb_building_a_debugger.Base.{
  ℕ, ◌+◌, ◌%◌, ◌^◌, ◌<◌, ◌≡◌, refl, arith, false, ◌==◌, ltb, Option, some, List, get_elem?, set,
  zero, suc, bit_and_mask, take-length, le_value,
}
use sdb_building_a_debugger.Platform.{Platform}
use sdb_building_a_debugger.Process.State.{Process, Watchpoint}
use sdb_building_a_debugger.Process.Run.{returned}
use sdb_building_a_debugger.Memory.Model.{MemoryLaws, stretch}
use sdb_building_a_debugger.Memory.Stretch.{length-stretch, read_memory_mapped}
use sdb_building_a_debugger.Watchpoint.{
  is_aligned, point_at, update_point, read_data, exchange_data, update_data,
}

module _ {W : Type 0} (pf : Platform W) {pid : ℕ} {byte : W → ℕ → Option ℕ}
    (laws : MemoryLaws pf pid byte) where
  -- Where the bytes that a watchpoint watches are mapped and at most eight, and do not wrap, `update_data`
  -- succeeds, makes the data that was current the previous data, and the value of those bytes the
  -- current data.
  pub update_data_lem :
      (p : Process W) (i : ℕ) (point : Watchpoint) (bytes : List ℕ)
      → p.pid ≡ pid
      → get_elem? p.watchpoints i ≡ some point
      → (ltb 8 point.size) ≡ false
      → point.address + point.size < 2 ^ 64
      → stretch (byte p.world) point.address point.size ≡ some bytes
      → update_data pf i p
        ≡ returned tt (record p {
          watchpoints =
              set p.watchpoints i
                (record point { data_now = le_value bytes; previous_data = point.data_now });
        })
  unfolding update_data point_at read_data update_point exchange_data
  update_data_lem p i point bytes same at small fits mapped = ground (
    arith,
    read_memory_mapped pf laws p point.address point.size bytes same fits (ground arith) mapped,
    length-stretch (byte p.world) point.size point.address bytes mapped,
    take-length bytes,
  )

-- The alignment test with a mask accepts exactly the multiples of the size, for the sizes that the
-- debug registers support.
pub is_aligned_lem : (address k : ℕ) → k < 4 → is_aligned address (2 ^ k) ≡ ((address % 2 ^ k) == 0)
unfolding is_aligned
is_aligned_lem address zero h = rw (bit_and_mask 0 address) refl
is_aligned_lem address (suc zero) h = rw (bit_and_mask 1 address) refl
is_aligned_lem address (suc (suc zero)) h = rw (bit_and_mask 2 address) refl
is_aligned_lem address (suc (suc (suc zero))) h = rw (bit_and_mask 3 address) refl
is_aligned_lem address (suc (suc (suc (suc k)))) h = absurd (omega arith)
