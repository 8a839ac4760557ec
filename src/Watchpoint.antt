-- ===== src/Watchpoint.antt =====
-- `class watchpoint` (src/watchpoint.cpp), and `process::create_watchpoint` of src/process.cpp.
-- A point is named by its place in the collection.
pub mod Keeps
pub mod Update
use sdb_building_a_debugger.Base.{
  ℕ, suc, ◌+◌, ◌-◌, ◌%◌, ◌^◌, bit_and, Bool, true, false, length, get_elem?, set, take, ◌==◌, ltb,
  if◌then◌else◌, ℤ, pos, le_value,
}
use sdb_building_a_debugger.Platform.{Platform}
use sdb_building_a_debugger.Types.{StoppointMode}
use sdb_building_a_debugger.Process.State.{Watchpoint, new_watchpoint}
use sdb_building_a_debugger.Process.Run.{
  M, pure, throw, ◌>>=◌, ◌>>◌, get, put, unless, guard, or_throw, error, error_at, undefined,
}
use sdb_building_a_debugger.Stoppoints.{
  watchpoint_stoppoint, contains_address, push, remove_by_id, remove_by_address, watches,
}
use sdb_building_a_debugger.Memory.{read_memory}
use sdb_building_a_debugger.Hardware.{set_watchpoint, clear_hardware_stoppoint}

unfoldable pub get_next_id : {W : Type 0} → M W ℤ
get_next_id = do
  p ← get
  if p.watchpoint_id == 0x7fff_ffff then throw undefined else (do
    put (record p { watchpoint_id = suc p.watchpoint_id })
    pure (pos (suc p.watchpoint_id)))

unfoldable pub point_at : {W : Type 0} → ℕ → M W Watchpoint
point_at i = do p ← get; or_throw (get_elem? p.watchpoints i) undefined

unfoldable pub update_point : {W : Type 0} → ℕ → (Watchpoint → Watchpoint) → M W (Unit {0})
unfolding point_at
update_point i f = do
  s ← point_at i
  p ← get
  put (record p { watchpoints = set p.watchpoints i (f s) })

-- `std::exchange(data_, new_data)`.
unfoldable pub exchange_data : ℕ → Watchpoint → Watchpoint
exchange_data new_data s = record s { data_now = new_data; previous_data = s.data_now }

-- The alignment test `(address.addr() & (size - 1)) != 0`; `size - 1` is an unsigned subtraction.
unfoldable pub is_aligned : ℕ → ℕ → Bool
is_aligned address size = bit_and address ((size + 2 ^ 64 - 1) % 2 ^ 64) == 0

module _ {W : Type 0} (pf : Platform W) where
  -- `memcpy` of `size_` bytes into an `std::uint64_t` overruns it where `size_` is above 8.
  unfoldable pub read_data : ℕ → ℕ → M W ℕ
  read_data address size = do
    read ← read_memory pf address size
    if ltb 8 size then throw undefined else pure (le_value (take size read))

  unfoldable pub update_data : ℕ → M W (Unit {0})
  update_data i = do
    point ← point_at i
    new_data ← read_data point.address point.size
    update_point i (exchange_data new_data)

  -- `watchpoint::watchpoint`.
  unfoldable pub make_watchpoint : ℕ → StoppointMode → ℕ → M W Watchpoint
  make_watchpoint address mode size = do
    guard (is_aligned address size) (error "watchpoint must be aligned to size")
    id ← get_next_id
    new_data ← read_data address size
    pure (exchange_data new_data (new_watchpoint id address mode size))

  unfoldable pub enable : ℕ → M W (Unit {0})
  enable i = do
    point ← point_at i
    unless point.is_enabled (do
      index ← set_watchpoint pf point.id point.address point.mode point.size
      update_point i (λ s. record s { hardware_register_index = pos index; is_enabled = true }))

  unfoldable pub disable : ℕ → M W (Unit {0})
  disable i = do
    point ← point_at i
    if point.is_enabled
        then (do
          clear_hardware_stoppoint pf point.hardware_register_index
          update_point i (λ s. record s { is_enabled = false }))
        else pure tt

  -- `process::create_watchpoint`; the result is the place of the new point.
  unfoldable pub create_watchpoint : ℕ → StoppointMode → ℕ → M W ℕ
  create_watchpoint address mode size = do
    p ← get
    if contains_address p.watchpoints address
        then throw (error_at "watchpoint already created at address " address)
        else (do
          point ← make_watchpoint address mode size
          q ← get
          put (record q { watchpoints = push q.watchpoints point })
          pure (length q.watchpoints))

  unfoldable pub remove_point_by_id : ℤ → M W (Unit {0})
  remove_point_by_id id = remove_by_id watches disable id

  unfoldable pub remove_point_by_address : ℕ → M W (Unit {0})
  remove_point_by_address address = remove_by_address watches disable address
