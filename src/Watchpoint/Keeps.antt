-- ===== src/Watchpoint/Keeps.antt =====
-- Watchpoints (src/watchpoint.cpp, and `process::create_watchpoint`) leave the breakpoint sites alone.
use sdb_building_a_debugger.Base.{
  ℕ, ℤ, refl, arith, Option, Option-cases, Bool-cases, get_elem?, length, ◌==◌, inl, inr,
}
use sdb_building_a_debugger.Platform.{Platform}
use sdb_building_a_debugger.Process.State.{Watchpoint}
use sdb_building_a_debugger.Process.Keeps.{Keeps, keeps}
use sdb_building_a_debugger.Memory.Keeps.{Keeps-read_memory}
use sdb_building_a_debugger.Types.{StoppointMode}
use sdb_building_a_debugger.Process.Run.{◌>>=◌, ◌>>◌, get, put, pure}
use sdb_building_a_debugger.Stoppoints.{
  watchpoint_stoppoint, watches, push, erase, remove_found, remove_by_id,
}
use sdb_building_a_debugger.Hardware.Keeps.{Keeps-set_watchpoint, Keeps-clear_hardware_stoppoint}
use sdb_building_a_debugger.Watchpoint.{
  point_at, update_point, read_data, update_data, get_next_id, make_watchpoint, create_watchpoint,
  enable, disable, remove_point_by_id,
}

module _ {W : Type 0} where
  Keeps-point_at : (i : ℕ) → Keeps {W = W} (point_at i)
  unfolding point_at
  Keeps-point_at i = search keeps

  Keeps-update_point : (i : ℕ) (f : Watchpoint → Watchpoint) → Keeps {W = W} (update_point i f)
  unfolding update_point
  Keeps-update_point i f = record {
    same = λ p. elim (Option-cases (get_elem? p.watchpoints i)) [
      | inl e ↦ ground arith
      | inr (s, e) ↦ ground arith
    ];
  }

module _ {W : Type 0} (pf : Platform W) where
  Keeps-read_data : (address size : ℕ) → Keeps (read_data pf address size)
  unfolding read_data
  Keeps-read_data address size = search (keeps, Keeps-read_memory) depth 8

  pub Keeps-update_data : (i : ℕ) → Keeps (update_data pf i)
  unfolding update_data
  Keeps-update_data i = search (keeps, Keeps-point_at, Keeps-read_data, Keeps-update_point) depth 8

  Keeps-get_next_id : Keeps {W = W} get_next_id
  unfolding get_next_id
  Keeps-get_next_id = record {
    same = λ p. elim (Bool-cases (p.watchpoint_id == 0x7fff_ffff)) [
      | inl last ↦ ground arith
      | inr more ↦ ground arith
    ];
  }

  Keeps-make_watchpoint :
      (address : ℕ) (mode : StoppointMode) (size : ℕ) → Keeps (make_watchpoint pf address mode size)
  unfolding make_watchpoint
  Keeps-make_watchpoint address mode size =
      search (keeps, Keeps-get_next_id, Keeps-read_data) depth 8

  Keeps-push_point :
      (point : Watchpoint)
      → Keeps {W = W} (
          get >>= λ q.
          put (record q { watchpoints = push q.watchpoints point }) >> pure (length q.watchpoints))
  Keeps-push_point point = record { same = λ p. (refl, refl, refl) }

  pub Keeps-create_watchpoint :
      (address : ℕ) (mode : StoppointMode) (size : ℕ)
      → Keeps (create_watchpoint pf address mode size)
  unfolding create_watchpoint
  Keeps-create_watchpoint address mode size =
      search (keeps, Keeps-make_watchpoint, Keeps-push_point) depth 8

  pub Keeps-enable : (i : ℕ) → Keeps (enable pf i)
  unfolding enable
  Keeps-enable i = search (keeps, Keeps-point_at, Keeps-set_watchpoint, Keeps-update_point) depth 8

  pub Keeps-disable : (i : ℕ) → Keeps (disable pf i)
  unfolding disable
  Keeps-disable i =
      search (keeps, Keeps-point_at, Keeps-clear_hardware_stoppoint, Keeps-update_point) depth 8

  Keeps-erase :
      (i : ℕ) → Keeps {W = W} (get >>= λ p. put (record p { watchpoints = erase p.watchpoints i }))
  Keeps-erase i = record { same = λ p. (refl, refl, refl) }

  Keeps-remove_found : (place : Option ℕ) → Keeps (remove_found watches (disable pf) place)
  unfolding remove_found
  Keeps-remove_found place = search (keeps, Keeps-disable, Keeps-erase) depth 8

  pub Keeps-remove_point_by_id : (id : ℤ) → Keeps (remove_point_by_id pf id)
  unfolding remove_point_by_id remove_by_id
  Keeps-remove_point_by_id id = search (keeps, Keeps-remove_found) depth 8
