-- ===== src/Registers/Keeps.antt =====
-- Reading and writing registers leaves the breakpoint sites alone.
use sdb_building_a_debugger.Base.{ℕ, List, refl}
use sdb_building_a_debugger.Platform.{Platform}
use sdb_building_a_debugger.Process.Keeps.{Keeps, keeps, Keeps-put_then}
use sdb_building_a_debugger.Registers.Access.{
  write_user_area, write_fprs, flush_type, flush, store_and_flush, write, read_by_id_as,
  write_by_id, get_pc, set_pc, store_value,
}
use sdb_building_a_debugger.Registers.Value.{RegisterInfo, RegisterType, fpr, Value}

module _ {W : Type 0} (pf : Platform W) where
  Keeps-write_user_area : (offset word : ℕ) → Keeps (write_user_area pf offset word)
  unfolding write_user_area
  Keeps-write_user_area offset word = search keeps

  Keeps-write_fprs : (bytes : List ℕ) → Keeps (write_fprs pf bytes)
  unfolding write_fprs
  Keeps-write_fprs bytes = search keeps

  pub Keeps-read_by_id_as : (id : ℕ) → Keeps (read_by_id_as pf id)
  unfolding read_by_id_as
  Keeps-read_by_id_as id = search keeps

  Keeps-flush_type :
      (type : RegisterType) (offset : ℕ) (data_ : List ℕ) → Keeps (flush_type pf type offset data_)
  unfolding flush_type
  Keeps-flush_type fpr offset data_ = search (keeps, Keeps-write_fprs)
  Keeps-flush_type _ offset data_ = search (keeps, Keeps-write_user_area)

  Keeps-flush : (info : RegisterInfo) → Keeps (flush pf info)
  unfolding flush
  Keeps-flush info = search (keeps, Keeps-flush_type)

  Keeps-store_and_flush : (info : RegisterInfo) (val : Value) → Keeps (store_and_flush pf info val)
  unfolding store_and_flush
  Keeps-store_and_flush info val =
      Keeps-put_then (λ p. record p { registers = store_value pf info val p.registers })
        (λ p. (refl, refl, refl)) (Keeps-flush info)

  pub Keeps-write : (info : RegisterInfo) (val : Value) → Keeps (write pf info val)
  unfolding write
  Keeps-write info val = search (keeps, Keeps-store_and_flush)

  pub Keeps-write_by_id : (id : ℕ) (val : Value) → Keeps (write_by_id pf id val)
  unfolding write_by_id
  Keeps-write_by_id id val = search (keeps, Keeps-write)

  pub Keeps-get_pc : Keeps (get_pc pf)
  unfolding get_pc
  Keeps-get_pc = search Keeps-read_by_id_as

  pub Keeps-set_pc : (address : ℕ) → Keeps (set_pc pf address)
  unfolding set_pc
  Keeps-set_pc address = search Keeps-write_by_id
