-- ===== src/Memory.antt =====
-- `process::read_memory`, `read_memory_without_traps` and `write_memory` of src/process.cpp.
pub mod Model
pub mod Word
pub mod Chunks
pub mod Traps
pub mod Stretch
pub mod Write
pub mod Patch
pub mod Total
pub mod Keeps
use sdb_building_a_debugger.Base.{
  ℕ, zero, suc, ◌+◌, ◌-◌, min, bit_and, not, ◌||◌, List, [], ◌∷◌, ◌++◌, length, take, drop, set,
  replicate, ltb, leb, if◌then◌else◌, le_value,
}
use sdb_building_a_debugger.Platform.{Platform}
use sdb_building_a_debugger.Types.VirtAddr
use sdb_building_a_debugger.Process.State.{BreakpointSite}
use sdb_building_a_debugger.Process.Run.{
  M, pure, throw, ◌>>=◌, ◌>>◌, get, reading, calling, out_of_fuel,
}
use sdb_building_a_debugger.Stoppoints.{get_in_region, breakpoint_stoppoint}
use sdb_building_a_debugger.Registers.Access.{from_bytes}

-- The descriptors of `read_memory`: one for each page that the range touches. Each round takes at
-- least one byte, so `amount` rounds are enough.
unfoldable pub remote_descs : ℕ → ℕ → ℕ → List (ℕ × ℕ)
unfolding VirtAddr.add
remote_descs zero address amount = []
remote_descs (suc fuel) address amount =
    let up_to_next_page = 0x1000 - bit_and address 0xfff in
    let chunk_size = min amount up_to_next_page in
    let rest = remote_descs fuel (VirtAddr.add address chunk_size) (amount - chunk_size) in
    if ltb 0 amount then (address, chunk_size) ∷ rest else []

-- `ret` is zeroed first and keeps its zeros where fewer bytes are transferred.
unfoldable pub fill_buffer : ℕ → List ℕ → List ℕ
fill_buffer amount bytes = take amount (bytes ++ replicate amount 0)

-- One round of the loop of `read_memory_without_traps`.
unfoldable pub restore_byte : ℕ → BreakpointSite → List ℕ → List ℕ
unfolding VirtAddr.sub
restore_byte address site memory =
    if not site.is_enabled || site.is_hardware
    then memory
    else set memory (VirtAddr.sub site.address address) site.saved_data

unfoldable pub restore_bytes : ℕ → List BreakpointSite → List ℕ → List ℕ
unfolding restore_byte
restore_bytes address [] memory = memory
restore_bytes address (site ∷ sites) memory =
    restore_bytes address sites (restore_byte address site memory)

-- The last word of `write_memory`: what remains of the data, then what was there.
unfoldable pub merge_word : List ℕ → List ℕ → ℕ
merge_word rest read =
    le_value (take (length rest) rest ++ take (8 - length rest) (drop (length rest) read))

module _ {W : Type 0} (pf : Platform W) where
  unfoldable pub read_memory : ℕ → ℕ → M W (List ℕ)
  unfolding remote_descs fill_buffer
  read_memory address amount = do
    p ← get
    bytes ←
        reading "could not read process memory"
          (pf.process_vm_readv p.pid (remote_descs amount address amount))
    pure (fill_buffer amount bytes)

  -- At a type of `size` bytes; the result is the object's bytes.
  unfoldable pub read_memory_as : ℕ → ℕ → M W (List ℕ)
  unfolding read_memory
  read_memory_as size address = do data_ ← read_memory address size; pure (from_bytes size data_ 0)

  unfoldable pub read_memory_without_traps : ℕ → ℕ → M W (List ℕ)
  unfolding read_memory restore_bytes get_in_region VirtAddr.add
  read_memory_without_traps address amount = do
    memory ← read_memory address amount
    p ← get
    let sites = get_in_region p.breakpoint_sites address (VirtAddr.add address amount)
    pure (restore_bytes address sites memory)

  -- The word for the next eight bytes; `rest` is the data from `written` on.
  unfoldable pub next_word : ℕ → List ℕ → M W ℕ
  next_word address rest =
      if leb 8 (length rest)
      then pure (le_value (from_bytes 8 rest 0))
      else (do read ← read_memory address 8; pure (merge_word rest read))

  unfoldable pub poke_word : ℕ → ℕ → M W (Unit {0})
  poke_word address word = do
    p ← get
    calling "failed to write memory" (pf.poke_data p.pid address word)

  -- The loop of `write_memory`, with a round for each byte at most.
  unfoldable pub write_words : ℕ → ℕ → ℕ → List ℕ → M W (Unit {0})
  write_words fuel address written [] = pure tt
  write_words zero address written (b ∷ bs) = throw out_of_fuel
  write_words (suc fuel) address written (b ∷ bs) = do
    word ← next_word (VirtAddr.add address written) (b ∷ bs)
    poke_word (VirtAddr.add address written) word
    write_words fuel address (written + 8) (drop 8 (b ∷ bs))

  unfoldable pub write_memory : ℕ → List ℕ → M W (Unit {0})
  write_memory address bytes = write_words (length bytes) address 0 bytes
