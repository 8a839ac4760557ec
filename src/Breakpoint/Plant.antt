-- ===== src/Breakpoint/Plant.antt =====
-- A software breakpoint site in the inferior's memory: what `enable` and `disable` of
-- src/breakpoint_site.cpp leave there.
use sdb_building_a_debugger.Base.{
  ℕ, ◌-◌, ◌<◌, ◌≡◌, ◌⊎◌, arith, Option, some, inl, inr, get_elem?, set, set-set,
  get_elem?-set_found, true, false, ◌==◌, if◌then◌else◌, bit_and,
}
use sdb_building_a_debugger.Platform.{Platform, done, failed}
use sdb_building_a_debugger.Memory.Model.{MemoryLaws}
use sdb_building_a_debugger.Memory.Word.{
  low_byte, byte_of-zero, with_low_byte_first, with_low_byte_rest,
}
use sdb_building_a_debugger.Process.State.{Process, BreakpointSite}
use sdb_building_a_debugger.Process.Run.{returned, Sys-cases}
use sdb_building_a_debugger.Breakpoint.{
  with_low_byte, int3, enable, disable, site_at, plant, unplant, update_site,
}

module _ {W : Type 0} (pf : Platform W) {pid : ℕ} {byte : W → ℕ → Option ℕ}
    (laws : MemoryLaws pf pid byte) where
  -- A word that is read, changed in its low byte and written back.
  pub poke_low :
      (w : W) (a word b c : ℕ)
      → pf.peek_data pid a w ≡ done word
      → b < 256
      → (pf.poke_data pid a (with_low_byte word b) w).0 ≡ done tt
      → byte (pf.poke_data pid a (with_low_byte word b) w).1 c
        ≡ (if c == a then some b else byte w c)
  poke_low w a word b c e h d = ground (
    arith,
    laws.poke_byte a (with_low_byte word b) c w d,
    laws.peek_word a word w e,
    laws.peek_byte a word (c - a) w e,
    with_low_byte_first word b,
    with_low_byte_rest word b (c - a),
  )

  -- Where the write fails, a byte is as before, or as the write makes it.
  pub poke_low_failed :
      (w : W) (a word b c n : ℕ)
      → pf.peek_data pid a w ≡ done word
      → b < 256
      → (pf.poke_data pid a (with_low_byte word b) w).0 ≡ failed n
      → (byte (pf.poke_data pid a (with_low_byte word b) w).1 c ≡ byte w c)
        ⊎ (byte (pf.poke_data pid a (with_low_byte word b) w).1 c
            ≡ (if c == a then some b else byte w c))
  poke_low_failed w a word b c n e h d = elim (laws.poke_part a (with_low_byte word b) n c w d) [
    | inl kept ↦ inl kept
    | inr put ↦ inr (
        ground (
          arith,
          put,
          laws.peek_word a word w e,
          laws.peek_byte a word (c - a) w e,
          with_low_byte_first word b,
          with_low_byte_rest word b (c - a),
        ))
  ]

  pub first_byte :
      (w : W) (a word : ℕ) → pf.peek_data pid a w ≡ done word → byte w a ≡ some (bit_and word 0xff)
  first_byte w a word e =
      ground (arith, laws.peek_byte a word 0 w e, low_byte word, byte_of-zero word)

  abbrev pub planted : BreakpointSite → ℕ → BreakpointSite
  planted s word = record s { saved_data = bit_and word 0xff; is_enabled = true }

  pub enable_cases :
      (p q : Process W) (i : ℕ) (site : BreakpointSite)
      → get_elem? p.breakpoint_sites i ≡ some site
      → site.is_enabled ≡ false
      → site.is_hardware ≡ false
      → enable pf i p ≡ returned tt q
      → (word : ℕ) × (pf.peek_data p.pid site.address p.world ≡ done word)
        × ((pf.poke_data p.pid site.address (with_low_byte word int3) p.world).0 ≡ done tt)
        × (q ≡ record p {
          breakpoint_sites = set p.breakpoint_sites i (planted site word);
          world = (pf.poke_data p.pid site.address (with_low_byte word int3) p.world).1;
        })
  unfolding enable site_at plant update_site
  enable_cases p q i site at off soft run =
      elim (Sys-cases (pf.peek_data p.pid site.address p.world)) [
        | inl (word, e) ↦
            let again =
              get_elem?-set_found p.breakpoint_sites i
                (record site { saved_data = bit_and word 0xff }) at in
            let twice =
              set-set p.breakpoint_sites i (record site { saved_data = bit_and word 0xff })
                (planted site word) in
            (word, e, ground (arith, again, twice), ground (arith, again, twice))
        | inr (n, e) ↦ absurd (ground arith)
      ]

  pub disable_cases :
      (p q : Process W) (i : ℕ) (site : BreakpointSite)
      → get_elem? p.breakpoint_sites i ≡ some site
      → site.is_enabled ≡ true
      → site.is_hardware ≡ false
      → disable pf i p ≡ returned tt q
      → (word : ℕ) × (pf.peek_data p.pid site.address p.world ≡ done word)
        × ((pf.poke_data p.pid site.address (with_low_byte word site.saved_data) p.world).0
            ≡ done tt)
        × (q ≡ record p {
          breakpoint_sites = set p.breakpoint_sites i (record site { is_enabled = false });
          world = (pf.poke_data p.pid site.address (with_low_byte word site.saved_data) p.world).1;
        })
  unfolding disable site_at unplant update_site
  disable_cases p q i site at on soft run =
      elim (Sys-cases (pf.peek_data p.pid site.address p.world)) [
        | inl (word, e) ↦ (word, e, ground arith, ground arith)
        | inr (n, e) ↦ absurd (ground arith)
      ]
