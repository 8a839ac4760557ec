-- ===== src/Cli/Commands/Loop.antt =====
-- `main_loop` of tools/sdb.cpp: what becomes of its lines.
use sdb_building_a_debugger.Base.{
  ℕ, suc, ◌+◌, ◌^◌, ◌<◌, ◌≡◌, refl, sym, ap, ◌∙◌, arith, true, false, List, [], ◌∷◌, ◌++◌,
  append_assoc, All, length, bit_and, get_elem?, set, drop, IsByte, pos, ◌⊎◌, inl, inr, some,
  Option,
}
use sdb_building_a_debugger.Platform.{Platform, done}
use sdb_building_a_debugger.Process.State.{Process, new_site}
use sdb_building_a_debugger.Process.Run.{Failure}
use sdb_building_a_debugger.Stoppoints.{breakpoint_stoppoint, contains_address}
use sdb_building_a_debugger.Breakpoint.{with_low_byte, int3}
use sdb_building_a_debugger.Breakpoint.Create.{create_lem}
use sdb_building_a_debugger.Breakpoint.Total.{enable_returns}
use sdb_building_a_debugger.Memory.Model.{MemoryLaws}
use sdb_building_a_debugger.Memory.Patch.{overwritten, write_memory_lem}
use sdb_building_a_debugger.Memory.Total.{Writable, MappedFor, write_memory_returns}
use sdb_building_a_debugger.Elf.Types.{Elf}
use sdb_building_a_debugger.Disassembler.{Decoder}
use sdb_building_a_debugger.Cli.Shell.{
  Ran, finished, raised, Shell, after, is_sdb_error, Message, reported,
}
use sdb_building_a_debugger.Cli.RegisterCommand.{FloatParsers}
use sdb_building_a_debugger.Cli.Commands.{handle_command, handle_line, main_loop}
use sdb_building_a_debugger.Cli.Commands.Lines.{
  breakpoint_set, memory_write, handle_breakpoint_set, handle_memory_write,
}

after_nothing : {W A : Type 0} (r : Ran W A) → after [] r ≡ r
after_nothing (finished a p said) = refl
after_nothing (raised e p said) = refl

after-after :
    {W A : Type 0} (said more : List Message) (r : Ran W A)
    → after said (after more r) ≡ after (said ++ more) r
after-after said more (finished a p rest) = ap (finished a p) (sym (append_assoc said more rest))
after-after said more (raised e p rest) = ap (raised e p) (sym (append_assoc said more rest))

Ran-cases :
    {W A : Type 0} (r : Ran W A)
    → ((a : A) × (p : Process W) × (said : List Message) × (r ≡ finished a p said))
      ⊎ ((e : Failure) × (p : Process W) × (said : List Message) × (r ≡ raised e p said))
Ran-cases (finished a p said) = inl (a, p, said, refl)
Ran-cases (raised e p said) = inr (e, p, said, refl)

get_elem?-append :
    {A : Type 0} (xs : List A) (x : A) → get_elem? (xs ++ x ∷ []) (length xs) ≡ some x
get_elem?-append [] x = refl
get_elem?-append (y ∷ xs) x = get_elem?-append xs x

set-append : {A : Type 0} (xs : List A) (x y : A) → set (xs ++ x ∷ []) (length xs) y ≡ xs ++ y ∷ []
set-append [] x y = refl
set-append (z ∷ xs) x y = ap (◌∷◌ z) (set-append xs x y)

module _ {W : Type 0} (pf : Platform W) (decode : Decoder) (floats : FloatParsers) (obj : Elf)
    (fuel : ℕ) where
  abbrev run : List (List ℕ) → Shell W (Unit {0})
  run lines = main_loop pf decode floats obj fuel lines

  -- A line whose command ends and says nothing leaves the rest of the lines to the process it made.
  next_lines :
      (c : ℕ) (line : List ℕ) (lines : List (List ℕ)) (p q : Process W)
      → handle_command pf decode floats obj fuel (c ∷ line) p ≡ finished tt q []
      → run ((c ∷ line) ∷ lines) p ≡ run lines q
  unfolding main_loop handle_line
  next_lines c line lines p q e = rw e (after_nothing (main_loop pf decode floats obj fuel lines q))

  -- A command with this property throws `sdb::error`s only.
  abbrev pub ThrowsErrors : List ℕ → Type 0
  ThrowsErrors line =
      (p q : Process W) (e : Failure) (said : List Message)
      → handle_command pf decode floats obj fuel line p ≡ raised e q said
      → is_sdb_error e ≡ true

  line_ends :
      (line : List ℕ) (p : Process W)
      → ThrowsErrors line
      → (q : Process W) × (said : List Message) × (handle_line pf decode floats obj fuel line p
          ≡ finished tt q said)
  unfolding handle_line
  line_ends [] p h = (p, [], refl)
  line_ends (c ∷ line) p h =
      elim (Ran-cases (handle_command pf decode floats obj fuel (c ∷ line) p)) [
        | inl (a, q, said, e) ↦ (q, said, rw e refl)
        | inr (x, q, said, e) ↦
            let sdb_error = h p q x said e in (q, said ++ reported x ∷ [], rw (e, sdb_error) refl)
      ]

  -- Where no command throws anything but an `sdb::error`, `main_loop` reads all its lines, to the end of
  -- the input, and whatever lines come behind them are read next, by the process that the first lines
  -- left.
  pub main_loop_ends :
      (lines : List (List ℕ)) (p : Process W)
      → All ThrowsErrors lines
      → (q : Process W) × (said : List Message) × (main_loop pf decode floats obj fuel lines p
          ≡ finished tt q said)
        × ((more : List (List ℕ))
            → main_loop pf decode floats obj fuel (lines ++ more) p
              ≡ after said (main_loop pf decode floats obj fuel more q))
  unfolding main_loop
  main_loop_ends [] p h =
      (p, [], refl, λ more. sym (after_nothing (main_loop pf decode floats obj fuel more p)))
  main_loop_ends (line ∷ lines) p h =
      let (q, said, e) = line_ends line p h.0 in
      let (r, rest, f, g) = main_loop_ends lines q h.1 in
      (
        r,
        said ++ rest,
        rw (e, f) refl,
        λ more. rw (e, g more) (after-after said rest (main_loop pf decode floats obj fuel more r)),
      )

  -- The line `breakpoint set <address>`, for an address below 2 ^ 64, in hexadecimal with lower-case
  -- letters and as many digits as it needs or more, at which there is no site: where the id counter is
  -- not used up and the kernel reads and writes the word there, `main_loop` says nothing and goes on
  -- with a process that has one more site, for software, enabled, and with the low byte of the word
  -- saved; the word was written with `int3` as its low byte, and the id counter was raised.
  pub main_loop-breakpoint_set :
      (p : Process W) (k a word : ℕ) (lines : List (List ℕ))
      → a < 16 ^ suc k
      → a < 2 ^ 64
      → contains_address p.breakpoint_sites a ≡ false
      → p.breakpoint_id < 0x7fff_ffff
      → pf.peek_data p.pid a p.world ≡ done word
      → (pf.poke_data p.pid a (with_low_byte word int3) p.world).0 ≡ done tt
      → main_loop pf decode floats obj fuel (breakpoint_set k a ∷ lines) p
        ≡ main_loop pf decode floats obj fuel lines (record p {
          breakpoint_sites =
              p.breakpoint_sites
              ++ (record (new_site (pos (suc p.breakpoint_id)) a false false) {
                saved_data = bit_and word 0xff;
                is_enabled = true;
              })
                ∷ [];
          breakpoint_id = suc p.breakpoint_id;
          world = (pf.poke_data p.pid a (with_low_byte word int3) p.world).1;
        })
  main_loop-breakpoint_set p k a word lines h g free room read written =
      let site = new_site (pos (suc p.breakpoint_id)) a false false in
      let sites = p.breakpoint_sites in
      let q : Process W = record p {
        breakpoint_sites = sites ++ site ∷ [];
        breakpoint_id = suc p.breakpoint_id;
      } in
      let created = (create_lem p a false false free room).0 in
      let planted = record site { saved_data = bit_and word 0xff; is_enabled = true } in
      let enabled =
        enable_returns pf q (length sites) word site (get_elem?-append sites site) refl refl read
          written in
      let r : Process W = record q {
        breakpoint_sites = sites ++ planted ∷ [];
        world = (pf.poke_data p.pid a (with_low_byte word int3) p.world).1;
      } in
      next_lines b'b' (drop 1 (breakpoint_set k a)) lines p r (
        handle_breakpoint_set pf decode floats obj fuel p k a (length sites) q r h g created
          (rw (set-append sites site planted) at enabled))

  module _ {pid : ℕ} {byte : W → ℕ → Option ℕ} (laws : MemoryLaws pf pid byte)
      (writable : Writable pf pid byte) where
    -- The line `memory write <address> <bytes>`, the address in lower-case hexadecimal and each byte with
    -- two digits: where the kernel keeps to the laws of memory and writes mapped words, and the words
    -- that cover the range are mapped and lie below the top of the address space, `main_loop` says nothing
    -- and goes on with a process of which only the inferior has changed: from the address on its memory
    -- holds the bytes, and every other byte is as before.
    pub main_loop-memory_write :
        (p : Process W) (k a : ℕ) (bytes : List ℕ) (lines : List (List ℕ))
        → p.pid ≡ pid
        → a < 16 ^ suc k
        → a + length bytes + 8 < 2 ^ 64
        → All IsByte bytes
        → MappedFor (byte p.world) a (length bytes)
        → (w : W) × (main_loop pf decode floats obj fuel (memory_write k a bytes ∷ lines) p
            ≡ main_loop pf decode floats obj fuel lines (record p { world = w }))
          × ((c : ℕ) → byte w c ≡ overwritten a bytes (byte p.world) c)
    main_loop-memory_write p k a bytes lines same h fits good mapped =
        let (q, wrote) = write_memory_returns pf laws writable p a bytes same fits mapped in
        let kept = λ (c : ℕ). write_memory_lem pf laws p q a c bytes same fits good wrote in
        let done_line = next_lines b'm' (drop 1 (memory_write k a bytes)) lines p q (
          handle_memory_write pf decode floats obj fuel p q k a bytes h (omega arith) good wrote) in
        (q.world, done_line ∙ ap (λ r. run lines r) (kept 0).0, λ c. (kept c).1)
