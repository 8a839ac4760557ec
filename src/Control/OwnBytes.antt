-- ===== src/Control/OwnBytes.antt =====
-- What the program has in its memory where breakpoint sites replace bytes of it: the bytes that the
-- enabled sites keep (`saved_data` of include/libsdb/breakpoint_site.hpp).
use sdb_building_a_debugger.Base.{
  ℕ, zero, suc, ◌^◌, ◌<◌, ◌≡◌, ◌≢◌, refl, sym, subst, ap, arith, true, false, List, [], ◌∷◌, ◌++◌,
  Option, none, some, get_elem?, set, get_elem?-set_found, ◌==◌, Bool-cases, inl, inr, All,
}
use sdb_building_a_debugger.Process.State.{BreakpointSite}
use sdb_building_a_debugger.Stoppoints.{erase}
use sdb_building_a_debugger.Memory.Traps.{own_byte, IsAddress}
use sdb_building_a_debugger.Control.Reach.{Absent, AllDistinct, addresses}

-- The program's byte at an address of the memory.
abbrev pub owned : List BreakpointSite → ℕ → Option ℕ → Option ℕ
owned sites c none = none
owned sites c (some b) = some (own_byte sites c b)

-- A software site as the debugger makes them.
abbrev pub IsSoftware : BreakpointSite → Type 0
IsSoftware s = (s.is_hardware ≡ false) × (s.saved_data < 256) × (s.address < 2 ^ 64)

own_byte-Absent :
    (ss : List BreakpointSite) (c b : ℕ) → Absent c (addresses ss) → own_byte ss c b ≡ b
own_byte-Absent [] c b h = refl
own_byte-Absent (s ∷ ss) c b h = ground (arith, own_byte-Absent ss c b h.1)

Absent-get :
    (ss : List BreakpointSite) (i a : ℕ) (s : BreakpointSite)
    → Absent a (addresses ss)
    → get_elem? ss i ≡ some s
    → (s.address == a) ≡ false
Absent-get [] i a s h e = absurd (ground arith)
Absent-get (t ∷ ts) zero a s h e = ground arith
Absent-get (t ∷ ts) (suc i) a s h e = Absent-get ts i a s h.1 e

-- Where no other site is at the address, only the site itself counts.
own_byte_at :
    (ss : List BreakpointSite) (i c b : ℕ) (s : BreakpointSite)
    → AllDistinct (addresses ss)
    → get_elem? ss i ≡ some s
    → (s.address == c) ≡ true
    → own_byte ss c b ≡ own_byte (s ∷ []) c b
own_byte_at [] i c b s h e d = absurd (ground arith)
own_byte_at (t ∷ ts) zero c b s h e d =
    ground
      (arith, own_byte-Absent ts t.address b h.0, own_byte-Absent ts t.address t.saved_data h.0)
own_byte_at (t ∷ ts) (suc i) c b s h e d =
    ground (arith, Absent-get ts i t.address s h.0 e, own_byte_at ts i c b s h.1 e d)

own_byte-set :
    (ss : List BreakpointSite) (i c b : ℕ) (s t : BreakpointSite)
    → get_elem? ss i ≡ some s
    → t.address ≡ s.address
    → (s.address == c) ≡ false
    → own_byte (set ss i t) c b ≡ own_byte ss c b
own_byte-set [] i c b s t e same other = refl
own_byte-set (u ∷ us) zero c b s t e same other = ground arith
own_byte-set (u ∷ us) (suc i) c b s t e same other = own_byte-set us i c _ s t e same other

pub addresses-set :
    (ss : List BreakpointSite) (i : ℕ) (s t : BreakpointSite)
    → get_elem? ss i ≡ some s
    → t.address ≡ s.address
    → addresses (set ss i t) ≡ addresses ss
addresses-set [] i s t e same = refl
addresses-set (u ∷ us) zero s t e same = ground arith
addresses-set (u ∷ us) (suc i) s t e same = ap (◌∷◌ u.address) (addresses-set us i s t e same)

pub All-set :
    (P : BreakpointSite → Type 0) (ss : List BreakpointSite) (i : ℕ) (t : BreakpointSite)
    → All P ss
    → P t
    → All P (set ss i t)
All-set P [] i t h g = tt
All-set P (s ∷ ss) zero t h g = (g, h.1)
All-set P (s ∷ ss) (suc i) t h g = (h.0, All-set P ss i t h.1 g)

pub All-erase :
    (P : BreakpointSite → Type 0) (ss : List BreakpointSite) (i : ℕ) → All P ss → All P (erase ss i)
unfolding erase
All-erase P [] i h = tt
All-erase P (s ∷ ss) zero h = h.1
All-erase P (s ∷ ss) (suc i) h = (h.0, All-erase P ss i h.1)

pub All-get :
    (P : BreakpointSite → Type 0) (ss : List BreakpointSite) (i : ℕ) (s : BreakpointSite)
    → All P ss
    → get_elem? ss i ≡ some s
    → P s
All-get P [] i s h e = absurd (ground arith)
All-get P (t ∷ ts) zero s h e = subst P (ground arith) h.0
All-get P (t ∷ ts) (suc i) s h e = All-get P ts i s h.1 e

-- One site is replaced, and the byte at its address with it.
pub owned_update :
    (ss : List BreakpointSite) (i c : ℕ) (s t : BreakpointSite) (before after : Option ℕ)
    → AllDistinct (addresses ss)
    → get_elem? ss i ≡ some s
    → t.address ≡ s.address
    → ((s.address == c) ≡ false → after ≡ before)
    → ((s.address == c) ≡ true → owned (t ∷ []) c after ≡ owned (s ∷ []) c before)
    → owned (set ss i t) c after ≡ owned ss c before
owned_update ss i c s t before after distinct at same elsewhere here =
    elim (Bool-cases (s.address == c)) [
      | inr other ↦
          elim_option before (elsewhere other) (λ b. own_byte-set ss i c b s t at same other)
      | inl hit ↦ there before after hit (here hit)
    ]
  where
    elim_option :
        (o : Option ℕ)
        → after ≡ o
        → ((b : ℕ) → own_byte (set ss i t) c b ≡ own_byte ss c b)
        → owned (set ss i t) c after ≡ owned ss c o
    elim_option none e h = ground arith
    elim_option (some b) e h = ground (arith, h b)

    there :
        (o n : Option ℕ)
        → (s.address == c) ≡ true
        → owned (t ∷ []) c n ≡ owned (s ∷ []) c o
        → owned (set ss i t) c n ≡ owned ss c o
    there none none hit e = refl
    there none (some n) hit e = absurd (ground arith)
    there (some o) none hit e = absurd (ground arith)
    there (some o) (some n) hit e = ground (
      arith,
      own_byte_at ss i c o s distinct at hit,
      own_byte_at (set ss i t) i c n t
          (subst AllDistinct (sym (addresses-set ss i s t at same)) distinct)
          (get_elem?-set_found ss i t at) (ground arith),
    )

-- A site that is not enabled changes nothing, wherever it is put or taken away.
own_byte-append_off :
    (ss : List BreakpointSite) (s : BreakpointSite) (c b : ℕ)
    → s.is_enabled ≡ false
    → own_byte (ss ++ s ∷ []) c b ≡ own_byte ss c b
own_byte-append_off [] s c b off = ground arith
own_byte-append_off (t ∷ ts) s c b off = own_byte-append_off ts s c _ off

own_byte-erase_off :
    (ss : List BreakpointSite) (i c b : ℕ) (s : BreakpointSite)
    → get_elem? ss i ≡ some s
    → s.is_enabled ≡ false
    → own_byte (erase ss i) c b ≡ own_byte ss c b
unfolding erase
own_byte-erase_off [] i c b s e off = refl
own_byte-erase_off (t ∷ ts) zero c b s e off = ground arith
own_byte-erase_off (t ∷ ts) (suc i) c b s e off = own_byte-erase_off ts i c _ s e off

pub owned-append_off :
    (ss : List BreakpointSite) (s : BreakpointSite) (c : ℕ) (o : Option ℕ)
    → s.is_enabled ≡ false
    → owned (ss ++ s ∷ []) c o ≡ owned ss c o
owned-append_off ss s c none off = refl
owned-append_off ss s c (some b) off = ap some (own_byte-append_off ss s c b off)

pub owned-erase_off :
    (ss : List BreakpointSite) (i c : ℕ) (s : BreakpointSite) (o : Option ℕ)
    → get_elem? ss i ≡ some s
    → s.is_enabled ≡ false
    → owned (erase ss i) c o ≡ owned ss c o
owned-erase_off ss i c s none e off = refl
owned-erase_off ss i c s (some b) e off = ap some (own_byte-erase_off ss i c b s e off)

pub owned-nil : (c : ℕ) (o : Option ℕ) → owned [] c o ≡ o
owned-nil c none = refl
owned-nil c (some b) = refl

pub owned_mapped :
    (ss : List BreakpointSite) (c b : ℕ) (o : Option ℕ) → owned ss c o ≡ some b → o ≢ none
owned_mapped ss c b none e = cc
owned_mapped ss c b (some raw) e = cc

pub IsSoftware-IsAddress : (ss : List BreakpointSite) → All IsSoftware ss → All IsAddress ss
IsSoftware-IsAddress [] h = tt
IsSoftware-IsAddress (s ∷ ss) h = (h.0.2, IsSoftware-IsAddress ss h.1)

own_byte_off :
    (ss : List BreakpointSite) (c b : ℕ) → All (λ s. s.is_enabled ≡ false) ss → own_byte ss c b ≡ b
own_byte_off [] c b h = refl
own_byte_off (s ∷ ss) c b h = ground (arith, h.0, own_byte_off ss c b h.1)

pub owned_off :
    (ss : List BreakpointSite) (c : ℕ) (o : Option ℕ)
    → All (λ s. s.is_enabled ≡ false) ss
    → owned ss c o ≡ o
owned_off ss c none h = refl
owned_off ss c (some b) h = ap some (own_byte_off ss c b h)
