-- ===== src/Process/Keeps.antt =====
-- Operations that leave the breakpoint sites of a process what they are, and the policy for system
-- calls: neither the sites' addresses, ids and kinds nor the id counter nor the policy change, whether
-- the operation returns or throws.
use sdb_building_a_debugger.Base.{
  ℕ, ◌≡◌, refl, Bool, true, false, map, Option, none, some, inl, inr, String, ◌⊎◌, ℤ, arith,
  if◌then◌else◌,
}
use sdb_building_a_debugger.Platform.{Sys, done, failed}
use sdb_building_a_debugger.Process.State.{Process, BreakpointSite}
use sdb_building_a_debugger.Process.Run.{
  Failure, Outcome, ok, bad, Run, returned, threw, M, pure, throw, ◌>>=◌, ◌>>◌, continue_with, get,
  put, unless, guard, from_outcome, or_throw, answer, reading, calling, ignoring, Run-cases,
}

pub record Key : Type 0 where
  pub id : ℤ
  pub address : ℕ
  pub is_hardware : Bool
  pub is_internal : Bool

abbrev pub key : BreakpointSite → Key
key s = record {
  id = s.id;
  address = s.address;
  is_hardware = s.is_hardware;
  is_internal = s.is_internal;
}

abbrev pub final : {W A : Type 0} → Run W A → Process W
final (returned a q) = q
final (threw e q) = q

abbrev pub SameSites : {W : Type 0} → Process W → Process W → Type 0
SameSites p q =
    (map key q.breakpoint_sites ≡ map key p.breakpoint_sites)
    × (q.breakpoint_id ≡ p.breakpoint_id)
    × (q.syscall_catch_policy ≡ p.syscall_catch_policy)

-- A record, so that the operation can be read off from a proof.
pub record Keeps {W A : Type 0} (m : M W A) : Type 0 where
  pub same : (p : Process W) → SameSites p (final (m p))

module _ {W : Type 0} where
  pub Keeps-bind :
      {A B : Type 0} {m : M W A} {f : A → M W B}
      → Keeps m
      → ((a : A) → Keeps (f a))
      → Keeps (m >>= f)
  Keeps-bind {A} {B} {m} {f} h g = record { same = λ p. step p (Run-cases (m p)) }
    where
      step :
          (p : Process W)
          → ((a : A) × (q : Process W) × (m p ≡ returned a q))
            ⊎ ((e : Failure) × (q : Process W) × (m p ≡ threw e q))
          → SameSites p (final (continue_with (m p) f))
      step p (inl (a, q, e)) = ground (arith, h.same p, (g a).same q)
      step p (inr (e, q, d)) = ground (arith, h.same p)

  pub Keeps-pure : {A : Type 0} (a : A) → Keeps {W = W} (pure a)
  Keeps-pure a = record { same = λ p. (refl, refl, refl) }

  pub Keeps-throw : {A : Type 0} (e : Failure) → Keeps {W = W} {A = A} (throw e)
  Keeps-throw e = record { same = λ p. (refl, refl, refl) }

  pub Keeps-get : Keeps {W = W} get
  Keeps-get = record { same = λ p. (refl, refl, refl) }

  pub Keeps-if :
      {A : Type 0} (b : Bool) {m n : M W A} → Keeps m → Keeps n → Keeps (if b then m else n)
  Keeps-if true h g = h
  Keeps-if false h g = g

  pub Keeps-unless : (b : Bool) {m : M W (Unit {0})} → Keeps m → Keeps (unless b m)
  Keeps-unless true h = Keeps-pure tt
  Keeps-unless false h = h

  pub Keeps-guard : (b : Bool) (e : Failure) → Keeps {W = W} (guard b e)
  Keeps-guard true e = Keeps-pure tt
  Keeps-guard false e = Keeps-throw e

  pub Keeps-from_outcome : {A : Type 0} (r : Outcome A) → Keeps {W = W} (from_outcome r)
  Keeps-from_outcome (ok a) = Keeps-pure a
  Keeps-from_outcome (bad e) = Keeps-throw e

  pub Keeps-or_throw : {A : Type 0} (r : Option A) (e : Failure) → Keeps {W = W} (or_throw r e)
  Keeps-or_throw (some a) e = Keeps-pure a
  Keeps-or_throw none e = Keeps-throw e

  final-answer :
      {A : Type 0} (what : String) (r : Sys A) (p : Process W) → final (answer what r p) ≡ p
  final-answer what (done a) p = refl
  final-answer what (failed e) p = refl

  pub Keeps-reading : {A : Type 0} (what : String) (call : W → Sys A) → Keeps (reading what call)
  Keeps-reading what call = record {
    same = λ p. ground (arith, final-answer what (call p.world) p);
  }

  pub Keeps-calling :
      {A : Type 0} (what : String) (call : W → Sys A × W) → Keeps (calling what call)
  Keeps-calling what call = record {
    same = λ p.
        ground (arith, final-answer what (call p.world).0 (record p { world = (call p.world).1 }));
  }

  pub Keeps-ignoring : {A : Type 0} (call : W → Sys A × W) → Keeps (ignoring call)
  Keeps-ignoring call = record { same = λ p. (refl, refl, refl) }

  -- A field that is no part of a site is set.
  pub Keeps-put :
      (f : Process W → Process W)
      → ((p : Process W) → SameSites p (f p))
      → Keeps (get >>= λ p. put (f p))
  Keeps-put f h = record { same = h }

  pub Keeps-put_then :
      {A : Type 0} (f : Process W → Process W) {m : M W A}
      → ((p : Process W) → SameSites p (f p))
      → Keeps m
      → Keeps (get >>= λ p. put (f p) >> m)
  Keeps-put_then f h g = record { same = λ p. ground (arith, h p, g.same (f p)) }

pub ruleset keeps = (
  Keeps-bind, Keeps-get, Keeps-pure, Keeps-throw, Keeps-if, Keeps-unless, Keeps-guard,
  Keeps-from_outcome, Keeps-or_throw, Keeps-reading, Keeps-calling, Keeps-ignoring,
)
