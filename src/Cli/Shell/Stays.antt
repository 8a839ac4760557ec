-- ===== src/Cli/Shell/Stays.antt =====
-- Commands of tools/sdb.cpp after which no two breakpoint sites have one address, if that was so
-- before, whether the command ends or throws.
use sdb_building_a_debugger.Base.{
  ◌≡◌, refl, sym, subst, Bool, true, false, List, [], ◌∷◌, inl, inr, Bool-cases, if◌then◌else◌,
}
use sdb_building_a_debugger.Process.State.{Process}
use sdb_building_a_debugger.Process.Run.{Failure, Outcome, M, Run, returned, threw}
use sdb_building_a_debugger.Process.Keeps.{Keeps, Keeps-from_outcome, final}
use sdb_building_a_debugger.Control.Reach.{DistinctSites, SameSites-DistinctSites}
use sdb_building_a_debugger.Cli.Shell.{
  Message, Ran, finished, raised, Shell, after, then_run, ◌>>=◌, ◌>>◌, pure, raise, say, silent,
  perform, result, current, caught, attempt, for_each,
}

abbrev pub left : {W A : Type 0} → Ran W A → Process W
left (finished a p said) = p
left (raised e p said) = p

-- A record, so that the command can be read off from a proof.
pub record Stays {W A : Type 0} (m : Shell W A) : Type 0 where
  pub distinct : (p : Process W) → DistinctSites p → DistinctSites (left (m p))

left-after : {W A : Type 0} (said : List Message) (r : Ran W A) → left (after said r) ≡ left r
left-after said (finished a p more) = refl
left-after said (raised e p more) = refl

module _ {W : Type 0} where
  then_run-Stays :
      {A B : Type 0} (r : Ran W A) (f : A → Shell W B)
      → ((a : A) → Stays (f a))
      → DistinctSites (left r)
      → DistinctSites (left (then_run r f))
  then_run-Stays (finished a p said) f h d =
      subst DistinctSites (sym (left-after said (f a p))) ((h a).distinct p d)
  then_run-Stays (raised e p said) f h d = d

  caught-Stays :
      {A : Type 0} (catches : Failure → Bool) (handler : Failure → Shell W A) (r : Ran W A)
      → ((e : Failure) → Stays (handler e))
      → DistinctSites (left r)
      → DistinctSites (left (caught catches handler r))
  caught-Stays catches handler (finished a p said) h d = d
  caught-Stays catches handler (raised e p said) h d = elim (Bool-cases (catches e)) [
    | inl yes_caught ↦
        rw yes_caught
          (subst DistinctSites (sym (left-after said (handler e p))) ((h e).distinct p d))
    | inr thrown ↦ rw thrown d
  ]

  left-silent : {A : Type 0} (r : Run W A) → left (silent r) ≡ final r
  left-silent (returned a p) = refl
  left-silent (threw e p) = refl

  pub Stays-bind :
      {A B : Type 0} {m : Shell W A} {f : A → Shell W B}
      → Stays m
      → ((a : A) → Stays (f a))
      → Stays (m >>= f)
  Stays-bind {m = m} {f} h g = record {
    distinct = λ p d. then_run-Stays (m p) f g (h.distinct p d);
  }

  pub Stays-then :
      {B : Type 0} {m : Shell W (Unit {0})} {k : Shell W B} → Stays m → Stays k → Stays (m >> k)
  Stays-then h g = Stays-bind h (λ _. g)

  pub Stays-pure : {A : Type 0} (a : A) → Stays {W = W} (pure a)
  Stays-pure a = record { distinct = λ p d. d }

  pub Stays-raise : {A : Type 0} (e : Failure) → Stays {W = W} {A = A} (raise e)
  Stays-raise e = record { distinct = λ p d. d }

  pub Stays-say : (message : Message) → Stays {W = W} (say message)
  Stays-say message = record { distinct = λ p d. d }

  pub Stays-current : Stays {W = W} current
  Stays-current = record { distinct = λ p d. d }

  -- An operation on the process, from what it leaves.
  pub Stays-final :
      {A : Type 0} (m : M W A)
      → ((p : Process W) → DistinctSites p → DistinctSites (final (m p)))
      → Stays (perform m)
  Stays-final m h = record {
    distinct = λ p d. subst DistinctSites (sym (left-silent (m p))) (h p d);
  }

  pub Stays-perform : {A : Type 0} {m : M W A} → Keeps m → Stays (perform m)
  Stays-perform {m = m} h =
      Stays-final m (λ p d. SameSites-DistinctSites p (final (m p)) (h.same p) d)

  pub Stays-result : {A : Type 0} (r : Outcome A) → Stays {W = W} (result r)
  Stays-result r = Stays-perform (Keeps-from_outcome r)

  pub Stays-if :
      {A : Type 0} (b : Bool) {m n : Shell W A} → Stays m → Stays n → Stays (if b then m else n)
  Stays-if true h g = h
  Stays-if false h g = g

  pub Stays-attempt :
      {A : Type 0} (catches : Failure → Bool) {m : Shell W A} {handler : Failure → Shell W A}
      → Stays m
      → ((e : Failure) → Stays (handler e))
      → Stays (attempt catches m handler)
  Stays-attempt catches {m} {handler} h g = record {
    distinct = λ p d. caught-Stays catches handler (m p) g (h.distinct p d);
  }

  pub Stays-for_each :
      {S : Type 0} (f : S → Shell W (Unit {0})) (points : List S)
      → ((point : S) → Stays (f point))
      → Stays (for_each f points)
  unfolding for_each
  Stays-for_each f [] h = Stays-pure tt
  Stays-for_each f (point ∷ points) h = Stays-bind (h point) (λ _. Stays-for_each f points h)

pub ruleset stays = (
  Stays-bind, Stays-pure, Stays-raise, Stays-say, Stays-current, Stays-perform, Stays-result,
  Stays-if, Stays-attempt,
)
