-- ===== src/Coroutine/Invariant.antt =====
-- What holds of a coroutine of include/noam/coupling between two steps.
use noam.Base.{◌≡◌, refl, true, false, some}
use noam.Coroutine.{Coroutine, co_await, Promise, coroutine, new_promise}
use noam.Coroutine.Steps.{
  Point, initial, running, suspended, finished, Step, begins, ready, not_ready, returns, unhandled,
  Reach, here, further, at_await, resume_iff,
}
use noam.Parser.Refines.{IsTail, IsTail_refl, IsTail_trans, IsTail-IsValid}
use noam.Result.{Result, DefaultConstructible, good, null_result}
use noam.State.{State, Memory}
use noam.State.View.{IsValid}

module _ {T : Type 0} (m : Memory) where
  -- Every parser that the body may await, where it succeeds on a valid state, leaves a tail of it.
  abbrev pub AwaitsTails : Coroutine T → Type 0
  AwaitsTails (co_await {A} p k) =
      ((st : State) (r : Result A)
        → IsValid st
        → p.parse m st ≡ some r
        → good p.always_good r ≡ true
        → IsTail st r.state)
      × ((v : A) → AwaitsTails (k v))
  AwaitsTails _ = Unit {0}

  -- What is left to do awaits such parsers.
  abbrev GoesOn : Point T → Type 0
  GoesOn (initial body) = AwaitsTails body
  GoesOn (running body) = AwaitsTails body
  GoesOn _ = Unit {0}

  -- The promise is not good before the end.
  abbrev pub GoodAtEnd : Point T → Promise T → Type 0
  GoodAtEnd finished q = Unit {0}
  GoodAtEnd _ q = q.is_good ≡ false

  Step-GoodAtEnd :
      {p : Point T} {q : Promise T} {p' : Point T} {q' : Promise T}
      → Step m p q p' q'
      → GoodAtEnd p q
      → GoodAtEnd p' q'
  Step-GoodAtEnd begins h = h
  Step-GoodAtEnd (ready e ok) h = h
  Step-GoodAtEnd (not_ready e bad) h = h
  Step-GoodAtEnd returns h = tt
  Step-GoodAtEnd unhandled h = tt

  Reach-GoodAtEnd :
      {p : Point T} {q : Promise T} {p' : Point T} {q' : Promise T}
      → Reach m p q p' q'
      → GoodAtEnd p q
      → GoodAtEnd p' q'
  Reach-GoodAtEnd here h = h
  Reach-GoodAtEnd (further r s) h = Step-GoodAtEnd s (Reach-GoodAtEnd r h)

  Step-IsTail :
      {p : Point T} {q : Promise T} {p' : Point T} {q' : Promise T} (st : State)
      → Step m p q p' q'
      → IsValid st
      → IsTail st q.state × GoesOn p
      → IsTail st q'.state × GoesOn p'
  Step-IsTail st begins v h = h
  Step-IsTail st (ready {q} {r} e ok) v (t, (tails, others)) =
      (IsTail_trans t (tails q.state r (IsTail-IsValid v t) e ok), others r.value)
  Step-IsTail st (not_ready e bad) v (t, _) = (t, tt)
  Step-IsTail st returns v (t, _) = (t, tt)
  Step-IsTail st unhandled v (t, _) = (t, tt)

  Reach-IsTail :
      {p : Point T} {q : Promise T} {p' : Point T} {q' : Promise T} (st : State)
      → Reach m p q p' q'
      → IsValid st
      → IsTail st q.state × GoesOn p
      → IsTail st q'.state × GoesOn p'
  Reach-IsTail st here v h = h
  Reach-IsTail st (further r s) v h = Step-IsTail st s v (Reach-IsTail st r v h)

  module _ ⦃d : DefaultConstructible T⦄ where
    -- On a valid state, at every point that a coroutine reaches whose parsers leave tails, the state
    -- of the promise is a tail of the one given, and the promise is not good before the end.
    pub Reach-Invariant :
        (body : Coroutine T) (st : State) (p : Point T) (q : Promise T)
        → IsValid st
        → AwaitsTails body
        → Reach m (initial body) (new_promise st) p q
        → IsTail st q.state × GoodAtEnd p q
    Reach-Invariant body st p q v tails reach =
        ((Reach-IsTail st reach v (IsTail_refl v, tails)).0, Reach-GoodAtEnd reach refl)

    -- A coroutine that reaches an await that is not ready is cancelled: its result is null.
    pub suspended_cancels :
        (body : Coroutine T) (st : State) (q : Promise T)
        → Reach m (initial body) (new_promise st) suspended q
        → (coroutine body).parse m st ≡ some null_result
    unfolding coroutine
    suspended_cancels body st q reach =
        let bad : q.is_good ≡ false = Reach-GoodAtEnd reach refl in
        rw ((resume_iff m body (new_promise st) q).1 (suspended, at_await, reach), bad)
