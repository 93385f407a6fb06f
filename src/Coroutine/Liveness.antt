-- ===== src/Coroutine/Liveness.antt =====
-- That coroutines of include/noam/coupling come to a halt.
use noam.Base.{◌≡◌, refl, true, some, Bool-cases, inl, inr}
use noam.Coroutine.{
  Coroutine, co_await, co_return, throws, out_of_fuel, Promise, coroutine, new_promise, to_result,
  return_value, unhandled_exception,
}
use noam.Coroutine.Steps.{
  Point, initial, running, suspended, finished, Step, begins, ready, not_ready, returns, unhandled,
  Reach, here, further, IsHalted, at_await, at_end, resume_iff, Reach-first, Reach-append,
}
use noam.Result.{Result, DefaultConstructible, good}
use noam.State.{State, Memory}

module _ {T : Type 0} (m : Memory) where
  -- Every parser that the body awaits when it runs from a state returns, and no loop of it runs out
  -- of fuel.
  abbrev pub Responds : Coroutine T → State → Type 0
  Responds (co_await {A} p k) st =
      (r : Result A) × (p.parse m st ≡ some r)
      × (good p.always_good r ≡ true → Responds (k r.value) r.state)
  Responds out_of_fuel st = ⊥
  Responds _ st = Unit {0}

  abbrev Left : Point T → State → Type 0
  Left (initial body) st = Responds body st
  Left (running body) st = Responds body st
  Left _ st = Unit {0}

  Step-Left :
      {p : Point T} {q : Promise T} {p' : Point T} {q' : Promise T}
      → Step m p q p' q'
      → Left p q.state
      → Left p' q'.state
  Step-Left begins h = h
  Step-Left (ready {A} {p} {k} {q} {r} e ok) (r', e', on) =
      let same : r' ≡ r = cc (e, e') in rw same at (on (rw (← same) at ok))
  Step-Left (not_ready e bad) h = tt
  Step-Left returns h = tt
  Step-Left unhandled h = tt

  Reach-Left :
      {p : Point T} {q : Promise T} {p' : Point T} {q' : Promise T}
      → Reach m p q p' q'
      → Left p q.state
      → Left p' q'.state
  Reach-Left here h = h
  Reach-Left (further r s) h = Step-Left s (Reach-Left r h)

  -- A point where it halts can be reached.
  abbrev Halts : Point T → Promise T → Type 1
  Halts p q = (p' : Point T) × (q' : Promise T) × IsHalted p' × Reach m p q p' q'

  running-Halts :
      (body : Coroutine T) (q : Promise T) → Responds body q.state → Halts (running body) q
  running-Halts (co_await p k) q (r, e, on) = elim (Bool-cases (good p.always_good r)) [
    | inl ok ↦
        let (p', q', halted, reach) =
          running-Halts (k r.value) (record q { state = r.state }) (on ok) in
        (p', q', halted, Reach-first m (ready e ok) reach)
    | inr bad ↦ (suspended, q, at_await, further here (not_ready e bad))
  ]
  running-Halts (co_return value) q h =
      (finished, return_value value q, at_end, further here returns)
  running-Halts throws q h = (finished, unhandled_exception q, at_end, further here unhandled)
  running-Halts out_of_fuel q h = elim h [ ]

  point-Halts : (p : Point T) (q : Promise T) → Left p q.state → Halts p q
  point-Halts (initial body) q h =
      let (p', q', halted, reach) = running-Halts body q h in
      (p', q', halted, Reach-first m begins reach)
  point-Halts (running body) q h = running-Halts body q h
  point-Halts suspended q h = (suspended, q, at_await, here)
  point-Halts finished q h = (finished, q, at_end, here)

  pub Reach-Halts :
      ⦃d : DefaultConstructible T⦄ (body : Coroutine T) (st : State) (p : Point T) (q : Promise T)
      → Responds body st
      → Reach m (initial body) (new_promise st) p q
      → (p' : Point T) × (q' : Promise T) × IsHalted p'
        × Reach m p q p' q'
        × ((coroutine body).parse m st ≡ some (to_result q'))
  unfolding coroutine
  Reach-Halts body st p q h reach =
      let (p', q', halted, on) = point-Halts p q (Reach-Left reach h) in
      let e = (resume_iff m body (new_promise st) q').1 (p', halted, Reach-append m reach on) in
      (p', q', halted, on, rw e refl)
