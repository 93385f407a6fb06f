-- ===== src/Coroutine/Steps.antt =====
-- The coroutines of include/noam/coupling as a state machine: what a call can do, one suspension
-- point or exit at a time.
use noam.Base.{◌≡◌, ◌∙◌, ◌↔◌, refl, true, false, Option, some, Option-cases, Bool-cases, inl, inr}
use noam.Coroutine.{
  Coroutine, co_await, co_return, throws, out_of_fuel, Promise, resume, await_ready, return_value,
  unhandled_exception,
}
use noam.Parser.{Parser}
use noam.Result.{Result, good}
use noam.State.{Memory}

-- Where a coroutine stands: at `initial_suspend`, in its body, at an await that was not ready, or at
-- `final_suspend`.
pub data Point (T : Type 0) : Type 1 where
  initial : Coroutine T → Point T
  running : Coroutine T → Point T
  suspended : Point T
  finished : Point T

-- One step, with the promise in front of it and behind it.
pub data Step {T : Type 0} (m : Memory) : Point T → Promise T → Point T → Promise T → Type 1 where
  begins : {body : Coroutine T} {q : Promise T} → Step m (initial body) q (running body) q
  ready :
      {A : Type 0} {p : Parser A} {k : A → Coroutine T} {q : Promise T} {r : Result A}
      → p.parse m q.state ≡ some r
      → good p.always_good r ≡ true
      → Step m (running (co_await p k)) q (running (k r.value)) (record q { state = r.state })
  not_ready :
      {A : Type 0} {p : Parser A} {k : A → Coroutine T} {q : Promise T} {r : Result A}
      → p.parse m q.state ≡ some r
      → good p.always_good r ≡ false
      → Step m (running (co_await p k)) q suspended q
  returns : {v : T} {q : Promise T} → Step m (running (co_return v)) q finished (return_value v q)
  unhandled : {q : Promise T} → Step m (running throws) q finished (unhandled_exception q)

pub data Reach {T : Type 0} (m : Memory) (p : Point T) (q : Promise T)
    : Point T → Promise T → Type 1 where
  here : Reach m p q p q
  further :
      {p' p'' : Point T} {q' q'' : Promise T}
      → Reach m p q p' q'
      → Step m p' q' p'' q''
      → Reach m p q p'' q''

-- No step goes on from here within this call.
pub data IsHalted {T : Type 0} : Point T → Type 1 where
  at_await : IsHalted suspended
  at_end : IsHalted finished

module _ {T : Type 0} (m : Memory) where
  pub Reach-first :
      {p p' : Point T} {q q' : Promise T} {p'' : Point T} {q'' : Promise T}
      → Step m p q p' q'
      → Reach m p' q' p'' q''
      → Reach m p q p'' q''
  Reach-first s here = further here s
  Reach-first s (further r t) = further (Reach-first s r) t

  pub Reach-append :
      {p p' : Point T} {q q' : Promise T} {p'' : Point T} {q'' : Promise T}
      → Reach m p q p' q'
      → Reach m p' q' p'' q''
      → Reach m p q p'' q''
  Reach-append r here = r
  Reach-append r (further r' s) = further (Reach-append r r') s

  -- A call that returns has gone by steps to a point where it halts.
  resume-Reach :
      (body : Coroutine T) (q q' : Promise T)
      → resume body m q ≡ some q'
      → (p' : Point T) × IsHalted p' × Reach m (running body) q p' q'
  unfolding resume await_ready
  resume-Reach (co_await p k) q q' h = elim (Option-cases (p.parse m q.state)) [
    | inl e ↦ cc (rw e at h)
    | inr (r, e) ↦ elim (Bool-cases (good p.always_good r)) [
      | inl ok ↦
          let (p', halted, reach) =
            resume-Reach (k r.value) (record q { state = r.state }) q' (rw (e, ok) at h) in
          (p', halted, Reach-first (ready e ok) reach)
      | inr bad ↦
          let same : q ≡ q' = cc (rw (e, bad) at h) in
          rw (← same) (suspended, at_await, further here (not_ready e bad))
    ]
  ]
  resume-Reach (co_return v) q q' h =
      let same : return_value v q ≡ q' = cc h in
      rw (← same) (finished, at_end, further here returns)
  resume-Reach throws q q' h =
      let same : unhandled_exception q ≡ q' = cc h in
      rw (← same) (finished, at_end, further here unhandled)
  resume-Reach out_of_fuel q q' h = cc

  -- The promise that a call ends with, from a point on.
  abbrev outcome : Point T → Promise T → Option (Promise T)
  outcome (initial body) q = resume body m q
  outcome (running body) q = resume body m q
  outcome suspended q = some q
  outcome finished q = some q

  Step-outcome :
      {p : Point T} {q : Promise T} {p' : Point T} {q' : Promise T}
      → Step m p q p' q'
      → outcome p q ≡ outcome p' q'
  unfolding resume await_ready
  Step-outcome begins = refl
  Step-outcome (ready e ok) = rw (e, ok)
  Step-outcome (not_ready e bad) = rw (e, bad)
  Step-outcome returns = refl
  Step-outcome unhandled = refl

  Reach-outcome :
      {p : Point T} {q : Promise T} {p' : Point T} {q' : Promise T}
      → Reach m p q p' q'
      → outcome p q ≡ outcome p' q'
  Reach-outcome here = refl
  Reach-outcome (further r s) = Reach-outcome r ∙ Step-outcome s

  IsHalted-outcome : {p : Point T} (q : Promise T) → IsHalted p → outcome p q ≡ some q
  IsHalted-outcome q at_await = refl
  IsHalted-outcome q at_end = refl

  -- A call of the coroutine, as it is computed, ends with a promise exactly if the state machine
  -- reaches, from the initial suspension with the promise given, a point where it halts with it.
  pub resume_iff :
      (body : Coroutine T) (q q' : Promise T)
      → (resume body m q ≡ some q') ↔ ((p : Point T) × IsHalted p × Reach m (initial body) q p q')
  resume_iff body q q' = (
    (λ h.
        let (p, halted, reach) = resume-Reach body q q' h in (p, halted, Reach-first begins reach)),
    λ (p, halted, reach). Reach-outcome reach ∙ IsHalted-outcome q' halted,
  )
