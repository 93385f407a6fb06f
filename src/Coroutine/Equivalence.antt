-- ===== src/Coroutine/Equivalence.antt =====
-- `make_w_coro` of include/noam/co_await.hpp against `make` of include/noam/combinators.hpp.
use noam.Base.{
  ◌≡◌, refl, Bool, true, false, Option, none, some, ◌>>=◌, Option-cases, Bool-cases, inl, inr,
}
use noam.Combinators.Make.{Parsers, no_more, next, assign_each, make}
use noam.Coroutine.{resume, await_ready, coroutine, await_each, make_w_coro, to_result, new_promise}
use noam.Parser.{parse_assign}
use noam.Parser.Refines.{assign-good, assign-bad}
use noam.Result.{Result, DefaultConstructible, good, null_result}
use noam.State.{State, Memory}

module _ {T : Type 0} ⦃d : DefaultConstructible T⦄ where
  -- What `make` returns of the state and the constructed value.
  abbrev made_result : State × Option T → Result T
  made_result (st, made) = elim made [
    | some value ↦ record { state = st; value = value }
    | none ↦ null_result
  ]

  await_each-assign_each :
      {C : Type 0} (ps : Parsers T C) (make_value : C) (m : Memory) (st : State)
      → (resume (await_each ps make_value) m (new_promise st) >>= λ promise.
          some (to_result promise))
        ≡ (assign_each ps make_value m st >>= λ x. some (made_result x))
  unfolding resume await_each assign_each await_ready parse_assign
  await_each-assign_each no_more c m st = refl
  await_each-assign_each (next {A} da p ps) c m st = elim (Option-cases (p.parse m st)) [
    | inl e ↦ rw e
    | inr (r, e) ↦ rw e (elim (Bool-cases (good p.always_good r)) [
      | inl ok ↦
          rw
            (
              assign-good {R = Option (Bool × State × Result A)} p r (some (true, r.state, r))
                  (some (false, st, r)) ok,
              ok,
            )
            (await_each-assign_each ps (c r.value) m r.state)
      | inr bad ↦ rw (
        assign-bad {R = Option (Bool × State × Result A)} p r (some (true, r.state, r))
            (some (false, st, r)) bad,
        bad,
      )
    ])
  ]

  -- `make_w_coro` does what `make` does, with the same parsers and constructor, on every state.
  pub make_w_coro-make :
      {C : Type 0} (ps : Parsers T C) (constructor : C) (m : Memory) (st : State)
      → (make_w_coro ps constructor).parse m st ≡ (make ps constructor).parse m st
  unfolding coroutine make
  make_w_coro-make ps constructor m st = await_each-assign_each ps constructor m st
