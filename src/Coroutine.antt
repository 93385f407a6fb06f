-- ===== src/Coroutine.antt =====
-- include/noam/coupling and include/noam/co_await.hpp: a coroutine that awaits parsers, as a parser.
-- What is written between two `co_await`s is a function of the values awaited so far.
pub mod Steps
pub mod Invariant
pub mod Liveness
pub mod Equivalence
use noam.Base.{Bool, true, false, Option, none, some, if◌then◌else◌, ◌>>=◌}
use noam.Combinators.Make.{Parsers, no_more, next}
use noam.Parser.{Parser}
use noam.Result.{Result, DefaultConstructible, good, null_result}
use noam.State.{State, Memory}

-- The body of a coroutine that returns a `T`, from some point on. `out_of_fuel` stands where a
-- loop of the body has not ended.
pub data Coroutine (T : Type 0) : Type 1 where
  co_await : {A : Type 0} → Parser A → (A → Coroutine T) → Coroutine T
  co_return : T → Coroutine T
  throws : Coroutine T
  out_of_fuel : Coroutine T

-- `parse_promise<T>`
pub record Promise (T : Type 0) : Type 0 where
  pub state : State
  pub value : T
  pub is_good : Bool

-- `await_parser::await_ready`: whether the coroutine goes on, `*state`, and the result.
unfoldable pub await_ready :
    {A : Type 0} → Parser A → Memory → State → Option (Bool × State × Result A)
await_ready parser m state = do
  result ← parser.parse m state
  some (
      if good parser.always_good result
      then (true, result.state, result)
      else (false, state, result))

-- `await_parser::await_resume`, in its three overloads: what `co_await` gives to the body.
abbrev pub await_resume : {A : Type 0} → Result A → A
await_resume result = result.value

module _ {T : Type 0} where
  -- `parse_promise(state_t state)`, with the default value of `value`.
  abbrev pub new_promise : ⦃d : DefaultConstructible T⦄ → State → Promise T
  new_promise ⦃d⦄ state = record { state = state; value = d.default; is_good = false }

  abbrev pub return_value : T → Promise T → Promise T
  return_value value promise = record promise { value = value; is_good = true }

  abbrev pub unhandled_exception : Promise T → Promise T
  unhandled_exception promise = record promise { is_good = false }

  -- From a point of the body to its end, or to an await that is not ready: the promise there.
  unfoldable pub resume : Coroutine T → Memory → Promise T → Option (Promise T)
  resume (co_await parser k) m promise = do
    (ready, state, result) ← await_ready parser m promise.state
    let after = resume (k (await_resume result)) m (record promise { state = state })
    if ready then after else some (record promise { state = state })
  resume (co_return value) m promise = some (return_value value promise)
  resume throws m promise = some (unhandled_exception promise)
  resume out_of_fuel m promise = none

  -- `parse_promise_to_result::operator result<T>`, behind the call of `resume`.
  abbrev pub to_result : ⦃d : DefaultConstructible T⦄ → Promise T → Result T
  to_result promise =
      if promise.is_good
      then record { state = promise.state; value = promise.value }
      else null_result

  -- A call of the coroutine: it is suspended initially, resumed once, and destroyed.
  unfoldable pub coroutine : ⦃d : DefaultConstructible T⦄ → Coroutine T → Parser T
  coroutine body = record {
    always_good = false;
    parse = λ m st. do
      promise ← resume body m (new_promise st)
      some (to_result promise);
  }

  -- `co_return T {(co_await parsers)...}`
  unfoldable pub await_each : {C : Type 0} → Parsers T C → C → Coroutine T
  await_each no_more make_value = co_return make_value
  await_each (next d p ps) make_value = co_await p (λ v. await_each ps (make_value v))

  -- `make_w_coro<T>(parsers...)`
  abbrev pub make_w_coro : {C : Type 0} ⦃d : DefaultConstructible T⦄ → Parsers T C → C → Parser T
  make_w_coro ps constructor = coroutine (await_each ps constructor)
