-- ===== src/Parser.antt =====
-- include/noam/parser.hpp and include/noam/util/helpers.hpp: a parser is a function from a state to
-- a result. `none` stands for a call that has not returned within the fuel of some loop.
pub mod Refines
pub mod Reading
use noam.Base.{Bool, true, false, Option, none, some, ◌>>=◌, if◌then◌else◌}
use noam.Result.{Result, DefaultConstructible, good, null_result}
use noam.State
use noam.State.{State, Memory}

-- `always_good` is `parser_always_good_v`: whether the parser returns a pure result.
pub record Parser {ℓ} (A : Type ℓ) : Type ℓ where
  pub always_good : Bool
  pub parse : Memory → State → Option (Result A)

-- `if (auto r = p.parse(st)) …` with the two branches.
abbrev pub attempt {ℓ κ} :
    {A : Type ℓ} {R : Type κ}
    → Parser A
    → Memory
    → State
    → (Result A → Option R)
    → Option R
    → Option R
attempt p m st succeed fail = do r ← p.parse m st; if good p.always_good r then succeed r else fail

module _ {ℓ} {A : Type ℓ} where
  -- `parser::read`: the result, and the state that the reference `st` is left with.
  pub read : ⦃d : DefaultConstructible A⦄ → Parser A → Memory → State → Option (State × Result A)
  read p m st = attempt p m st (λ res. some (res.state, res)) (some (st, null_result))

  -- `update_state`: the test's outcome and the new `st`.
  abbrev pub update_state : Bool → Result A → State → Bool × State
  update_state always_good r st =
      if always_good
      then (true, r.state)
      else if good always_good r
      then (true, r.state)
      else (false, st)

  -- `parse_assign`: whether the parser succeeded, the new `st` and the new `r`.
  unfoldable pub parse_assign :
      Parser A → Memory → State → Result A → Option (Bool × State × Result A)
  parse_assign p m st r = do
    next ← p.parse m st
    if p.always_good
        then some (true, next.state, next)
        else if good p.always_good next
        then some (true, next.state, next)
        else some (false, st, next)

  -- `parse_assign_value`: as above, with the value alone, kept on failure.
  unfoldable pub parse_assign_value : Parser A → Memory → State → A → Option (Bool × State × A)
  parse_assign_value p m st v = do
    r ← p.parse m st
    if p.always_good
        then some (true, r.state, r.value)
        else if good p.always_good r
        then some (true, r.state, r.value)
        else some (false, st, v)
