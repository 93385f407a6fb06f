-- ===== src/Combinators/Lookahead.antt =====
-- `test`, `test_then`, `test_lookahead`, `test_prefix`, `require_prefix`, `lookahead`, `try_parse`
-- and `try_lookahead` of include/noam/combinators.hpp.
pub mod Made
pub mod Outcomes
pub mod Prefixes
use noam.Base.{Bool, true, false, Option, none, some, if◌then◌else◌, ◌>>=◌}
use noam.Base.Int.{to_size_t}
use noam.Parser.{Parser}
use noam.Result.{Result, good, DefaultConstructible, null_result}
use noam.State
use noam.State.{State, Memory}

-- `boolean_result(sv, parser.parse(sv))`, for parsers of Booleans: the base of the result is a copy
-- of the one that the parser returns, with its value, and the state is the one given. For results
-- without such a base it does not compile.
unfoldable pub test : Parser Bool → Parser Bool
test parser = record {
  always_good = true;
  parse = λ m st. do
    r ← parser.parse m st
    some (record { state = st; value = r.value });
}

unfoldable pub test_lookahead : Parser Bool → Parser Bool
test_lookahead parser = record {
  always_good = true;
  parse = λ m st. do
    r ← parser.parse m st
    some (record { state = st; value = r.value });
}

module _ {A : Type 0} where
  -- `test_then`; the calls of `func` are the second part of the result.
  unfoldable pub test_then : Parser A → Memory → State → Option (Result Bool × Option A)
  test_then parser m st = do
    r ← parser.parse m st
    if good parser.always_good r
        then some (record { state = r.state; value = true }, some r.value)
        else some (record { state = st; value = false }, none)

  -- For result types that are enabled for lookahead, as those of the library are: the state is set,
  -- whether the result is good or not.
  unfoldable pub lookahead : Parser A → Parser A
  lookahead parser = record {
    always_good = parser.always_good;
    parse = λ m st. do
      r ← parser.parse m st
      some (record r { state = st });
  }

  -- For result types that have no `set_state`: a `pure_result` or a `result` is made of the value.
  unfoldable pub lookahead_made : ⦃d : DefaultConstructible A⦄ → Parser A → Parser A
  lookahead_made parser = record {
    always_good = parser.always_good;
    parse = λ m st. do
      r ← parser.parse m st
      some (
          if parser.always_good
          then record { state = st; value = r.value }
          else if good parser.always_good r
          then record { state = st; value = r.value }
          else null_result);
  }

  unfoldable pub try_parse : Parser A → Parser (Option A)
  try_parse parser = record {
    always_good = true;
    parse = λ m st. do
      r ← parser.parse m st
      let result_good = good parser.always_good r
      some (record {
        state = if result_good then r.state else st;
        value = if result_good then some r.value else none;
      });
  }

  unfoldable pub try_lookahead : Parser A → Parser (Option A)
  try_lookahead parser = record {
    always_good = true;
    parse = λ m st. do
      r ← parser.parse m st
      some
          (record { state = st; value = if good parser.always_good r then some r.value else none });
  }

-- The size of the prefix is converted to `size_t`.
unfoldable pub test_prefix : State → Parser Bool
test_prefix prefix = record {
  always_good = true;
  parse = λ m st. some (
      if State.starts_with m st prefix
      then record { state = State.substr st (to_size_t (State.size prefix)); value = true }
      else record { state = st; value = false });
}

unfoldable pub require_prefix : State → Parser State
require_prefix prefix = record {
  always_good = false;
  parse = λ m st. some (
      if State.starts_with m st prefix
      then record { state = State.substr st (to_size_t (State.size prefix)); value = prefix }
      else record { state = State.null_state; value = State.null_state });
}
