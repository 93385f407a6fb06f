-- ===== src/Sums.antt =====
-- bench/bench.cpp: four parsers that add up a sequence of numbers with commas between them.
-- `std::from_chars` for `int` and for `long` are parameters. The sums are exact integers: a sum that
-- does not fit in a `long` is undefined behaviour in the source.
pub mod Agreement
pub mod Baseline
pub mod Bench
pub mod Halting
pub mod Integers
use noam.Base.{
  ℕ, zero, suc, ◌+◌, ◌-◌, Bool, true, false, not, ◌&&◌, List, [], ◌∷◌, Option, none, some,
  if◌then◌else◌, ◌>>=◌, ltb, ◌==◌,
}
use noam.Base.Int.{ℤ, pos, add_ℤ}
use noam.Combinators.Basic.{◌>>◌}
use noam.Combinators.Fold.{fold_left}
use noam.Combinators.Lookahead.{test_then, try_parse}
use noam.Combinators.Match.{separator}
use noam.Coroutine.{Coroutine, co_await, co_return, out_of_fuel, coroutine}
use noam.Intrinsics.Words.{FromChars, charconv}
use noam.Literal.{char_literal}
use noam.Parser.{Parser}
use noam.Result.{Result, DefaultConstructible, Empty, null_result}
use noam.State
use noam.State.{State, Memory}

instance abbrev pub ℤ-default : DefaultConstructible ℤ
ℤ-default = record { default = pos 0 }

-- `comma_separator`
abbrev pub comma_separator : Parser Empty
comma_separator = separator (char_literal b',' ∷ [])

-- `while (begin < end && *begin == ' ') begin++`, with `count` characters left before the end.
unfoldable pub skip_spaces : Memory → ℕ → ℕ → ℕ
skip_spaces m zero begin = begin
skip_spaces m (suc count) begin =
    let rest = skip_spaces m count (begin + 1) in if m begin == b' ' then rest else begin

module _ (int_from_chars : FromChars ℤ) where
  abbrev pub parse_int : Parser ℤ
  parse_int = charconv int_from_chars

  -- `comma_separator >> parse_int`
  abbrev pub comma_int : Parser ℤ
  comma_int = comma_separator >> parse_int

  -- `test_then(comma_separator >> parse_int, …)`: the value has the call of the function, which adds
  -- to `sum`, besides the outcome.
  unfoldable pub next_value : Parser (Bool × Option ℤ)
  next_value = record {
    always_good = true;
    parse = λ m st. do
      (r, call) ← test_then comma_int m st
      some (record { state = r.state; value = (r.value, call) });
  }

  abbrev pub add_call : Option ℤ → ℤ → ℤ
  add_call none sum = sum
  add_call (some value) sum = add_ℤ sum value

  -- `while (co_await next_value);`
  unfoldable pub test_then_loop : ℕ → ℤ → Coroutine ℤ
  test_then_loop zero sum = out_of_fuel
  test_then_loop (suc fuel) sum = co_await next_value (λ (found, call).
      let rest = test_then_loop fuel (add_call call sum) in
      if found then rest else co_return (add_call call sum))

  -- The body of the coroutine, from its beginning.
  abbrev pub test_then_body : ℕ → Coroutine ℤ
  test_then_body fuel = co_await parse_int (λ sum. test_then_loop fuel sum)

  unfoldable pub add_w_test_then : ℕ → Parser ℤ
  add_w_test_then fuel = coroutine (test_then_body fuel)

  -- `while (std::optional value = co_await next_value)`
  unfoldable pub try_parse_loop : ℕ → ℤ → Coroutine ℤ
  try_parse_loop zero sum = out_of_fuel
  try_parse_loop (suc fuel) sum = co_await (try_parse comma_int) (λ next. elim next [
    | some value ↦ try_parse_loop fuel (add_ℤ sum value)
    | none ↦ co_return sum
  ])

  abbrev pub try_parse_body : ℕ → Coroutine ℤ
  try_parse_body fuel = co_await parse_int (λ sum. try_parse_loop fuel sum)

  unfoldable pub add_w_try_parse : ℕ → Parser ℤ
  add_w_try_parse fuel = coroutine (try_parse_body fuel)

  -- `for (;;) …`: `parse_result_start` and `sum` behind it.
  unfoldable pub baseline_loop : ℕ → Memory → ℕ → ℕ → ℕ → ℤ → Option (ℕ × ℤ)
  baseline_loop zero m end begin parse_result_start sum = none
  baseline_loop (suc fuel) m end begin parse_result_start sum =
      let comma = skip_spaces m (end - begin) begin in
      let number = skip_spaces m (end - (comma + 1)) (comma + 1) in
      if not (comma == end) && m comma == b','
      then elim (int_from_chars m number end) [
        | none ↦ some (parse_result_start, sum)
        | some (ptr, value) ↦ baseline_loop fuel m end ptr ptr (add_ℤ sum value)
      ]
      else some (parse_result_start, sum)

  unfoldable pub add_w_baseline : ℕ → Parser ℤ
  add_w_baseline fuel = record {
    always_good = false;
    parse = λ m sv. elim (int_from_chars m sv.begin sv.end) [
      | none ↦ some null_result
      | some (ptr, value) ↦ do
        (parse_result_start, sum) ← baseline_loop fuel m sv.end ptr ptr value
        some (record { state = record { begin = parse_result_start; end = sv.end }; value = sum })
    ];
  }

-- `parse_long` is `charconv` for `long`.
unfoldable pub add_w_fold : FromChars ℤ → FromChars ℤ → ℕ → Parser ℤ
add_w_fold long_from_chars int_from_chars fuel =
    fold_left fuel (charconv long_from_chars) (comma_int int_from_chars) add_ℤ
