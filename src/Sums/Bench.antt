-- ===== src/Sums/Bench.antt =====
-- `parser_test` and `BM_parser` of bench/bench.cpp. An exception is a value, by its message. The
-- comparison of values and `std::to_string` are parameters, and so is the number of iterations that
-- the benchmark library chooses.
pub mod Input
pub mod Passes
use noam.Base.{
  ℕ, zero, suc, ◌*◌, not, Bool, true, false, List, ◌++◌, codes, Option, none, some, if◌then◌else◌,
  ◌>>=◌, ◌==◌,
}
use noam.Base.Int.{ℤ, pos, negsuc, sub_ℕ}
use noam.Parser.{Parser}
use noam.Result.{Result, Empty, empty, good}
use noam.State
use noam.State.{State, Memory}

pub data Outcome (A : Type 0) : Type 0 where
  returned : A → Outcome A
  thrown : List ℕ → Outcome A

pub record ParserTest (V : Type 0) : Type 0 where
  pub input : State
  pub expected_remainder : State
  pub expected_value : V
  pub items : ℕ

pub record Counters : Type 0 where
  pub bytes_processed : ℤ
  -- Not set where the test has no number of items.
  pub items_processed : Option ℕ

abbrev pub times : ℤ → ℕ → ℤ
times (pos a) n = pos (a * n)
times (negsuc a) n = sub_ℕ 0 (suc a * n)

module _ {V : Type 0} (same : V → V → Bool) (to_string : V → List ℕ) where
  unfoldable pub validate : Bool → Memory → ParserTest V → Result V → Outcome Empty
  validate always_good m test result =
      if not (good always_good result)
      then thrown (codes "Parse failed")
      else if not (same result.value test.expected_value)
      then thrown (codes "Recieved bad value: " ++ to_string result.value)
      else if not (State.eq m result.state test.expected_remainder)
      then thrown (codes "Failed to read entire input string")
      else returned empty

  -- `test.validate(parser.parse(test.get_input()))`
  abbrev pub run_once : Memory → Parser V → ParserTest V → Option (Outcome Empty)
  run_once m parser test = do
    result ← parser.parse m test.input
    some (validate parser.always_good m test result)

  -- `for (auto _ : state)`
  unfoldable pub run_each : ℕ → Memory → Parser V → ParserTest V → Option (Outcome Empty)
  run_each zero m parser test = some (returned empty)
  run_each (suc iterations) m parser test = do
    outcome ← run_once m parser test
    elim outcome [
      | thrown what ↦ some (thrown what)
      | returned _ ↦ run_each iterations m parser test
    ]

  abbrev pub counters : ℕ → ParserTest V → Counters
  counters iterations test = record {
    bytes_processed = times (State.size test.input) iterations;
    items_processed = if test.items == 0 then none else some (test.items * iterations);
  }

  unfoldable pub bm_parser : ℕ → Memory → Parser V → ParserTest V → Option (Outcome Counters)
  bm_parser iterations m parser test = do
    outcome ← run_each iterations m parser test
    some (elim outcome [
      | thrown what ↦ thrown what
      | returned _ ↦ returned (counters iterations test)
    ])
