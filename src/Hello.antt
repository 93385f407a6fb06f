-- ===== src/Hello.antt =====
-- src/hello.cpp: what the program writes, to `std::cout` and by `fmt::print`, in order. What fmt
-- prints for a vector and `std::from_chars` are parameters, and so is the address of the text.
pub mod Success
use noam.Base.{ℕ, List, [], ◌∷◌, ◌++◌, length, codes, Option, some, if◌then◌else◌, ◌>>=◌}
use noam.Base.Int.{ℤ}
use noam.Combinators.Sequence.{sequence_separated}
use noam.Intrinsics.Words.{FromChars}
use noam.Literal.{string_literal}
use noam.Parser.{Parser}
use noam.Result.{good}
use noam.State
use noam.State.{State, Memory}
use noam.State.View.{view}
use noam.Sums.{parse_int, ℤ-default}

abbrev pub str : List ℕ
str = codes "10, 20, 30, 40, hello"

module _ (int_from_chars : FromChars ℤ) (format_values : List ℤ → List ℕ) (fuel : ℕ) where
  abbrev pub parser : Parser (List ℤ)
  parser = sequence_separated fuel (string_literal (codes ",")) (parse_int int_from_chars)

  -- What is written for a text.
  unfoldable pub greet : Memory → State → Option (List ℕ)
  greet m st = do
    result ← parser.parse m st
    some (
        if good parser.always_good result
        then codes "Success\n"
          ++ codes "Success\n"
          ++ (codes "State: '" ++ view m result.state ++ codes "'\n")
          ++ (codes "Value: " ++ format_values result.value ++ codes "\n")
        else codes "Failure")

  abbrev pub main : Memory → ℕ → Option (List ℕ)
  main m ptr = greet m (State.of_size ptr (length str))
