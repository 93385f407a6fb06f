-- ===== src/Tests/Benchmarks.antt =====
-- The theorems on the benchmarks of bench/bench.cpp at concrete texts.
use noam.Base.{ℕ, Bool, true, false, List, codes}
use noam.Intrinsics.Words.{Bool-default}
use noam.Sums.Bench.{ParserTest}
use noam.Tests.{first}

abbrev same_bool : Bool → Bool → Bool
same_bool true b = b
same_bool false true = false
same_bool false false = true

abbrev print_bool_test : Bool → List ℕ
print_bool_test b = codes "0"

-- The word, with the comma behind it left.
abbrev word_test : ParserTest Bool
word_test = record {
  input = first 5;
  expected_remainder = record { begin = 5; end = 6 };
  expected_value = true;
  items = 1;
}
