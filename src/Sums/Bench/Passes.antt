-- ===== src/Sums/Bench/Passes.antt =====
-- When a benchmark of bench/bench.cpp passes.
use noam.Base.{ℕ, ◌≡◌, ◌↔◌, List, ◌∷◌, codes, Option, none, some}
use noam.Parser.{Parser}
use noam.Parser.Refines.{Refines}
use noam.Result.{Result, Empty, empty}
use noam.State
use noam.State.{State, Memory}
use noam.State.View.{view}
use noam.Sums.Bench.{Outcome, returned, thrown, ParserTest}

abbrev first_code : Outcome Empty → ℕ
first_code (thrown (c ∷ what)) = c
first_code _ = 0

abbrev unread : Outcome Empty
unread = thrown (codes "Failed to read entire input string")

abbrev parse_failed : Outcome Empty
parse_failed = thrown (codes "Parse failed")

-- What a run says, by what the grammar says of the input.
abbrev Says : {V : Type 0} → Memory → ParserTest V → Option (V × List ℕ) → Outcome Empty → Type 0
Says m test said o =
    ((o ≡ returned empty) ↔ (said ≡ some (test.expected_value, view m test.expected_remainder)))
    × ((o ≡ thrown (codes "Parse failed")) ↔ (said ≡ none))
