-- ===== src/Intrinsics/Views/Assertions.antt =====
-- The assertions at the end of include/noam/intrinsics.hpp, on the values of `parse_string_view`.
use noam.Base.{ℕ, ◌+◌, Bool, false, List, [], ◌∷◌, ◌++◌, length, codes, none, some, get_or}
use noam.Intrinsics.Views.{parse_string_view, State-default}
use noam.Result.{check_value}
use noam.State.{Memory, literal_st, eq}

-- The text that is parsed stands at address 1, and the value that is expected behind it.
abbrev texts : List ℕ → List ℕ → Memory
texts text value a = get_or (0 ∷ (text ++ value)) a 0

-- `parse_string_view.parse(text).check_value(value)`
abbrev reads : List ℕ → List ℕ → Bool
reads text value =
    let m = texts text value in
    let parsed = (parse_string_view 100).parse m (literal_st 1 (length text)) in
    elim parsed [
      | none ↦ false
      | some r ↦ check_value false (eq m) r (literal_st (length text + 1) (length value))
    ]

abbrev pub assertions : List Bool
assertions =
    reads (codes "\"\"") []
    ∷ reads (codes "\"hello\"") (codes "hello")
    ∷ reads (codes "\"hello\" world") (codes "hello")
    ∷ reads (codes "\"hello\\\" world\"") (codes "hello\\\" world")
    ∷ []
