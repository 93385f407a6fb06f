-- ===== src/Json/Program.antt =====
-- `parse_n_print` and `main` of src/json-example.cpp. What `fmt::print` writes is returned, by its
-- characters; what fmt prints for a number is a parameter.
pub mod EmptyObjects
pub mod Main
pub mod Printed
use noam.Base.{ℕ, ◌-◌, ◌+◌, List, ◌++◌, length, get_or, codes, Option, some, ◌>>=◌, if◌then◌else◌}
use noam.Intrinsics.Words.{FromChars}
use noam.Json.{parse_json}
use noam.Json.Format.{format}
use noam.Json.Parses.{read}
use noam.Json.Value.{JsonValue-default}
use noam.Result.{DefaultConstructible}
use noam.State
use noam.State.{State, Memory}

module _ {N : Type 0} ⦃d : DefaultConstructible N⦄ (from_chars : FromChars N) (print : N → List ℕ)
    (fuel : ℕ) where
  unfoldable pub parse_n_print : Memory → State → Option (List ℕ)
  parse_n_print m sv = do
    res ← (parse_json from_chars fuel).parse m sv
    some (
        if State.good res.state
        then format print (read m res.value) ++ codes "\n"
        else codes "failed")
