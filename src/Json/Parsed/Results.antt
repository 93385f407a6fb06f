-- ===== src/Json/Parsed/Results.antt =====
-- The results of `parse_json` of src/json-example.cpp.
use noam.Base.{ℕ, ◌-◌, ◌<◌, ◌≡◌, ◌⊎◌, true, false, some, Option-cases, inl, inr}
use noam.Combinators.Basic.{whitespace_enclose, enclose}
use noam.Intrinsics.Numbers.{ReadsNumbers}
use noam.Intrinsics.Words.{FromChars}
use noam.Json.{parse_json}
use noam.Json.Grammars.{json_grammar}
use noam.Json.Parsed.Values.{json_grammar-IsReadable}
use noam.Json.Parses.{read, parse_json-Refines}
use noam.Json.RoundTrip.Printable.{IsReadable}
use noam.Json.Value.{JsonValue}
use noam.Parser.Refines.{Grammar}
use noam.Result.{Result, DefaultConstructible}
use noam.State
use noam.State.{State, Memory}
use noam.State.View.{IsValid, view}

-- `parse_json` returns, on a valid state of fewer characters than its fuel, where `std::from_chars`
-- reads numbers by a grammar, and it fails or has a value that is well-formed: at any depth, each
-- key of an object is less than the keys behind it, and in each key and string a backslash stands
-- before each quote and none of its own at the end.
pub parse_json-IsReadable :
    {N : Type 0} ⦃d : DefaultConstructible N⦄ (from_chars : FromChars N) (number : Grammar N)
    (fuel : ℕ) (m : Memory) (st : State)
    → ReadsNumbers from_chars number
    → IsValid st
    → st.end - st.begin < fuel
    → (r : Result (JsonValue State N)) × ((parse_json from_chars fuel).parse m st ≡ some r)
      × ((State.good r.state ≡ false) ⊎ IsReadable true (read m r.value))
unfolding whitespace_enclose enclose
parse_json-IsReadable from_chars number fuel m st reads valid fits =
    let (r, e, a) = (parse_json-Refines from_chars number reads fuel).returns m st valid fits in
    (
      r,
      e,
      elim (Option-cases (json_grammar number (view m st))) [
        | inl e' ↦ inl (rw e' at a)
        | inr ((v, rest), e') ↦
            let (_, value, _, _) = rw e' at a in
            inr (rw value (json_grammar-IsReadable number (view m st) rest v e'))
      ],
    )
