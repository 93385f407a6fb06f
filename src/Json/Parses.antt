-- ===== src/Json/Parses.antt =====
-- `parse_value` and `parse_json` of src/json-example.cpp, on all inputs.
use noam.Base.{ℕ, suc, ◌-◌, length, ◌<◌, refl, ap, List, [], ◌∷◌, arith}
use noam.Combinators.Basic.{whitespace_enclose}
use noam.Combinators.Basic.Grammars.{enclose-Refines, map-Refines}
use noam.Combinators.Consumption.{Consumes-Keeps}
use noam.Combinators.Either.Converted.{either_converted}
use noam.Combinators.Either.Converted.Mapped.{all_mapped, either_converted-Refines}
use noam.Combinators.Either.Grammars
use noam.Combinators.Maps.Grammars.{parse_map-Refines}
use noam.Combinators.Recurse.Depth.{recurse-Refines_depth}
use noam.Combinators.Sequence.Delimited.{whitespace-Refines}
use noam.Combinators.Sequence.Grammars.{sequence_delimited-Refines}
use noam.Intrinsics.Numbers.{ReadsNumbers, charconv-Refines}
use noam.Combinators.Sequence.{List-default}
use noam.Intrinsics.Views.{State-default}
use noam.Intrinsics.Views.Quoted.{parse_string_view-Refines}
use noam.Intrinsics.Words.{FromChars, Bool-default, bool_parser-Refines, literal_constant-Refines}
use noam.Json.{alternatives, parse_value, parse_json, null_literal}
use noam.Json.Grammars.{value_grammars, value_grammar, any_value_grammar, json_grammar}
use noam.Json.Depth.{value_grammar-depth}
use noam.Intrinsics.Shorter.{quoted-Consumes}
use noam.Json.Shorter.{value_grammar-Consumes}
use noam.Json.Value.{
  JsonValue, Entries, emplace, contents, contents_values, contents_entries, contents-values,
  contents-emplace, JsonValue-default, Entries-default,
}
use noam.Literal.{char_literal}
use noam.Parser.{Parser}
use noam.Parser.Refines.{Grammar, Refines, Refines-le}
use noam.Result.{DefaultConstructible, Empty-default, empty}
use noam.State.{State, Memory}
use noam.State.View.{view, length-chars}

-- A value, with the characters of its strings.
abbrev pub read : {N : Type 0} → Memory → JsonValue State N → JsonValue (List ℕ) N
read m = contents (view m)

module _ {N : Type 0} ⦃d : DefaultConstructible N⦄ (from_chars : FromChars N) (number : Grammar N)
    (h : ReadsNumbers from_chars number) (fuel : ℕ) where
  alternatives-Refine :
      (k : ℕ) (p : Parser (JsonValue State N))
      → k < fuel
      → Refines read k p (value_grammar number k)
      → Grammars.AllRefine read
          (suc k)
          (all_mapped (alternatives from_chars fuel p))
          (value_grammars number (value_grammar number k))
  unfolding contents contents_values contents_entries
  alternatives-Refine k p within hp =
      let c = value_grammar-Consumes number h.takes k in
      let strings = parse_string_view-Refines fuel in
      Grammars.AllRefine.cons
        (map-Refines _ _ (λ m v. refl) (literal_constant-Refines empty (null_literal ∷ []) (suc k)))
        (Grammars.AllRefine.cons (map-Refines _ _ (λ m v. refl) (bool_parser-Refines (suc k))) (
          Grammars.AllRefine.cons
            (map-Refines _ _ (λ m v. refl) (charconv-Refines from_chars number (suc k) h))
            (Grammars.AllRefine.cons
              (map-Refines _ _ (λ m v. refl) (Refines-le (omega arith) strings))
              (Grammars.AllRefine.cons
                (map-Refines _ _ (λ m vs. ap JsonValue.array (contents-values (view m) vs))
                  (sequence_delimited-Refines {abs = read} fuel (char_literal b'[')
                    (char_literal b',') (char_literal b']') p (value_grammar number k) hp c
                    (omega arith) (omega arith)))
                (Grammars.AllRefine.cons
                  (map-Refines _ _ (λ m entries. refl)
                    (parse_map-Refines (Refines-le (omega arith) strings) hp (λ m. emplace (view m))
                      (emplace (λ l. l)) (λ m. contents-emplace (view m)) fuel (char_literal b'{')
                      (char_literal b',') (char_literal b':') (char_literal b'}') Entries.no_entries
                      (λ m. refl) quoted-Consumes (Consumes-Keeps _ c) (omega arith) (omega arith)))
                  Grammars.AllRefine.nil)))))

  -- `parse_value` returns on every valid state of fewer characters than its fuel, where
  -- `std::from_chars` reads numbers of at least one character by a grammar. It has the value of the
  -- first alternative that the characters begin with, of any depth, and stands behind it; it fails
  -- where there is none. Of entries of an object with one key, the first is kept.
  pub parse_value-Refines :
      Refines read fuel (parse_value from_chars fuel) (any_value_grammar number)
  parse_value-Refines =
      let inner =
        recurse-Refines_depth {abs = read} (λ p. either_converted (alternatives from_chars fuel p))
          (value_grammar number) fuel fuel
          (λ k p within hp. either_converted-Refines _ (alternatives-Refine k p within hp))
          (omega arith) in
      record {
        returns = λ m st v l.
            let fits = length-chars m st.begin (st.end - st.begin) in
            let enough =
              value_grammar-depth number h.takes fuel (suc (length (view m st))) (view m st)
                (omega (arith, fits)) (omega arith) in
            rw enough at (inner.returns m st v l);
      }

  -- `parse_json` returns on every valid state of fewer characters than its fuel, where
  -- `std::from_chars` reads numbers of at least one character by a grammar. It takes whitespace, the
  -- first alternative of a value that fits, of any depth, and whitespace, and has that value; it
  -- fails where no value stands behind the whitespace. Of entries of an object with one key, the
  -- first is kept.
  pub parse_json-Refines : Refines read fuel (parse_json from_chars fuel) (json_grammar number)
  unfolding whitespace_enclose
  parse_json-Refines =
      enclose-Refines (whitespace-Refines fuel) parse_value-Refines (whitespace-Refines fuel)
