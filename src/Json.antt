-- ===== src/Json.antt =====
-- The parser of src/json-example.cpp. A string is a range of characters of the input. The type of
-- numbers and `std::from_chars` are parameters. `fuel` bounds the depth of the values, the rounds
-- of each loop over elements, and those of each loop over the characters of a string.
pub mod Value
pub mod Grammars
pub mod Shorter
pub mod Depth
pub mod Parses
pub mod Format
pub mod RoundTrip
pub mod Parsed
pub mod Program
use noam.Base.{ℕ, Bool, List, [], ◌∷◌, codes}
use noam.Combinators.Basic.{whitespace_enclose}
use noam.Combinators.Either.Converted.{Alternative, either_converted}
use noam.Combinators.Maps.{parse_map_default}
use noam.Combinators.Recurse.{recurse}
use noam.Combinators.Sequence.{sequence_enclosed}
use noam.Intrinsics.Views.{parse_string_view, State-default}
use noam.Intrinsics.Words.{literal_constant, bool_parser, FromChars, charconv}
use noam.Json.Value.{JsonValue, Entries, values, emplace, JsonValue-default, Entries-default}
use noam.Literal.{Literal, char_literal, string_literal}
use noam.Parser.{Parser}
use noam.Result.{DefaultConstructible, Empty, Empty-default, empty}
use noam.State.{State}
use noam.State.View.{view}

abbrev pub null_literal : Literal
null_literal = string_literal (codes "null")

-- The grammar of values that have themselves as elements: `parse_value` of the lambda stands for
-- the parser of all values. The value of each alternative is converted to a `json_value`.
module _ {N : Type 0} ⦃d : DefaultConstructible N⦄ (from_chars : FromChars N) (fuel : ℕ) where
  -- The alternatives of `parse_value`.
  abbrev pub alternatives : Parser (JsonValue State N) → List (Alternative (JsonValue State N))
  alternatives parse_value =
      record {
        value_type = Empty;
        parser = literal_constant empty (null_literal ∷ []);
        convert = λ _. JsonValue.null;
      }
      ∷ record { value_type = Bool; parser = bool_parser; convert = JsonValue.boolean }
      ∷ record { value_type = N; parser = charconv from_chars; convert = JsonValue.number }
      ∷ record { value_type = State; parser = parse_string_view fuel; convert = JsonValue.string }
      ∷ record {
        value_type = List (JsonValue State N);
        parser = sequence_enclosed fuel (char_literal b'[') (char_literal b']') parse_value;
        convert = λ vs. JsonValue.array (values vs);
      }
      ∷ record {
        value_type = Entries State N;
        parser =
            parse_map_default (λ m. emplace (view m)) fuel (parse_string_view fuel) parse_value;
        convert = JsonValue.object;
      }
      ∷ []

  abbrev pub parse_value_at : ℕ → Parser (JsonValue State N)
  parse_value_at depth = recurse depth (λ parse_value. either_converted (alternatives parse_value))

  abbrev pub parse_value : Parser (JsonValue State N)
  parse_value = parse_value_at fuel

  abbrev pub parse_json : Parser (JsonValue State N)
  parse_json = whitespace_enclose parse_value
