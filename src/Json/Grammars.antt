-- ===== src/Json/Grammars.antt =====
-- `parse_value` and `parse_json` of src/json-example.cpp implement a grammar of nested values.
use noam.Base.{ℕ, zero, suc, List, [], ◌∷◌, length, none}
use noam.Combinators.Basic.Grammars.{map_grammar, enclose_grammar}
use noam.Combinators.Either.Grammars.{either_grammar}
use noam.Combinators.Maps.Entries.{emplace_all}
use noam.Combinators.Maps.Grammars.{entry_grammar}
use noam.Combinators.Sequence.Grammars.{delimited_grammar}
use noam.Combinators.Sequence.Words.{whitespace_grammar}
use noam.Intrinsics.Views.Quoted.{quoted}
use noam.Intrinsics.Words.{literal_grammar, bool_grammar}
use noam.Json.{null_literal}
use noam.Json.Value.{JsonValue, Entries, values, emplace}
use noam.Literal.{char_literal}
use noam.Parser.Refines.{Grammar}
use noam.Result.{Empty, empty}

module _ {N : Type 0} where
  -- The elements of an array, and the entries of an object, with a grammar for the values.
  abbrev pub elements_grammar :
      Grammar (JsonValue (List ℕ) N) → Grammar (List (JsonValue (List ℕ) N))
  elements_grammar = delimited_grammar (char_literal b'[') (char_literal b',') (char_literal b']')

  abbrev pub entries_grammar :
      Grammar (JsonValue (List ℕ) N) → Grammar (List (List ℕ × JsonValue (List ℕ) N))
  entries_grammar inner =
      delimited_grammar (char_literal b'{') (char_literal b',') (char_literal b'}')
        (entry_grammar (char_literal b':') quoted inner)

  -- The map of the entries: of entries with one key, the first.
  abbrev pub emplaced : List (List ℕ × JsonValue (List ℕ) N) → Entries (List ℕ) N
  emplaced = emplace_all (emplace (λ l. l)) Entries.no_entries

module _ {N : Type 0} (number : Grammar N) where
  -- The alternatives of a value, with a grammar for the values in it.
  abbrev pub value_grammars : Grammar (JsonValue (List ℕ) N) → List (Grammar (JsonValue (List ℕ) N))
  value_grammars inner =
      map_grammar (λ (_ : Empty). JsonValue.null) (literal_grammar empty (null_literal ∷ []))
      ∷ map_grammar JsonValue.boolean bool_grammar
      ∷ map_grammar JsonValue.number number
      ∷ map_grammar JsonValue.string quoted
      ∷ map_grammar (λ vs. JsonValue.array (values vs)) (elements_grammar inner)
      ∷ map_grammar JsonValue.object (map_grammar emplaced (entries_grammar inner))
      ∷ []

  -- The values of less than the given depth.
  abbrev pub value_grammar : ℕ → Grammar (JsonValue (List ℕ) N)
  value_grammar zero l = none
  value_grammar (suc depth) l = either_grammar (value_grammars (value_grammar depth)) l

  -- The values of all depths: an input has no value in it that is deeper than its length.
  abbrev pub any_value_grammar : Grammar (JsonValue (List ℕ) N)
  any_value_grammar l = value_grammar (suc (length l)) l

  -- A value with whitespace around it.
  abbrev pub json_grammar : Grammar (JsonValue (List ℕ) N)
  json_grammar = enclose_grammar whitespace_grammar any_value_grammar whitespace_grammar
