-- ===== src/Tests/Documents.antt =====
-- The theorems on the parser and the format of values of src/json-example.cpp and
-- src/include/json_value.hpp, with the numbers zero and one, at concrete texts.
use noam.Base.{
  ◌⊎◌, ℕ, ◌≡◌, refl, Bool, true, false, List, [], ◌∷◌, ◌++◌, codes, Option, none, some, ◌==◌,
  ==_iff, if◌then◌else◌, Bool-cases, inl, inr, arith,
}
use noam.Combinators.Consumption.{Consumes}
use noam.Intrinsics.Chars.{one_of}
use noam.Intrinsics.Numbers.{ReadsNumbers}
use noam.Intrinsics.Views.Quoted.{body, quote}
use noam.Intrinsics.Words.{FromChars, Bool-default}
use noam.Json.{parse_json}
use noam.Json.Format.{format, format_value, format_array, format_object}
use noam.Json.Format.Text.{spaces, text, format_value_lem}
use noam.Json.Parsed.Results.{parse_json-IsReadable}
use noam.Json.Grammars.{json_grammar}
use noam.Json.Parses.{read, parse_json-Refines}
use noam.Json.RoundTrip.Formatted.{parse_json-format}
use noam.Json.RoundTrip.Printable.{IsPrintable, IsReadable, AreReadable, AreSorted, InFront}
use noam.Json.RoundTrip.Strings.{quotable}
use noam.Json.RoundTrip.Values.{PrintsNumbers}
use noam.Json.Value.{JsonValue, Entries, Values, emplace, less}
use noam.Parser.Refines.{Grammar, Refines}
use noam.Result.{Result}
use noam.State
use noam.State.{State, Memory}
use noam.State.Prefix.{is_prefix}
use noam.State.View.{chars, view}
use noam.Tests.Digits.{
  one_char_grammar, from_char, one_char_grammar-Consumes, from_char-ReadsNumbers,
}
use noam.Tests.{text_memory, first, first-IsValid}

abbrev digit : ℕ → Option Bool
digit c = if c == 48 then some false else if c == 49 then some true else none

abbrev pub digit_grammar : Grammar Bool
digit_grammar = one_char_grammar digit

abbrev pub from_digit : FromChars Bool
from_digit = from_char digit

digit_grammar-Consumes : Consumes digit_grammar
digit_grammar-Consumes = one_char_grammar-Consumes digit

pub from_digit-ReadsNumbers : ReadsNumbers from_digit digit_grammar
from_digit-ReadsNumbers = from_char-ReadsNumbers digit

parse_json-Refines_example : Refines read 60 (parse_json from_digit 60) (json_grammar digit_grammar)
parse_json-Refines_example = parse_json-Refines from_digit digit_grammar from_digit-ReadsNumbers 60

-- Entries are sorted by their keys, and the first of two with one key is kept.
parsed :
    json_grammar digit_grammar (codes " {\"b\" : [1, null], \"a\":{}, \"b\":0} ,")
    ≡ some (
      JsonValue.object (
          Entries.entry_of (codes "a") (JsonValue.object Entries.no_entries) (
            Entries.entry_of
              (codes "b")
              (JsonValue.array (
                Values.value_of
                  (JsonValue.number true)
                  (Values.value_of JsonValue.null Values.no_values)))
              Entries.no_entries)),
      codes ",",
    )
unfolding body emplace less is_prefix one_of
parsed = refl

abbrev pub print_digit : Bool → List ℕ
print_digit b = if b then codes "1" else codes "0"

no_digit :
    (c : ℕ) (l : List ℕ)
    → one_of (quote ∷ b'[' ∷ b']' ∷ b'{' ∷ []) c ≡ true
    → digit_grammar (c ∷ l) ≡ none
unfolding one_of
no_digit c l h = elim (Bool-cases (c == 48)) [
  | inl e ↦ let same = (==_iff c 48).0 e in cc (rw same at h)
  | inr e ↦ elim (Bool-cases (c == 49)) [
    | inl e' ↦ let same = (==_iff c 49).0 e' in cc (rw same at h)
    | inr e' ↦ rw (e, e') refl
  ]
]

pub print_digit-PrintsNumbers : PrintsNumbers print_digit digit_grammar
unfolding one_of is_prefix
print_digit-PrintsNumbers = record {
  takes = digit_grammar-Consumes;
  no_blank = λ x rest. elim (Bool-cases x) [ inl b ↦ rw b refl | inr b ↦ rw b refl ];
  no_word = λ x rest. elim (Bool-cases x) [
    | inl b ↦ rw b (refl, refl, refl)
    | inr b ↦ rw b (refl, refl, refl)
  ];
  read_back = λ x rest e. elim (Bool-cases x) [ inl b ↦ rw b refl | inr b ↦ rw b refl ];
  no_number = no_digit;
}

abbrev document : JsonValue (List ℕ) Bool
document = JsonValue.object (
    Entries.entry_of (codes "a")
      (JsonValue.array (
        Values.value_of (JsonValue.number true)
          (Values.value_of (JsonValue.array Values.no_values) Values.no_values)))
      (Entries.entry_of (codes "b") (JsonValue.string (codes "\\\"")) Entries.no_entries))

document-IsPrintable : IsPrintable document
unfolding quotable less
document-IsPrintable = IsReadable.object (
    AreSorted.entry_of refl (InFront.one refl InFront.nothing)
      (IsReadable.array (
        AreReadable.value_of IsReadable.number
          (AreReadable.value_of (IsReadable.array AreReadable.no_values) AreReadable.no_values)))
      (AreSorted.entry_of refl InFront.nothing (IsReadable.string refl) AreSorted.no_entries))

format_value_lem_example :
    format_value print_digit (spaces 4) document (codes "x")
    ≡ (spaces 4, codes "x" ++ text print_digit 4 document)
format_value_lem_example = format_value_lem print_digit 4 document (codes "x")

abbrev document_text : Memory
document_text = text_memory (codes "{\n    \"a\": [1, []],\n    \"b\": \"\\\"\"\n}")

document_text-format : view document_text (first 35) ≡ format print_digit document
unfolding chars format_value format_array format_object
document_text-format = refl

parse_json-format_example :
    (r : Result (JsonValue State Bool)) × ((parse_json from_digit 60).parse document_text (first 35)
      ≡ some r)
    × (State.good r.state ≡ true)
    × (read document_text r.value ≡ document)
    × (view document_text r.state ≡ [])
parse_json-format_example =
    parse_json-format from_digit print_digit digit_grammar 60 document document_text (first 35)
      from_digit-ReadsNumbers print_digit-PrintsNumbers document-IsPrintable
      (first-IsValid 35 (omega arith)) document_text-format (omega arith)

parse_json-IsReadable_example :
    (r : Result (JsonValue State Bool)) × ((parse_json from_digit 60).parse document_text (first 35)
      ≡ some r)
    × ((State.good r.state ≡ false) ⊎ IsReadable true (read document_text r.value))
parse_json-IsReadable_example =
    parse_json-IsReadable from_digit digit_grammar 60 document_text (first 35)
      from_digit-ReadsNumbers (first-IsValid 35 (omega arith)) (omega arith)
