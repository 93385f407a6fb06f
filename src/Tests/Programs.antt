-- ===== src/Tests/Programs.antt =====
-- The theorems on the program of src/json-example.cpp, with the numbers zero and one, at concrete
-- texts, and the program itself with integers for its numbers.
use noam.Base.{true, ◌⊎◌, ℕ, ◌≡◌, ◌∙◌, refl, ap, List, codes, Option, some, ◌>>=◌, arith}
use noam.Intrinsics.Chars.{one_of}
use noam.Intrinsics.Views.Quoted.{body}
use noam.Intrinsics.Words.{Bool-default}
use noam.Json.Format.{format_value, format_array, format_object}
use noam.Json.Grammars.{json_grammar}
use noam.Json.Program.{parse_n_print}
use noam.Json.Program.Main.{input, main}
use noam.Json.Program.Printed.{printed, parse_n_print-printed, parse_n_print-idempotent}
use noam.Json.Value.{emplace, less}
use noam.Base.{take}
use noam.Parser.{parse_assign, parse_assign_value}
use noam.Literal.{check_and_update, check_any}
use noam.Intrinsics.Words.{bool_parser}
use noam.Intrinsics.Chars.{skip}
use noam.Intrinsics.Views.{view_loop, view_parser}
use noam.Combinators.Basic.{map, enclose, whitespace_enclose}
use noam.Combinators.Either.Converted.{
  any_converted_always_good, assign_first_converted, assign_converted, either_converted,
}
use noam.Intrinsics.Integers.{from_chars, integer_grammar, scan, magnitude, to_string, decimal}
use noam.Sums.{ℤ-default}
use noam.Combinators.Sequence.{sequence_loop, sequence_from, sequence_delimited}
use noam.Combinators.Maps.{map_loop, map_from, parse_map}
use noam.Combinators.Match.{all_always_good, update_each, update_while, match, join}
use noam.Combinators.Make.{assign_each, make}
use noam.Combinators.Recurse.{recurse}
use noam.Json.Value.{contents, contents_values, contents_entries}
use noam.State.{Memory, starts_with_array, same_chars}
use noam.State.Prefix.{is_prefix}
use noam.State.View.{chars, view}
use noam.Tests.{text_memory, first, first-IsValid}
use noam.Tests.Documents.{
  digit_grammar, from_digit, print_digit, from_digit-ReadsNumbers, print_digit-PrintsNumbers,
}

abbrev given : Memory
given = text_memory (codes " {\"b\":{}, \"a\": 1}")

abbrev put_out : List ℕ
put_out = codes "{\n    \"a\": 1,\n    \"b\": []\n}\n"

put_out-printed : printed print_digit (json_grammar digit_grammar (view given (first 17))) ≡ put_out
unfolding chars body emplace less is_prefix one_of format_value format_array format_object
put_out-printed = refl

parse_n_print-printed_example :
    parse_n_print from_digit print_digit 60 given (first 17)
    ≡ some (printed print_digit (json_grammar digit_grammar (view given (first 17))))
parse_n_print-printed_example =
    parse_n_print-printed from_digit print_digit digit_grammar 60 given (first 17)
      from_digit-ReadsNumbers (first-IsValid 17 (omega arith)) (omega arith)

put_out-view : view (text_memory put_out) (first 28) ≡ put_out
unfolding chars
put_out-view = refl

given-prints : parse_n_print from_digit print_digit 60 given (first 17) ≡ some put_out
given-prints =
    parse_n_print-printed from_digit print_digit digit_grammar 60 given (first 17)
      from_digit-ReadsNumbers (first-IsValid 17 (omega arith)) (omega arith)
    ∙ ap some put_out-printed

-- The empty object is an empty array when it is printed again.
parse_n_print-idempotent_example :
    (put_out ≡ codes "failed")
    ⊎ (parse_n_print from_digit print_digit 60 (text_memory put_out) (first 28) ≡ some put_out)
parse_n_print-idempotent_example =
    parse_n_print-idempotent from_digit print_digit digit_grammar 60 given (first 17)
      (text_memory put_out) (first 28) put_out from_digit-ReadsNumbers print_digit-PrintsNumbers
      (first-IsValid 17 (omega arith)) (omega arith) given-prints (first-IsValid 28 (omega arith))
      (omega arith) put_out-view

abbrev main_run : Option (List ℕ)
main_run =
    main (from_chars (record { bits = 64; signed = true })) to_string 1000 (text_memory input) 1

-- The text of `input` is a value: it is printed, with the keys of its objects in order.
main_prints : (main_run >>= λ out. some (take 19 out)) ≡ some (codes "{\n    \"glossary\": {")
unfolding parse_n_print parse_assign parse_assign_value check_and_update check_any bool_parser
    one_of skip view_loop view_parser map enclose whitespace_enclose any_converted_always_good
    assign_first_converted assign_converted either_converted from_chars integer_grammar scan
    magnitude to_string decimal sequence_loop sequence_from sequence_delimited map_loop map_from
    parse_map all_always_good update_each update_while match join assign_each make recurse less
    emplace format_value format_array format_object contents contents_values contents_entries chars
    starts_with_array same_chars
main_prints = refl
