-- ===== src/Tests/Characters.antt =====
-- The theorems on the parsers of characters, words, lines and strings at concrete texts.
use noam.Base.{ℕ, ◌≡◌, ◌≢◌, refl, true, false, List, [], ◌∷◌, ◌++◌, codes, some, arith}
use noam.Intrinsics.EscapedBackslash.{IsPlain, escaped_backslash}
use noam.Intrinsics.Line.{line_parser, IsFirstLine, line_parser-IsFirstLine}
use noam.Intrinsics.Strings.{string_parser, quote, backslash, unescape}
use noam.Intrinsics.Strings.Overrun.{string_parser_overrun}
use noam.Intrinsics.Strings.RoundTrip.{escape, escape_char, string_parser-escape}
use noam.Intrinsics.Strings.Scan.{string_grammar, string_parser-Returns}
use noam.Intrinsics.Views.{State-default, parse_string_view}
use noam.Intrinsics.Views.{view_parser, view_loop}
use noam.Intrinsics.Views.Assertions.{assertions}
use noam.State.Assertions.{all_hold}
use noam.Literal.{check_and_update}
use noam.State.{starts_with_array, same_chars, eq}
use noam.Intrinsics.Views.Quoted.{quoted, parse_string_view-Refines}
use noam.Literal.{Literal, char_literal}
use noam.Parser.Refines.{Refines, Returns, IsTail}
use noam.Result.{Result, Empty-default, good}
use noam.State.{State, Memory}
use noam.State.View.{view, chars}
use noam.Tests.{text_memory, first, first-IsValid}

abbrev spaced : Memory
spaced = text_memory (codes "  x")

abbrev two_lines : Memory
two_lines = text_memory (codes "a\r\nb")

line_parser-IsFirstLine_example :
    (r : Result State) × (line_parser.parse two_lines (first 4) ≡ some r)
    × IsTail (first 4) r.state
    × IsFirstLine (view two_lines (first 4)) (view two_lines r.value) (view two_lines r.state)
line_parser-IsFirstLine_example =
    line_parser-IsFirstLine two_lines (first 4) (first-IsValid 4 (omega arith))

-- A quote and a line feed, as a string literal, and one more character.
abbrev said_twice : List ℕ
said_twice = quote ∷ b'\n' ∷ []

abbrev literal_text : List ℕ
literal_text = quote ∷ backslash ∷ quote ∷ backslash ∷ b'n' ∷ quote ∷ b',' ∷ []

literal_text_lem :
    view (text_memory literal_text) (first 7) ≡ quote ∷ (escape said_twice ++ quote ∷ b',' ∷ [])
unfolding chars escape_char
literal_text_lem = refl

string_parser-escape_example :
    (st' : State) × (string_parser.parse (text_memory literal_text) (first 7)
      ≡ some (record { state = st'; value = said_twice }))
    × IsTail (first 7) st'
    × (view (text_memory literal_text) st' ≡ b',' ∷ [])
string_parser-escape_example =
    string_parser-escape said_twice (b',' ∷ []) (text_memory literal_text) (first 7)
      (first-IsValid 7 (omega arith)) literal_text_lem

no_quote_behind : (text_memory literal_text) (first 7).end ≢ quote
no_quote_behind = ground arith

string_parser-Returns_example :
    Returns
      (λ m s. s)
      false
      (text_memory literal_text)
      (first 7)
      (string_parser.parse (text_memory literal_text) (first 7))
      (string_grammar (view (text_memory literal_text) (first 7)))
string_parser-Returns_example =
    string_parser-Returns (text_memory literal_text) (first 7) (first-IsValid 7 (omega arith))
      (λ _. no_quote_behind)

-- An opening quote, a letter and an escape code; a quote stands right behind.
abbrev cut_text : List ℕ
cut_text = quote ∷ b'a' ∷ backslash ∷ b'n' ∷ quote ∷ []

code_n : unescape b'n' ≡ some 10
unfolding unescape
code_n = refl

cut_text_lem :
    view (text_memory cut_text) (first 4) ≡ quote ∷ (escape (b'a' ∷ []) ++ backslash ∷ b'n' ∷ [])
unfolding chars escape_char
cut_text_lem = refl

string_parser_overrun_example :
    string_parser.parse (text_memory cut_text) (first 4)
    ≡ some (record { state = record { begin = 6; end = 5 }; value = b'a' ∷ 10 ∷ [] })
string_parser_overrun_example =
    string_parser_overrun (b'a' ∷ []) b'n' 10 (text_memory cut_text) (first 4)
      (first-IsValid 4 (omega arith)) code_n cut_text_lem refl

-- "a\\" with its quotes.
abbrev backslash_text : List ℕ
backslash_text = quote ∷ b'a' ∷ backslash ∷ backslash ∷ quote ∷ []

backslash_text_lem :
    view (text_memory backslash_text) (first 5)
    ≡ quote ∷ (b'a' ∷ [] ++ backslash ∷ backslash ∷ quote ∷ [])
unfolding chars
backslash_text_lem = refl

letter-IsPlain : IsPlain (b'a' ∷ [])
letter-IsPlain = (omega arith, omega arith, tt)

escaped_backslash_example :
    ((st' : State) × (string_parser.parse (text_memory backslash_text) (first 5)
        ≡ some (record { state = st'; value = b'a' ∷ backslash ∷ [] })))
    × ((r : Result State) × ((parse_string_view 6).parse (text_memory backslash_text) (first 5)
          ≡ some r)
        × (good false r ≡ false))
escaped_backslash_example =
    escaped_backslash (b'a' ∷ []) 6 (text_memory backslash_text) (first 5)
      (first-IsValid 5 (omega arith)) (omega arith) letter-IsPlain backslash_text_lem

parse_string_view-Refines_example : Refines view 8 (parse_string_view 8) quoted
parse_string_view-Refines_example = parse_string_view-Refines 8

abbrev open_paren : Literal
open_paren = char_literal b'('

abbrev close_paren : Literal
close_paren = char_literal b')'

abbrev escape_literal : Literal
escape_literal = char_literal backslash

abbrev in_parens : Memory
in_parens = text_memory (codes "(ab)c")

assertions-hold : all_hold assertions ≡ true
unfolding view_parser view_loop check_and_update starts_with_array same_chars eq
assertions-hold = refl
