-- ===== src/Tests/Objects.antt =====
-- The theorems on `make` and `parse_map` for parsers of `bool` at concrete texts.
use noam.Base.{refl, arith, Bool, List, [], ◌∷◌, codes}
use noam.Combinators.Make.{Parsers, make, join_each}
use noam.Combinators.Make.Arguments
use noam.Combinators.Make.Arguments.{make_grammar, make-Refines}
use noam.Combinators.Maps.{pair-default, parse_map}
use noam.Combinators.Basic.Grammars.{map_grammar}
use noam.Combinators.Consumption.{Consumes-Keeps}
use noam.Combinators.Maps.Grammars.{entry_grammar, parse_map-Refines}
use noam.Combinators.Sequence.Grammars.{delimited_grammar}
use noam.Intrinsics.Shorter.{bool_grammar-Consumes}
use noam.Combinators.Maps.Entries.{emplace_all}
use noam.Combinators.Match.Grammars
use noam.Combinators.Match.Grammars.{join_grammar, join-Refines}
use noam.Combinators.Sequence.{List-default}
use noam.Combinators.Sequence.Delimited.{separator-Refines}
use noam.Combinators.Sequence.Words.{separator_grammar}
use noam.Intrinsics.Words.{bool_parser, bool_grammar, Bool-default, bool_parser-Refines}
use noam.Literal.{Literal, char_literal}
use noam.Parser.Refines.{Refines}
use noam.State.{Memory}
use noam.Tests.{text_memory}

abbrev colon : Literal
colon = char_literal b':'

abbrev arguments : Parsers (Bool × Bool) (Bool → Bool → Bool × Bool)
arguments =
    Parsers.next Bool-default bool_parser
      (join_each colon (Parsers.next Bool-default bool_parser Parsers.no_more))

abbrev value_grammars : Arguments.Grammars (Bool × Bool) (Bool → Bool → Bool × Bool)
value_grammars = Arguments.Grammars.another bool_grammar (
    Arguments.Grammars.another (join_grammar (separator_grammar colon ∷ []) bool_grammar)
      Arguments.Grammars.finished)

abbrev arguments_refine :
    Arguments.AllRefine
      (λ m (v : Bool × Bool). v)
      20
      (Bool → Bool → Bool × Bool)
      (Bool → Bool → Bool × Bool)
      arguments
      value_grammars
arguments_refine = Arguments.AllRefine.one_more (bool_parser-Refines 20) (
    Arguments.AllRefine.one_more
      (join-Refines (Grammars.cons (separator-Refines 20 colon) Grammars.nil)
        (bool_parser-Refines 20))
      Arguments.AllRefine.all_read)

make-Refines_example :
    Refines
      (λ m (v : Bool × Bool). v)
      20
      (make arguments (λ k v. (k, v)))
      (make_grammar value_grammars (λ k v. (k, v)))
make-Refines_example =
    make-Refines (λ m v. v) 20 arguments_refine (λ k v. (k, v)) (λ k v. (k, v)) (λ m a b. refl)

-- An association list of all entries, the latest in front, in the place of a map.
abbrev emplace : Memory → List (Bool × Bool) → Bool → Bool → List (Bool × Bool)
emplace m entries k v = (k, v) ∷ entries

abbrev object_text : Memory
object_text = text_memory (codes "{true : false, false:true}")

parse_map-Refines_example :
    Refines
      (λ m (entries : List (Bool × Bool)). entries)
      28
      (parse_map emplace 27
        (char_literal b'{')
        (char_literal b',')
        colon
        (char_literal b'}')
        bool_parser
        bool_parser)
      (map_grammar (emplace_all (λ entries k v. (k, v) ∷ entries) []) (
        delimited_grammar
          (char_literal b'{')
          (char_literal b',')
          (char_literal b'}')
          (entry_grammar colon bool_grammar bool_grammar)))
parse_map-Refines_example =
    parse_map-Refines (bool_parser-Refines 27) (bool_parser-Refines 27) emplace
      (λ entries k v. (k, v) ∷ entries) (λ m entries k v. refl) 27 (char_literal b'{')
      (char_literal b',') colon (char_literal b'}') [] (λ m. refl) bool_grammar-Consumes
      (Consumes-Keeps bool_grammar bool_grammar-Consumes) (omega arith) (omega arith)
