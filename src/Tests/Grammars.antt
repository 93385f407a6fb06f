-- ===== src/Tests/Grammars.antt =====
-- The theorems on the combinators for parsers of `bool` and of literals at concrete texts.
use mathlib.Core.Option
use mathlib.Core.Option.{Option, none}
use noam.Base.{
  ◌>>=◌, ℕ, ◌≡◌, refl, ap, Bool, true, false, ◌&&◌, List, [], ◌∷◌, map, codes, length, length-drop,
  drop, some, if◌then◌else◌, Bool-cases, inl, inr, arith,
}
use noam.Combinators.Match.{all_always_good, update_while}
use noam.Combinators.Sequence.{sequence_from, sequence_loop}
use noam.Intrinsics.Chars.{skip, one_of}
use noam.Literal.{check_any, check_and_update}
use noam.State.{starts_with_array, same_chars}
use noam.Combinators.Either.Boxed.{either_boxed, boxed, either_boxed-either}
use noam.Result.Optional.{assign_optional}
use noam.Combinators.Either.{either}
use noam.Combinators.Either.Grammars as EitherGrammars
use noam.Combinators.Either.Grammars.{either_grammar, either-Refines}
use noam.Combinators.Either.Converted.{
  Alternative, either_converted, either1_converted, either2_converted, either3_converted,
  either4_converted,
}
use noam.Combinators.Either.Converted.Mapped.{all_mapped, either_converted-mapped}
use noam.Combinators.Fold.{fold_left}
use noam.Combinators.Consumption.{Consumes}
use noam.Combinators.Fold.Many.{Folds, fold_left-Folds}
use noam.Combinators.Lookahead.{test, test_lookahead, lookahead}
use noam.Combinators.Lookahead.Outcomes.{test_value, lookahead_never_fails}
use noam.Combinators.Match.{match, join, any_parser, separator}
use noam.Combinators.Match.Grammars as MatchGrammars
use noam.Combinators.Match.Grammars.{match_grammar, join_grammar, match-Refines, join-Refines}
use noam.Combinators.Sequence.{sequence, sequence_delimited}
use noam.Combinators.Sequence.Delimited.{Delimited, separator-Refines, sequence_delimited-Delimited}
use noam.Combinators.Sequence.Words.{separator_grammar}
use noam.Combinators.Sequence.Separated.{Separated, sequence-Separated}
use noam.Intrinsics.Words.{
  bool_parser, bool_grammar, Bool-default, bool_parser-Refines, literal, literal_grammar,
  literal_constant-Refines,
}
use noam.Literal.{char_literal}
use noam.Literal.Match.{is_prefix-length-le}
use noam.Parser.{Parser, read, parse_assign, parse_assign_value}
use noam.Parser.Reading.{Reads, read-Reads}
use noam.Parser.Refines.{Grammar, Refines, Agrees, IsTail, forget_grammar, forget-Refines}
use noam.Result.{Result, Empty, empty, Empty-default, good, null_result, DefaultConstructible}
use noam.State.{State, Memory}
use noam.State.Prefix.{is_prefix}
use noam.State.View.{IsValid, view, chars}
use noam.Tests.{text_memory, first, first-IsValid}

abbrev plain : {A : Type 0} → Memory → A → A
plain m v = v

bool : Refines plain 20 bool_parser bool_grammar
bool = bool_parser-Refines 20

abbrev comma_grammar : Grammar Empty
comma_grammar = literal_grammar empty (char_literal b',' ∷ [])

abbrev comma_parser : Parser Empty
comma_parser = literal (char_literal b',' ∷ [])

comma : Refines plain 20 comma_parser comma_grammar
comma = literal_constant-Refines empty (char_literal b',' ∷ []) 20

either-Refines_example :
    Refines plain 20
      (either (bool_parser ∷ bool_parser ∷ []))
      (either_grammar (bool_grammar ∷ bool_grammar ∷ []))
either-Refines_example =
    either-Refines (EitherGrammars.cons bool (EitherGrammars.cons bool EitherGrammars.nil))

commas :
    MatchGrammars.AllRefine 20
      (any_parser comma_parser ∷ any_parser comma_parser ∷ [])
      (forget_grammar comma_grammar ∷ forget_grammar comma_grammar ∷ [])
commas =
    MatchGrammars.cons (forget-Refines comma)
      (MatchGrammars.cons (forget-Refines comma) MatchGrammars.nil)

join-Refines_example :
    Refines plain 20
      (join (any_parser comma_parser ∷ any_parser comma_parser ∷ []) bool_parser)
      (join_grammar (forget_grammar comma_grammar ∷ forget_grammar comma_grammar ∷ []) bool_grammar)
join-Refines_example = join-Refines commas bool

abbrev false_text : Memory
false_text = text_memory (codes "false")

false_text-read : bool_grammar (view false_text (first 5)) ≡ some (false, [])
unfolding chars is_prefix
false_text-read = refl

test_value_example :
    ((test bool_parser).parse false_text (first 5)
      ≡ some (record { state = first 5; value = false }))
    × ((test_lookahead bool_parser).parse false_text (first 5)
        ≡ some (record { state = first 5; value = false }))
test_value_example =
    test_value false_text (first 5) false [] bool (first-IsValid 5 (omega arith)) (omega arith)
      false_text-read

abbrev list_text : Memory
list_text = text_memory (codes "[true , false]true")

-- "true , false" and the state of the whole list.
abbrev elements : State
elements = record { begin = 2; end = 14 }

elements-IsValid : IsValid elements
elements-IsValid = record { nonnull = omega arith; ordered = omega arith; fits = omega arith }

lookahead_never_fails_example :
    (r : Result Bool) × ((lookahead bool_parser).parse list_text (first 14) ≡ some r)
    × (good bool_parser.always_good r ≡ true)
    × (r.state ≡ first 14)
lookahead_never_fails_example =
    lookahead_never_fails plain list_text (first 14) bool (first-IsValid 14 (omega arith))
      (omega arith)

abbrev same_text : Memory
same_text = text_memory (codes "abcabd")

abbrev prefix : State
prefix = first 2

abbrev behind : State
behind = record { begin = 4; end = 7 }

behind-IsValid : IsValid behind
behind-IsValid = record { nonnull = omega arith; ordered = omega arith; fits = omega arith }

instance abbrev OptionBool-default : DefaultConstructible (Option Bool)
OptionBool-default = record { default = none }

-- A Boolean, or nothing where there is a comma.
abbrev word_alternative : Alternative (Option Bool)
word_alternative = record { value_type = Bool; parser = bool_parser; convert = some }

abbrev comma_alternative : Alternative (Option Bool)
comma_alternative = record { value_type = Empty; parser = comma_parser; convert = λ _. none }

either_converted-mapped_example :
    ((either_converted (comma_alternative ∷ word_alternative ∷ [])).parse list_text elements
      ≡ (either (all_mapped (comma_alternative ∷ word_alternative ∷ []))).parse list_text elements)
    × ((either1_converted word_alternative).parse list_text elements
        ≡ (either_converted (word_alternative ∷ [])).parse list_text elements)
    × ((either2_converted word_alternative comma_alternative).parse list_text elements
        ≡ (either_converted (word_alternative ∷ comma_alternative ∷ [])).parse list_text elements)
    × ((either3_converted word_alternative comma_alternative comma_alternative).parse list_text
          elements
        ≡ (either_converted (word_alternative ∷ comma_alternative ∷ comma_alternative ∷ [])).parse
            list_text elements)
    × ((either4_converted word_alternative comma_alternative comma_alternative
            word_alternative).parse
          list_text elements
        ≡ (either_converted (
              word_alternative ∷ comma_alternative ∷ comma_alternative ∷ word_alternative
              ∷ [])).parse
            list_text elements)
either_converted-mapped_example =
    either_converted-mapped (comma_alternative ∷ word_alternative ∷ []) word_alternative
      comma_alternative comma_alternative word_alternative list_text elements

read-Reads_example :
    (found : Bool) × (st' : State) × (next : Result Bool) × (read bool_parser list_text elements
      ≡ some (st', if found then next else null_result))
    × (parse_assign bool_parser list_text elements null_result ≡ some (found, st', next))
    × (parse_assign_value bool_parser list_text elements false
        ≡ some (found, st', if found then next.value else false))
    × Reads plain list_text elements found st' next (bool_grammar (view list_text elements))
read-Reads_example =
    read-Reads plain list_text elements null_result false bool elements-IsValid (omega arith)

bool-Consumes : Consumes bool_grammar
bool-Consumes l b rest h = elim (Bool-cases (is_prefix (codes "true") l)) [
  | inl t ↦
      let e : drop 4 l ≡ rest = cc (rw t at h) in
      omega (arith, is_prefix-length-le (codes "true") l t, length-drop 4 l, ap length e)
  | inr other ↦ elim (Bool-cases (is_prefix (codes "false") l)) [
    | inl t ↦
        let e : drop 5 l ≡ rest = cc (rw (other, t) at h) in
        omega (arith, is_prefix-length-le (codes "false") l t, length-drop 5 l, ap length e)
    | inr neither ↦ cc (rw (other, neither) at h)
  ]
]

fold_left-Folds_example :
    (r : Result Bool) × ((fold_left 20 bool_parser bool_parser (λ a b. a && b)).parse list_text
        elements
      ≡ some r)
    × Folds plain plain
        (λ a b. a && b)
        (λ a b. a && b)
        bool_grammar
        list_text
        elements
        r
        (bool_grammar (view list_text elements))
fold_left-Folds_example =
    fold_left-Folds plain plain (λ a b. a && b) (λ a b. a && b) bool_grammar bool_parser bool_parser
      bool_grammar 20 list_text elements (λ m a b. refl) bool bool bool-Consumes (omega arith)
      elements-IsValid (omega arith)

sequence-Separated_example :
    (r : Result (List Bool)) × ((sequence 20 bool_parser (separator (char_literal b',' ∷ []))).parse
        list_text elements
      ≡ some r)
    × Separated bool_grammar
        (separator_grammar (char_literal b','))
        (view list_text elements)
        (map (plain list_text) r.value)
        (view list_text r.state)
    × IsTail elements r.state
sequence-Separated_example =
    sequence-Separated bool_parser (separator (char_literal b',' ∷ [])) bool_grammar
      (separator_grammar (char_literal b',')) bool (separator-Refines 20 (char_literal b','))
      bool-Consumes 20 list_text elements (omega arith) elements-IsValid (omega arith)

sequence_delimited-Delimited_example :
    (r : Result (List Bool)) × (said : Option (List Bool × List ℕ)) × ((sequence_delimited 20
          (char_literal b'[')
          (char_literal b',')
          (char_literal b']')
          bool_parser).parse
        list_text
        (first 14)
      ≡ some r)
    × Delimited
        (char_literal b'[')
        (char_literal b',')
        (char_literal b']')
        bool_grammar
        (view list_text (first 14))
        said
    × Agrees (λ m. map (plain m)) false list_text (first 14) r said
sequence_delimited-Delimited_example =
    sequence_delimited-Delimited (char_literal b'[') (char_literal b',') (char_literal b']')
      bool_parser bool_grammar bool bool-Consumes 20 list_text (first 14) (omega arith)
      (first-IsValid 14 (omega arith)) (omega arith)

-- The whole list is read, with whitespace around its separator.
list_text_lem :
    (sequence_delimited 20
        (char_literal b'[')
        (char_literal b',')
        (char_literal b']')
        bool_parser).parse
      list_text
      (first 14)
    ≡ some (record { state = record { begin = 15; end = 15 }; value = true ∷ false ∷ [] })
unfolding sequence_delimited sequence_from sequence_loop match all_always_good update_while
    check_any check_and_update skip one_of bool_parser starts_with_array same_chars
list_text_lem = refl

either_boxed-either_example :
    (either_boxed (map boxed (bool_parser ∷ bool_parser ∷ []))).parse list_text (first 4) ≡ (
      (either (bool_parser ∷ bool_parser ∷ [])).parse list_text (first 4) >>= λ r.
      some (assign_optional (either (bool_parser ∷ bool_parser ∷ [])).always_good r))
either_boxed-either_example =
    either_boxed-either (bool_parser ∷ bool_parser ∷ []) list_text (first 4)
