-- ===== src/Combinators/Sequence/Words.antt =====
-- The whitespace, the words and the separators that stand around the elements of a sequence, as
-- grammars of include/noam/intrinsics.hpp and include/noam/combinators.hpp.
use noam.Base.{ℕ, List, ◌<◌, [], ◌∷◌}
use noam.Combinators.Consumption.{
  Consumes, Keeps, nil, cons, forget_grammar-Keeps, forget_grammar-Consumes, run_grammar-Keeps,
  literal_grammar-Keeps, literal_grammar-Consumes, match_grammar-Keeps, match_grammar-Consumes,
}
use noam.Combinators.Match.Grammars.{match_grammar}
use noam.Intrinsics.Chars.{run_grammar}
use noam.Intrinsics.Words.{literal_grammar}
use noam.Literal.{Literal, size}
use noam.Parser.Refines.{Grammar, forget_grammar}
use noam.Result.{Empty, empty}

abbrev pub blanks : List ℕ
blanks = b' ' ∷ b'\t' ∷ b'\n' ∷ b'\r' ∷ []

abbrev pub whitespace_grammar : Grammar Empty
whitespace_grammar = forget_grammar (run_grammar blanks)

abbrev pub word_grammar : Literal → Grammar Empty
word_grammar lit = forget_grammar (literal_grammar empty (lit ∷ []))

abbrev pub open_grammar : Literal → Grammar Empty
open_grammar Opening = match_grammar (word_grammar Opening ∷ whitespace_grammar ∷ [])

abbrev pub close_grammar : Literal → Grammar Empty
close_grammar Closing = match_grammar (whitespace_grammar ∷ word_grammar Closing ∷ [])

abbrev pub separator_grammar : Literal → Grammar Empty
separator_grammar Sep =
    match_grammar (whitespace_grammar ∷ word_grammar Sep ∷ whitespace_grammar ∷ [])

whitespace_grammar-Keeps : Keeps whitespace_grammar
whitespace_grammar-Keeps = forget_grammar-Keeps (run_grammar _) (run_grammar-Keeps _)

word_grammar-Keeps : (lit : Literal) → Keeps (word_grammar lit)
word_grammar-Keeps lit =
    forget_grammar-Keeps (literal_grammar empty (lit ∷ [])) (literal_grammar-Keeps empty lit)

pub open_grammar-Keeps : (Opening : Literal) → Keeps (open_grammar Opening)
open_grammar-Keeps Opening =
    match_grammar-Keeps (cons (word_grammar-Keeps Opening) (cons whitespace_grammar-Keeps nil))

pub open_grammar-Consumes : (Opening : Literal) → 0 < size Opening → Consumes (open_grammar Opening)
open_grammar-Consumes Opening positive =
    match_grammar-Consumes
      (forget_grammar-Consumes (literal_grammar empty (Opening ∷ []))
        (literal_grammar-Consumes empty Opening positive))
      (cons whitespace_grammar-Keeps nil)

pub close_grammar-Keeps : (Closing : Literal) → Keeps (close_grammar Closing)
close_grammar-Keeps Closing =
    match_grammar-Keeps (cons whitespace_grammar-Keeps (cons (word_grammar-Keeps Closing) nil))

pub separator_grammar-Keeps : (Sep : Literal) → Keeps (separator_grammar Sep)
separator_grammar-Keeps Sep = match_grammar-Keeps (
    cons whitespace_grammar-Keeps
      (cons (word_grammar-Keeps Sep) (cons whitespace_grammar-Keeps nil)))
