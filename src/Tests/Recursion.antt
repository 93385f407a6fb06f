-- ===== src/Tests/Recursion.antt =====
-- The theorem on `recurse` for a parser that calls itself behind a comma.
use noam.Base.{
  ℕ, suc, ◌≡◌, ◌==◌, refl, ap, List, [], ◌∷◌, drop, length, length-drop, none, some, if◌then◌else◌,
  Bool-cases, Option-cases, inl, inr, arith,
}
use noam.Combinators.Basic.{◌>>◌}
use noam.Combinators.Basic.Grammars.{then_grammar}
use noam.Combinators.Either.{either}
use noam.Combinators.Either.Grammars
use noam.Combinators.Either.Grammars.{either_grammar, either-Refines}
use noam.Combinators.Consumption.{Consumes}
use noam.Combinators.Recurse.{recurse}
use noam.Combinators.Recurse.Depth.{Refines-ext, >>-Refines_shorter, recurse-Refines}
use noam.Intrinsics.Words.{literal, literal_grammar, literal_constant-Refines}
use noam.Literal.{Literal, char_literal}
use noam.Literal.Match.{is_prefix-length-le}
use noam.Parser.{Parser}
use noam.Parser.Refines.{Grammar, Refines}
use noam.Result.{Empty, empty, Empty-default}
use noam.State.Prefix.{is_prefix}

-- Commas, and an x behind them.
abbrev comma_word : List Literal
comma_word = char_literal b',' ∷ []

abbrev x_word : List Literal
x_word = char_literal b'x' ∷ []

abbrev commas_of : Parser Empty → Parser Empty
commas_of self = either ((literal comma_word >> self) ∷ literal x_word ∷ [])

commas_grammar : Grammar Empty
commas_grammar [] = none
commas_grammar (c ∷ l) =
    let rest = commas_grammar l in
    if c == b',' then rest else if c == b'x' then some (empty, l) else none

commas_grammar_lem :
    (l : List ℕ)
    → either_grammar
        (then_grammar (literal_grammar empty comma_word) commas_grammar
          ∷ literal_grammar empty x_word
          ∷ [])
        l
      ≡ commas_grammar l
unfolding commas_grammar is_prefix
commas_grammar_lem [] = refl
commas_grammar_lem (c ∷ l) = elim (Option-cases (commas_grammar l)) [
  | inl e ↦ ground (arith, e)
  | inr (r, e) ↦ ground (arith, e)
]

comma-Consumes : Consumes (literal_grammar empty comma_word)
comma-Consumes l b rest h = elim (Bool-cases (is_prefix (b',' ∷ []) l)) [
  | inl t ↦
      let e : drop 1 l ≡ rest = cc (rw t at h) in
      omega (arith, is_prefix-length-le (b',' ∷ []) l t, length-drop 1 l, ap length e)
  | inr other ↦ cc (rw other at h)
]

commas_step :
    (k : ℕ) (p : Parser Empty)
    → Refines (λ m v. v) k p commas_grammar
    → Refines (λ m v. v) (suc k) (commas_of p) commas_grammar
commas_step k p h = Refines-ext _ commas_grammar commas_grammar_lem (
    either-Refines (
      Grammars.cons
        (>>-Refines_shorter (literal_constant-Refines empty comma_word (suc k)) comma-Consumes h)
        (Grammars.cons (literal_constant-Refines empty x_word (suc k)) Grammars.nil)))

recurse-Refines_example : Refines (λ m v. v) 10 (recurse 10 commas_of) commas_grammar
recurse-Refines_example = recurse-Refines commas_of commas_grammar 10 commas_step
