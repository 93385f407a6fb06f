-- ===== src/Combinators/Sequence.antt =====
-- `sequence` of include/noam/combinators.hpp. `fuel` is the number of times that the condition of
-- its loop may be evaluated.
pub mod Words
pub mod Separated
pub mod Delimited
pub mod Grammars
pub mod Agreement
pub mod All
use noam.Base.{
  ℕ, zero, suc, Bool, true, false, not, List, [], ◌∷◌, ◌++◌, Option, none, some, if◌then◌else◌,
  ◌>>=◌,
}
use noam.Combinators.Match.{match, any_parser, separator}
use noam.Intrinsics.Chars.{whitespace}
use noam.Intrinsics.Words.{literal}
use noam.Literal.{Literal, char_literal}
use noam.Parser.{Parser, attempt, update_state}
use noam.Result.{Result, DefaultConstructible, Empty, Empty-default, null_result}
use noam.State.{State, Memory}

instance abbrev pub List-default {ℓ} : {A : Type ℓ} → DefaultConstructible (List A)
List-default = record { default = [] }

module _ {ℓ κ} {A : Type ℓ} {S : Type κ} where
  -- `while (auto sep_ = sep.parse(st)) …`: `st` and `value` as the loop leaves them.
  unfoldable pub sequence_loop :
      ℕ → Parser A → Parser S → Memory → State → List A → Option (State × List A)
  sequence_loop zero elem sep m st value = none
  sequence_loop (suc fuel) elem sep m st value =
      attempt sep m st
        (λ sep_.
          attempt elem m sep_.state
            (λ next. sequence_loop fuel elem sep m next.state (value ++ (next.value ∷ [])))
            (some (st, value)))
        (some (st, value))

  -- The first element and the loop, or no element.
  unfoldable pub sequence_from : ℕ → Parser A → Parser S → Memory → State → Option (State × List A)
  sequence_from fuel elem sep m st =
      attempt elem m st (λ first. sequence_loop fuel elem sep m first.state (first.value ∷ []))
        (some (st, []))

  -- `sequence(elem, sep)`
  unfoldable pub sequence : ℕ → Parser A → Parser S → Parser (List A)
  sequence fuel elem sep = record {
    always_good = true;
    parse = λ m st. do
      (st', value) ← sequence_from fuel elem sep m st
      some (record { state = st'; value = value });
  }

-- `match {literal<Opening>, whitespace}` and `match {whitespace, literal<Closing>}`
abbrev pub open_parser : Literal → Parser Empty
open_parser Opening = match (any_parser (literal (Opening ∷ [])) ∷ any_parser whitespace ∷ [])

abbrev pub close_parser : Literal → Parser Empty
close_parser Closing = match (any_parser whitespace ∷ any_parser (literal (Closing ∷ [])) ∷ [])

module _ {ℓ} {A : Type ℓ} where
  -- `sequence<Sep>(elem)`
  abbrev pub sequence_separated : ℕ → Literal → Parser A → Parser (List A)
  sequence_separated fuel Sep elem = sequence fuel elem (separator (Sep ∷ []))

  -- `sequence<Opening, Separator, Closing>(elem)`
  unfoldable pub sequence_delimited : ℕ → Literal → Literal → Literal → Parser A → Parser (List A)
  sequence_delimited fuel Opening Separator Closing elem = record {
    always_good = false;
    parse = λ m st. do
      opened ← (open_parser Opening).parse m st
      let (found, st') = update_state (open_parser Opening).always_good opened st
      if not found then some null_result else (do
        (st'', value) ← sequence_from fuel elem (separator (Separator ∷ [])) m st'
        closed ← (close_parser Closing).parse m st''
        let (found', st''') = update_state (close_parser Closing).always_good closed st''
        some (if found' then record { state = st'''; value = value } else null_result));
  }

  -- `sequence<Opening, Closing>(elem)`
  abbrev pub sequence_enclosed : ℕ → Literal → Literal → Parser A → Parser (List A)
  sequence_enclosed fuel Opening Closing elem =
      sequence_delimited fuel Opening (char_literal b',') Closing elem

  -- `sequence(elem)`
  abbrev pub sequence_of : ℕ → Parser A → Parser (List A)
  sequence_of fuel elem = sequence_separated fuel (char_literal b',') elem
