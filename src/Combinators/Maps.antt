-- ===== src/Combinators/Maps.antt =====
-- `parse_map` of include/noam/combinators.hpp. The map is a parameter: its type, its default value,
-- and `emplace`, which reads the memory where keys are views. `fuel` is the number of times that the condition of the loop may be evaluated.
pub mod Entries
pub mod Grammars
use noam.Base.{ℕ, zero, suc, false, not, List, [], ◌∷◌, Option, none, some, if◌then◌else◌, ◌>>=◌}
use noam.Combinators.Make.{no_more, next, make_separated}
use noam.Combinators.Match.{separator}
use noam.Combinators.Sequence.{open_parser, close_parser}
use noam.Literal.{Literal, char_literal}
use noam.Parser.{Parser, attempt, update_state}
use noam.Result.{Result, DefaultConstructible, Empty, null_result}
use noam.State.{State, Memory}

module _ {K V : Type 0} where
  instance abbrev pub pair-default :
      ⦃dk : DefaultConstructible K⦄ ⦃dv : DefaultConstructible V⦄ → DefaultConstructible (K × V)
  pair-default ⦃dk⦄ ⦃dv⦄ = record { default = (dk.default, dv.default) }

  -- `make<tuplet::pair, KeyValueSeparator>(key, val)`
  abbrev pub entry :
      ⦃dk : DefaultConstructible K⦄ ⦃dv : DefaultConstructible V⦄
      → Literal
      → Parser K
      → Parser V
      → Parser (K × V)
  entry ⦃dk⦄ ⦃dv⦄ KeyValueSeparator key val =
      make_separated KeyValueSeparator dk key (next dv val no_more) (λ k v. (k, v))

module _ {K V Map S : Type 0} (emplace : Map → K → V → Map) where
  -- `while (auto sep_result = sep.parse(st)) …`
  unfoldable pub map_loop :
      ℕ → Parser (K × V) → Parser S → Memory → State → Map → Option (State × Map)
  map_loop zero elem sep m st entries = none
  map_loop (suc fuel) elem sep m st entries =
      attempt sep m st
        (λ sep_result.
          attempt elem m sep_result.state
            (λ next.
              map_loop fuel elem sep m next.state (emplace entries next.value.0 next.value.1))
            (some (st, entries)))
        (some (st, entries))

  -- The first entry and the loop, or no entry.
  unfoldable pub map_from :
      ℕ → Parser (K × V) → Parser S → Memory → State → Map → Option (State × Map)
  map_from fuel elem sep m st entries =
      attempt elem m st
        (λ first.
          map_loop fuel elem sep m first.state (emplace entries first.value.0 first.value.1))
        (some (st, entries))

module _ {K V Map : Type 0} ⦃dk : DefaultConstructible K⦄ ⦃dv : DefaultConstructible V⦄
    ⦃d : DefaultConstructible Map⦄ (emplace : Memory → Map → K → V → Map) where
  -- `parse_map<Map, Opening, ElemSeparator, KeyValueSeparator, Closing>(key, val)`
  unfoldable pub parse_map :
      ℕ → Literal → Literal → Literal → Literal → Parser K → Parser V → Parser Map
  parse_map fuel Opening ElemSeparator KeyValueSeparator Closing key val = record {
    always_good = false;
    parse = λ m st. do
      opened ← (open_parser Opening).parse m st
      let (found, st') = update_state (open_parser Opening).always_good opened st
      if not found then some null_result else (do
        (st'', entries) ←
            map_from (emplace m) fuel (entry KeyValueSeparator key val)
              (separator (ElemSeparator ∷ [])) m st' d.default
        closed ← (close_parser Closing).parse m st''
        let (found', st''') = update_state (close_parser Closing).always_good closed st''
        some (if found' then record { state = st'''; value = entries } else null_result));
  }

  -- `parse_map<Map, Opening, Closing>(key, val)`
  abbrev pub parse_map_enclosed : ℕ → Literal → Literal → Parser K → Parser V → Parser Map
  parse_map_enclosed fuel Opening Closing key val =
      parse_map fuel Opening (char_literal b',') (char_literal b':') Closing key val

  -- `parse_map<Map>(key, val)`
  abbrev pub parse_map_default : ℕ → Parser K → Parser V → Parser Map
  parse_map_default fuel key val =
      parse_map fuel (char_literal b'{') (char_literal b',') (char_literal b':') (char_literal b'}')
        key val
