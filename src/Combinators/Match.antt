-- ===== src/Combinators/Match.antt =====
-- `match` and `join` of include/noam/util/combinator_types.hpp, and `separator` of
-- include/noam/intrinsics.hpp.
pub mod Grammars
use noam.Base.{Bool, true, false, ◌&&◌, ℕ, List, [], ◌∷◌, Option, none, some, if◌then◌else◌, ◌>>=◌}
use noam.Intrinsics.Chars.{whitespace}
use noam.Intrinsics.Words.{literal}
use noam.Literal.{Literal}
use noam.Parser.{Parser, attempt, update_state}
use noam.Result.{Result, DefaultConstructible, Empty, empty, Empty-default, good, null_result}
use noam.State.{State, Memory}

-- A parser of any value, as `match` takes them.
pub record AnyParser : Type 1 where
  pub Value : Type 0
  pub parser : Parser Value

abbrev pub any_parser : {A : Type 0} → Parser A → AnyParser
any_parser {A} p = record { Value = A; parser = p }

-- `(parser_always_good_v<Parsers> && ...)`
unfoldable pub all_always_good : List AnyParser → Bool
all_always_good [] = true
all_always_good (p ∷ ps) = p.parser.always_good && all_always_good ps

-- `(update_state(parser.parse(st), st), ...)`
unfoldable pub update_each : List AnyParser → Memory → State → Option State
update_each [] m st = some st
update_each (p ∷ ps) m st = do
  r ← p.parser.parse m st
  update_each ps m (update_state p.parser.always_good r st).1

-- `(update_state(parser.parse(st), st) && ...)`
unfoldable pub update_while : List AnyParser → Memory → State → Option (Bool × State)
update_while [] m st = some (true, st)
update_while (p ∷ ps) m st = do
  r ← p.parser.parse m st
  let (updated, st') = update_state p.parser.always_good r st
  if updated then update_while ps m st' else some (false, st')

unfoldable pub match : List AnyParser → Parser Empty
match ps = record {
  always_good = all_always_good ps;
  parse = λ m st.
      if all_always_good ps
      then (do st' ← update_each ps m st; some (record { state = st'; value = empty }))
      else (do
        (matched, st') ← update_while ps m st
        some (if matched then record { state = st'; value = empty } else null_result));
}

-- `join` of the parsers `ps` and a last one.
unfoldable pub join :
    {A : Type 0} ⦃d : DefaultConstructible A⦄ → List AnyParser → Parser A → Parser A
join ps p = record {
  always_good = all_always_good ps && p.always_good;
  parse = λ m st.
      if all_always_good ps
      then (do r ← (match ps).parse m st; p.parse m r.state)
      else attempt (match ps) m st (λ r. p.parse m r.state) (some null_result);
}

-- `separator<sep...>`
abbrev pub separator : List Literal → Parser Empty
separator sep =
    match (any_parser whitespace ∷ any_parser (literal sep) ∷ any_parser whitespace ∷ [])

-- `join(parser)`
abbrev pub join1 {ℓ} : {A : Type ℓ} → Parser A → Parser A
join1 parser = parser
