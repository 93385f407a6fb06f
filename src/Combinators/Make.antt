-- ===== src/Combinators/Make.antt =====
-- `make` of include/noam/combinators.hpp: a value constructed of the values of parsers.
pub mod Arguments
use noam.Base.{true, false, List, [], ◌∷◌, Option, none, some, if◌then◌else◌, ◌>>=◌}
use noam.Combinators.Match.{any_parser, join, separator}
use noam.Literal.{Literal}
use noam.Parser.{Parser, attempt, parse_assign}
use noam.Result.{Result, DefaultConstructible, null_result}
use noam.State.{State, Memory}

-- The parameter pack: parsers for the arguments of a constructor of the type `C`, which returns a
-- `T` in the end. Each value is default constructible, with its default.
pub data Parsers (T : Type 0) : Type 0 → Type 1 where
  no_more : Parsers T T
  next : {A C : Type 0} → DefaultConstructible A → Parser A → Parsers T C → Parsers T (A → C)

module _ {T : Type 0} where
  -- `(parse_assign(st, parsers, results) && ...)`: the state, and what is constructed of the
  -- results where all parsers succeed.
  unfoldable pub assign_each :
      {C : Type 0} → Parsers T C → C → Memory → State → Option (State × Option T)
  assign_each no_more make_value m st = some (st, some make_value)
  assign_each (next d p ps) make_value m st = do
    (found, st', r) ← parse_assign p m st (null_result ⦃d = d⦄)
    let others = assign_each ps (make_value r.value) m st'
    if found then others else some (st', none)

  -- `make<T>(parsers...)`
  unfoldable pub make : {C : Type 0} ⦃d : DefaultConstructible T⦄ → Parsers T C → C → Parser T
  make ps constructor = record {
    always_good = false;
    parse = λ m st. do
      (st', made) ← assign_each ps constructor m st
      some (elim made [ some value ↦ record { state = st'; value = value } | none ↦ null_result ]);
  }

  -- `make<T>(parsers...)`, where `T` is a template whose arguments are those of the constructor.
  unfoldable pub make_deduced :
      {C : Type 0} ⦃d : DefaultConstructible T⦄ → Parsers T C → C → Parser T
  make_deduced ps constructor = record {
    always_good = false;
    parse = λ m st. do
      (st', made) ← assign_each ps constructor m st
      some (elim made [ some value ↦ record { state = st'; value = value } | none ↦ null_result ]);
  }

  -- `make<T>()`
  abbrev pub make0 : ⦃d : DefaultConstructible T⦄ → Parser T
  make0 ⦃d⦄ = record {
    always_good = true;
    parse = λ m st. some (record { state = st; value = d.default });
  }

  -- `make<T>(p)`
  unfoldable pub make1 : {A : Type 0} ⦃d : DefaultConstructible T⦄ → Parser A → (A → T) → Parser T
  make1 p constructor = record {
    always_good = p.always_good;
    parse = λ m st.
        if p.always_good
        then (do
          res ← p.parse m st
          some (record { state = res.state; value = constructor res.value }))
        else attempt p m st
            (λ res. some (record { state = res.state; value = constructor res.value }))
            (some null_result);
  }

  -- `parsers::join {separator<sep>, rest}...`
  abbrev pub join_each : {C : Type 0} → Literal → Parsers T C → Parsers T C
  join_each sep no_more = no_more
  join_each sep (next d p ps) =
      next d (join ⦃d = d⦄ (any_parser (separator (sep ∷ [])) ∷ []) p) (join_each sep ps)

  -- `make<T, sep>(first, rest...)`
  abbrev pub make_separated :
      {A C : Type 0} ⦃d : DefaultConstructible T⦄
      → Literal
      → DefaultConstructible A
      → Parser A
      → Parsers T C
      → (A → C)
      → Parser T
  make_separated sep d first rest constructor = make (next d first (join_each sep rest)) constructor
