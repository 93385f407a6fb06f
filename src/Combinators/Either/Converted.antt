-- ===== src/Combinators/Either/Converted.antt =====
-- `either` of include/noam/combinators.hpp for parsers of values of different types, which are
-- converted to `Value`: what the initialisation of a result and the assignment to a value do.
pub mod Mapped
use noam.Base.{
  ◌≡◌, ◌∙◌, refl, sym, Bool, true, false, ◌||◌, List, [], ◌∷◌, Option, none, some, if◌then◌else◌,
  ◌>>=◌, Bool-cases, Option-cases, inl, inr, arith,
}
use noam.Combinators.Basic.{map}
use noam.Combinators.Either.{
  either, either2, either3, either4, any_always_good, assign_first, otherwise,
}
use noam.Combinators.Either.Same.{either_overloads}
use noam.Parser.{Parser, attempt, parse_assign_value}
use noam.Result.{Result, DefaultConstructible, null_result, good}
use noam.State
use noam.State.{State, Memory}

-- A parser, and the conversion of its values.
pub record Alternative (Value : Type 0) : Type 1 where
  pub value_type : Type 0
  pub parser : Parser value_type
  pub convert : value_type → Value

module _ {Value : Type 0} where
  -- `parse_assign_value(st, p, val)`
  unfoldable pub assign_converted :
      Alternative Value → Memory → State → Value → Option (Bool × State × Value)
  assign_converted p m st val = do
    r ← p.parser.parse m st
    if p.parser.always_good
        then some (true, r.state, p.convert r.value)
        else if good p.parser.always_good r
        then some (true, r.state, p.convert r.value)
        else some (false, st, val)

  -- `(parse_assign_value(st, p, val) || ...)`
  unfoldable pub assign_first_converted :
      List (Alternative Value) → Memory → State → Value → Option (Bool × State × Value)
  assign_first_converted [] m st val = some (false, st, val)
  assign_first_converted (p ∷ ps) m st val = do
    (found, st', val') ← assign_converted p m st val
    if found then some (true, st', val') else assign_first_converted ps m st' val'

  unfoldable pub any_converted_always_good : List (Alternative Value) → Bool
  any_converted_always_good [] = false
  any_converted_always_good (p ∷ ps) = p.parser.always_good || any_converted_always_good ps

  -- `{r.get_state(), std::move(r).get_value()}`
  abbrev pub converted : (p : Alternative Value) → Result p.value_type → Result Value
  converted p r = record { state = r.state; value = p.convert r.value }

module _ {Value : Type 0} ⦃d : DefaultConstructible Value⦄ where
  -- `either<Value>(p)`, where `p` produces another type.
  unfoldable pub either1_converted : Alternative Value → Parser Value
  either1_converted p = record {
    always_good = p.parser.always_good;
    parse = λ m st.
        if p.parser.always_good
        then (do r ← p.parser.parse m st; some (converted p r))
        else attempt p.parser m st (λ r. some (converted p r)) (some null_result);
  }

  unfoldable pub either2_converted : Alternative Value → Alternative Value → Parser Value
  either2_converted pa pb =
      let good = pa.parser.always_good || pb.parser.always_good in
      record {
        always_good = good;
        parse = λ m st.
            attempt pa.parser m st (λ r. some (converted pa r))
              (attempt pb.parser m st (λ r. some (converted pb r)) (otherwise good));
      }

  unfoldable pub either3_converted :
      Alternative Value → Alternative Value → Alternative Value → Parser Value
  either3_converted pa pb pc =
      let good = pa.parser.always_good || pb.parser.always_good || pc.parser.always_good in
      record {
        always_good = good;
        parse = λ m st.
            attempt pa.parser m st (λ r. some (converted pa r))
              (attempt pb.parser m st (λ r. some (converted pb r))
                (attempt pc.parser m st (λ r. some (converted pc r)) (otherwise good)));
      }

  unfoldable pub either4_converted :
      Alternative Value → Alternative Value → Alternative Value → Alternative Value → Parser Value
  either4_converted pa pb pc pd =
      let good =
        pa.parser.always_good || pb.parser.always_good || pc.parser.always_good
        || pd.parser.always_good in
      record {
        always_good = good;
        parse = λ m st.
            attempt pa.parser m st (λ r. some (converted pa r))
              (attempt pb.parser m st (λ r. some (converted pb r))
                (attempt pc.parser m st (λ r. some (converted pc r))
                  (attempt pd.parser m st (λ r. some (converted pd r)) (otherwise good))));
      }

  -- The variadic template. `either(parsers...)` is this one with the conversions to the common type.
  unfoldable pub either_converted : List (Alternative Value) → Parser Value
  either_converted ps =
      let good = any_converted_always_good ps in
      record {
        always_good = good;
        parse = λ m st. do
          (found, st', val) ← assign_first_converted ps m st d.default
          if good
              then some (record { state = st'; value = val })
              else if found
              then some (record { state = st'; value = val })
              else some null_result;
      }
