-- ===== src/Combinators/Either.antt =====
-- `either` of include/noam/combinators.hpp: the first parser that succeeds. The values of the
-- alternatives have one type here; Converted has alternatives whose values are converted to `Value`.
pub mod Same
pub mod Boxed
pub mod Converted
pub mod Grammars
use noam.Base.{Bool, true, false, ◌||◌, List, [], ◌∷◌, Option, none, some, if◌then◌else◌, ◌>>=◌}
use noam.Parser.{Parser, attempt, parse_assign_value}
use noam.Result.{Result, DefaultConstructible, null_result}
use noam.State.{State, Memory}

module _ {ℓ} {A : Type ℓ} where
  unfoldable pub any_always_good : List (Parser A) → Bool
  any_always_good [] = false
  any_always_good (p ∷ ps) = p.always_good || any_always_good ps

  -- `(parse_assign_value(st, p, val) || ...)`
  unfoldable pub assign_first : List (Parser A) → Memory → State → A → Option (Bool × State × A)
  assign_first [] m st val = some (false, st, val)
  assign_first (p ∷ ps) m st val = do
    (found, st', val') ← parse_assign_value p m st val
    if found then some (true, st', val') else assign_first ps m st' val'

module _ {ℓ} {A : Type ℓ} ⦃d : DefaultConstructible A⦄ where
  -- `either<Value>()`
  abbrev pub either0 : Parser A
  either0 = record { always_good = false; parse = λ m st. some null_result }

  -- `either<Value>(p)`, where `p` produces a `Value`.
  abbrev pub either1 : Parser A → Parser A
  either1 p = p

  -- What stands behind the last alternative. Where an alternative is always good, nothing does:
  -- `none` is the end of a function that should return a value.
  abbrev pub otherwise : Bool → Option (Result A)
  otherwise good = if good then none else some null_result

  -- The overloads for two, three and four parsers.
  unfoldable pub either2 : Parser A → Parser A → Parser A
  either2 pa pb =
      let good = pa.always_good || pb.always_good in
      record {
        always_good = good;
        parse = λ m st.
            attempt pa m st (λ r. some (record { state = r.state; value = r.value }))
              (attempt pb m st (λ r. some (record { state = r.state; value = r.value }))
                (otherwise good));
      }

  unfoldable pub either3 : Parser A → Parser A → Parser A → Parser A
  either3 pa pb pc =
      let good = pa.always_good || pb.always_good || pc.always_good in
      record {
        always_good = good;
        parse = λ m st.
            attempt pa m st (λ r. some (record { state = r.state; value = r.value }))
              (attempt pb m st (λ r. some (record { state = r.state; value = r.value }))
                (attempt pc m st (λ r. some (record { state = r.state; value = r.value }))
                  (otherwise good)));
      }

  unfoldable pub either4 : Parser A → Parser A → Parser A → Parser A → Parser A
  either4 pa pb pc pd =
      let good = pa.always_good || pb.always_good || pc.always_good || pd.always_good in
      record {
        always_good = good;
        parse = λ m st.
            attempt pa m st (λ r. some (record { state = r.state; value = r.value }))
              (attempt pb m st (λ r. some (record { state = r.state; value = r.value }))
                (attempt pc m st (λ r. some (record { state = r.state; value = r.value }))
                  (attempt pd m st (λ r. some (record { state = r.state; value = r.value }))
                    (otherwise good))));
      }

  -- The variadic template.
  unfoldable pub either : List (Parser A) → Parser A
  either ps =
      let good = any_always_good ps in
      record {
        always_good = good;
        parse = λ m st. do
          (found, st', val) ← assign_first ps m st d.default
          if good
              then some (record { state = st'; value = val })
              else if found
              then some (record { state = st'; value = val })
              else some null_result;
      }
