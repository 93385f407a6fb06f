-- ===== src/Combinators/Either/Same.antt =====
-- The overloads of `either` of include/noam/combinators.hpp for two, three and four parsers against
-- the variadic template.
use noam.Base.{[], ◌∷◌, ◌≡◌, arith}
use noam.Combinators.Either.{either2, either3, either4, either, any_always_good, assign_first}
use noam.Parser.{Parser, parse_assign_value}
use noam.Result.{DefaultConstructible}
use noam.State.{State, Memory}

module _ {A : Type 0} ⦃d : DefaultConstructible A⦄ where
  either2-either_lem :
      (pa pb : Parser A) (m : Memory) (st : State)
      → (either2 pa pb).parse m st ≡ (either (pa ∷ pb ∷ [])).parse m st
  unfolding either2 either assign_first any_always_good parse_assign_value
  either2-either_lem pa pb m st = ground arith

  either3-either_lem :
      (pa pb pc : Parser A) (m : Memory) (st : State)
      → (either3 pa pb pc).parse m st ≡ (either (pa ∷ pb ∷ pc ∷ [])).parse m st
  unfolding either3 either assign_first any_always_good parse_assign_value
  either3-either_lem pa pb pc m st = ground arith

  either4-either_lem :
      (pa pb pc pd : Parser A) (m : Memory) (st : State)
      → (either4 pa pb pc pd).parse m st ≡ (either (pa ∷ pb ∷ pc ∷ pd ∷ [])).parse m st
  unfolding either4 either assign_first any_always_good parse_assign_value
  either4-either_lem pa pb pc pd m st = ground arith

  -- The overloads of `either` for two, three and four parsers do the same on every state as the
  -- variadic template.
  pub either_overloads :
      (pa pb pc pd : Parser A) (m : Memory) (st : State)
      → ((either2 pa pb).parse m st ≡ (either (pa ∷ pb ∷ [])).parse m st)
        × ((either3 pa pb pc).parse m st ≡ (either (pa ∷ pb ∷ pc ∷ [])).parse m st)
        × ((either4 pa pb pc pd).parse m st ≡ (either (pa ∷ pb ∷ pc ∷ pd ∷ [])).parse m st)
  either_overloads pa pb pc pd m st = (
    either2-either_lem pa pb m st,
    either3-either_lem pa pb pc m st,
    either4-either_lem pa pb pc pd m st,
  )
