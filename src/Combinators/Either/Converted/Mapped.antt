-- ===== src/Combinators/Either/Converted/Mapped.antt =====
-- The conversions of `either` of include/noam/combinators.hpp against `map`.
use noam.Base.{ℕ, ◌≡◌, ◌∙◌, refl, sym, List, [], ◌∷◌, Option-cases, inl, inr, arith}
use noam.Combinators.Basic.{map}
use noam.Combinators.Either.{either, either2, either3, either4, any_always_good, assign_first}
use noam.Combinators.Either.Converted.{
  Alternative, assign_converted, assign_first_converted, any_converted_always_good,
  either1_converted, either2_converted, either3_converted, either4_converted, either_converted,
}
use noam.Combinators.Either.Grammars.{AllRefine, either_grammar, either-Refines}
use noam.Combinators.Either.Same.{either_overloads}
use noam.Parser.{Parser, parse_assign_value}
use noam.Parser.Refines.{Grammar, Refines}
use noam.Result.{DefaultConstructible}
use noam.State.{State, Memory}

module _ {Value : Type 0} ⦃d : DefaultConstructible Value⦄ where
  -- The parser with its values converted.
  abbrev pub mapped : Alternative Value → Parser Value
  mapped p = map p.convert p.parser

  abbrev pub all_mapped : List (Alternative Value) → List (Parser Value)
  all_mapped [] = []
  all_mapped (p ∷ ps) = mapped p ∷ all_mapped ps

  any_converted-mapped :
      (ps : List (Alternative Value))
      → any_converted_always_good ps ≡ any_always_good (all_mapped ps)
  unfolding any_converted_always_good any_always_good map
  any_converted-mapped [] = refl
  any_converted-mapped (p ∷ ps) = rw (any_converted-mapped ps)

  assign_converted-mapped :
      (p : Alternative Value) (m : Memory) (st : State) (val : Value)
      → assign_converted p m st val ≡ parse_assign_value (mapped p) m st val
  unfolding assign_converted parse_assign_value map
  assign_converted-mapped p m st val = ground arith

  assign_first_converted-mapped :
      (ps : List (Alternative Value)) (m : Memory) (st : State) (val : Value)
      → assign_first_converted ps m st val ≡ assign_first (all_mapped ps) m st val
  unfolding assign_first_converted assign_first
  assign_first_converted-mapped [] m st val = refl
  assign_first_converted-mapped (p ∷ ps) m st val =
      rw (assign_converted-mapped p m st val)
        (elim (Option-cases (parse_assign_value (mapped p) m st val)) [
          | inl e ↦ rw e refl
          | inr ((found, st', val'), e) ↦ rw (e, assign_first_converted-mapped ps m st' val') refl
        ])

  variadic-mapped :
      (ps : List (Alternative Value)) (m : Memory) (st : State)
      → (either_converted ps).parse m st ≡ (either (all_mapped ps)).parse m st
  unfolding either_converted either
  variadic-mapped ps m st =
      rw (any_converted-mapped ps, assign_first_converted-mapped ps m st d.default) refl

  either1_converted-mapped :
      (p : Alternative Value) (m : Memory) (st : State)
      → (either1_converted p).parse m st ≡ (either (mapped p ∷ [])).parse m st
  unfolding either1_converted map either assign_first any_always_good parse_assign_value
  either1_converted-mapped p m st = ground arith

  either2_converted-mapped :
      (pa pb : Alternative Value) (m : Memory) (st : State)
      → (either2_converted pa pb).parse m st ≡ (either2 (mapped pa) (mapped pb)).parse m st
  unfolding either2_converted map either2
  either2_converted-mapped pa pb m st = ground arith

  either3_converted-mapped :
      (pa pb pc : Alternative Value) (m : Memory) (st : State)
      → (either3_converted pa pb pc).parse m st
        ≡ (either3 (mapped pa) (mapped pb) (mapped pc)).parse m st
  unfolding either3_converted map either3
  either3_converted-mapped pa pb pc m st = ground arith

  either4_converted-mapped :
      (pa pb pc pd : Alternative Value) (m : Memory) (st : State)
      → (either4_converted pa pb pc pd).parse m st
        ≡ (either4 (mapped pa) (mapped pb) (mapped pc) (mapped pd)).parse m st
  unfolding either4_converted map either4
  either4_converted-mapped pa pb pc pd m st = ground arith

  -- `either` converts the values of its alternatives as it would if each parser were mapped to the
  -- common type first, on every state: the variadic template, and its overloads for one, two, three
  -- and four parsers, which do what the variadic template does.
  pub either_converted-mapped :
      (ps : List (Alternative Value)) (pa pb pc pd : Alternative Value) (m : Memory) (st : State)
      → ((either_converted ps).parse m st ≡ (either (all_mapped ps)).parse m st)
        × ((either1_converted pa).parse m st ≡ (either_converted (pa ∷ [])).parse m st)
        × ((either2_converted pa pb).parse m st ≡ (either_converted (pa ∷ pb ∷ [])).parse m st)
        × ((either3_converted pa pb pc).parse m st
            ≡ (either_converted (pa ∷ pb ∷ pc ∷ [])).parse m st)
        × ((either4_converted pa pb pc pd).parse m st
            ≡ (either_converted (pa ∷ pb ∷ pc ∷ pd ∷ [])).parse m st)
  either_converted-mapped ps pa pb pc pd m st =
      let (two, three, four) =
        either_overloads (mapped pa) (mapped pb) (mapped pc) (mapped pd) m st in
      (
        variadic-mapped ps m st,
        either1_converted-mapped pa m st ∙ sym (variadic-mapped (pa ∷ []) m st),
        either2_converted-mapped pa pb m st ∙ two ∙ sym (variadic-mapped (pa ∷ pb ∷ []) m st),
        either3_converted-mapped pa pb pc m st
            ∙ three
            ∙ sym (variadic-mapped (pa ∷ pb ∷ pc ∷ []) m st),
        either4_converted-mapped pa pb pc pd m st
            ∙ four
            ∙ sym (variadic-mapped (pa ∷ pb ∷ pc ∷ pd ∷ []) m st),
      )

  -- `either` of alternatives implements the ordered choice of the grammars of the mapped parsers.
  pub either_converted-Refines :
      {B : Type 0} {abs : Memory → Value → B} {n : ℕ} {gs : List (Grammar B)}
      (ps : List (Alternative Value))
      → AllRefine abs n (all_mapped ps) gs
      → Refines abs n (either_converted ps) (either_grammar gs)
  unfolding either_converted either
  either_converted-Refines ps hs = record {
    returns = λ m st v l.
        rw (any_converted-mapped ps, assign_first_converted-mapped ps m st d.default)
          ((either-Refines hs).returns m st v l);
  }
