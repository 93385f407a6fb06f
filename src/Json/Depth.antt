-- ===== src/Json/Depth.antt =====
-- The grammar of values does not depend on the depth where it is enough for the input.
use noam.Base.{ℕ, zero, suc, ◌<◌, ◌≡◌, refl, List, [], ◌∷◌, length, arith, Option-cases, inl, inr}
use noam.Combinators.Basic.Grammars.{map_grammar}
use noam.Combinators.Consumption
use noam.Combinators.Consumption.{Consumes, Keeps, join_grammar-Keeps, match_grammar-Keeps}
use noam.Combinators.Either.Grammars.{either_grammar}
use noam.Combinators.Maps.Grammars.{entry_grammar, entry_grammar-Consumes}
use noam.Combinators.Match.Grammars.{match_grammar}
use noam.Combinators.Sequence.Agreement.{Agree, delimited_grammar-Agree}
use noam.Combinators.Sequence.Words.{separator_grammar, separator_grammar-Keeps}
use noam.Intrinsics.Views.Quoted.{quoted}
use noam.Json.Grammars.{elements_grammar, entries_grammar, emplaced, value_grammars, value_grammar}
use noam.Intrinsics.Shorter.{quoted-Consumes}
use noam.Json.Shorter.{value_grammar-Consumes}
use noam.Json.Value.{JsonValue, values}
use noam.Literal.{Literal, char_literal}
use noam.Parser.Refines.{Grammar}

-- The grammars take the same of the list, each in its place.
data AllSame {B : Type 0} (l : List ℕ) : List (Grammar B) → List (Grammar B) → Type 0 where
  nil : AllSame l [] []
  cons :
      {g g' : Grammar B} {gs gs' : List (Grammar B)}
      → g l ≡ g' l
      → AllSame l gs gs'
      → AllSame l (g ∷ gs) (g' ∷ gs')

either_grammar-same :
    {B : Type 0} {l : List ℕ} {gs gs' : List (Grammar B)}
    → AllSame l gs gs'
    → either_grammar gs l ≡ either_grammar gs' l
either_grammar-same nil = refl
either_grammar-same (cons e es) = rw (e, either_grammar-same es)

map_grammar-same :
    {A B : Type 0} (f : A → B) (g g' : Grammar A) (l : List ℕ)
    → g l ≡ g' l
    → map_grammar f g l ≡ map_grammar f g' l
map_grammar-same f g g' l e = rw e

entry_grammar-Agree :
    {K V : Type 0} (n : ℕ) (KeyValue : Literal) (gk : Grammar K) (gv gv' : Grammar V)
    → Agree n gv gv'
    → Consumes gk
    → Agree n (entry_grammar KeyValue gk gv) (entry_grammar KeyValue gk gv')
entry_grammar-Agree n KeyValue gk gv gv' a c l fits = elim (Option-cases (gk l)) [
  | inl e ↦ rw e
  | inr ((key, l1), e) ↦
      rw e (elim (Option-cases (match_grammar (separator_grammar KeyValue ∷ []) l1)) [
        | inl e1 ↦ rw e1
        | inr ((s, l2), e1) ↦
            let kept =
              match_grammar-Keeps
                (Consumption.AllKeep.cons (separator_grammar-Keeps KeyValue)
                  Consumption.AllKeep.nil)
                l1 s l2 e1 in
            rw (e1, a l2 (omega (arith, kept, c l key l1 e)))
      ])
]

-- The grammar of values takes the same of an input at all depths above its length.
pub value_grammar-depth :
    {N : Type 0} (number : Grammar N)
    → Consumes number
    → (k k' : ℕ) (l : List ℕ) → length l < k
    → length l < k'
    → value_grammar number k l ≡ value_grammar number k' l
value_grammar-depth {N} number takes zero k' l fits fits' = absurd (omega arith)
value_grammar-depth {N} number takes (suc k) zero l fits fits' = absurd (omega arith)
value_grammar-depth {N} number takes (suc k) (suc k') l fits fits' =
    let n = length l in
    let inner = value_grammar number k in
    let inner' = value_grammar number k' in
    let a : Agree n inner inner' = λ l' less.
      value_grammar-depth number takes k k' l' (omega (arith, less)) (omega (arith, less)) in
    let c = value_grammar-Consumes number takes k in
    let same_elements : elements_grammar inner l ≡ elements_grammar inner' l =
      delimited_grammar-Agree n inner inner' (char_literal b'[') (char_literal b',')
        (char_literal b']') a c (omega arith) l (omega arith) in
    let same_entries : entries_grammar inner l ≡ entries_grammar inner' l =
      delimited_grammar-Agree n (entry_grammar (char_literal b':') quoted inner)
        (entry_grammar (char_literal b':') quoted inner') (char_literal b'{') (char_literal b',')
        (char_literal b'}')
        (entry_grammar-Agree n (char_literal b':') quoted inner inner' a quoted-Consumes)
        (entry_grammar-Consumes (char_literal b':') quoted inner quoted-Consumes
          (Consumption.Consumes-Keeps inner c))
        (omega arith) l (omega arith) in
    let same : AllSame l (value_grammars number inner) (value_grammars number inner') = cons refl (
      cons refl (
        cons refl (
          cons refl (
            cons
              (map_grammar-same (λ vs. JsonValue.array (values vs)) (elements_grammar inner)
                (elements_grammar inner') l same_elements)
              (cons
                (map_grammar-same JsonValue.object (map_grammar emplaced (entries_grammar inner))
                  (map_grammar emplaced (entries_grammar inner')) l
                  (map_grammar-same emplaced (entries_grammar inner) (entries_grammar inner') l
                    same_entries))
                nil))))) in
    either_grammar-same same
