-- ===== src/Combinators/Sequence/Agreement.antt =====
-- What the grammars of sequences and of entries take of a list depends on what their elements take
-- of the lists that are shorter.
use noam.Base.{ℕ, zero, suc, ◌<◌, ◌≡◌, refl, List, length, arith, Option-cases, inl, inr}
use noam.Combinators.Consumption.{Consumes, Keeps}
use noam.Combinators.Sequence.Grammars.{following, separated, delimited_grammar}
use noam.Combinators.Sequence.Words.{
  open_grammar, separator_grammar, open_grammar-Consumes, separator_grammar-Keeps,
}
use noam.Literal.{Literal, size}
use noam.Parser.Refines.{Grammar}
use noam.Result.{Empty}

-- The grammars take the same of all lists of fewer than `n` elements.
abbrev pub Agree : {B : Type 0} → ℕ → Grammar B → Grammar B → Type 0
Agree n g g' = (l : List ℕ) → length l < n → g l ≡ g' l

module _ {B : Type 0} (n : ℕ) (g g' : Grammar B) (sep : Grammar Empty) (a : Agree n g g')
    (c : Consumes g) (k : Keeps sep) where
  following-Agree : (rounds : ℕ) → Agree n (following g sep rounds) (following g' sep rounds)
  following-Agree zero l fits = refl
  following-Agree (suc rounds) l fits = elim (Option-cases (sep l)) [
    | inl e ↦ rw (following, e)
    | inr ((s, l1), e) ↦
        let shorter = k l s l1 e in
        let e1 = a l1 (omega (arith, shorter)) in
        elim (Option-cases (g l1)) [
          | inl e2 ↦ rw (following, e, ← e1, e2)
          | inr ((b, l2), e2) ↦ rw (
            following,
            e,
            ← e1,
            e2,
            following-Agree rounds l2 (omega (arith, shorter, c l1 b l2 e2)),
          )
        ]
  ]

  separated-Agree : Agree n (separated g sep) (separated g' sep)
  separated-Agree l fits =
      let e1 = a l fits in
      elim (Option-cases (g l)) [
        | inl e ↦ rw (separated, ← e1, e)
        | inr ((b, l1), e) ↦
            rw (separated, ← e1, e, following-Agree (length l1) l1 (omega (arith, c l b l1 e)))
      ]

pub delimited_grammar-Agree :
    {B : Type 0} (n : ℕ) (g g' : Grammar B) (Opening Sep Closing : Literal)
    → Agree n g g'
    → Consumes g
    → 0 < size Opening
    → Agree
        (suc n)
        (delimited_grammar Opening Sep Closing g)
        (delimited_grammar Opening Sep Closing g')
delimited_grammar-Agree n g g' Opening Sep Closing a c positive l fits =
    elim (Option-cases (open_grammar Opening l)) [
      | inl e ↦ rw (delimited_grammar, e)
      | inr ((s, l1), e) ↦
          let shorter = open_grammar-Consumes Opening positive l s l1 e in
          rw (
            delimited_grammar,
            e,
            separated-Agree n g g' (separator_grammar Sep) a c (separator_grammar-Keeps Sep) l1
                (omega (arith, shorter)),
          )
    ]
