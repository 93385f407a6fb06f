-- ===== src/Combinators/Sequence/Grammars.antt =====
-- `sequence<Opening, Separator, Closing>` of include/noam/combinators.hpp implements a grammar.
use noam.Base.{
  ℕ, zero, suc, ◌-◌, ◌≤◌, ◌<◌, ◌≡◌, refl, ap, sym, List, [], ◌∷◌, map, length, Option, none, some,
  ◌>>=◌, arith, Option-cases, inl, inr,
}
use noam.Combinators.Consumption.{Consumes, Keeps, bind-some}
use noam.Combinators.Sequence.{sequence_delimited, List-default}
use noam.Combinators.Sequence.Delimited.{Delimited, sequence_delimited-Delimited_behind}
use noam.Combinators.Sequence.Separated.{Following, Separated}
use noam.Combinators.Sequence.Words.{
  open_grammar, close_grammar, separator_grammar, open_grammar-Consumes, close_grammar-Keeps,
  separator_grammar-Keeps,
}
use noam.Literal.{Literal, size}
use noam.Parser.{Parser}
use noam.Parser.Refines.{Grammar, Refines}
use noam.Result.{Empty, empty}
use noam.State.{Memory}
use noam.State.View.{view, length-chars}

module _ {B : Type 0} (g : Grammar B) (sep : Grammar Empty) where
  -- At most `rounds` elements, each behind a separator.
  abbrev pub following : ℕ → Grammar (List B)
  following zero l = some ([], l)
  following (suc rounds) l = elim (do (_, l') ← sep l; g l') [
    | none ↦ some ([], l)
    | some (b, l') ↦ do (bs, rest) ← following rounds l'; some (b ∷ bs, rest)
  ]

  -- None, or a first one and those that follow.
  abbrev pub separated : Grammar (List B)
  separated l = elim (g l) [
    | none ↦ some ([], l)
    | some (b, l') ↦ do (bs, rest) ← following (length l') l'; some (b ∷ bs, rest)
  ]

  module _ (c : Consumes g) (k : Keeps sep) where
    following-Following :
        (rounds : ℕ) {l rest : List ℕ} {bs : List B}
        → Following g sep l bs rest
        → length l ≤ rounds
        → following rounds l ≡ some (bs, rest)
    following-Following zero (Following.no_separator e) fits = refl
    following-Following zero (Following.no_element e e') fits = refl
    following-Following zero (Following.another e e' more) fits =
        absurd (omega (arith, k _ _ _ e, c _ _ _ e'))
    following-Following (suc rounds) (Following.no_separator e) fits = rw (following, e)
    following-Following (suc rounds) (Following.no_element e e') fits = rw (following, e, e')
    following-Following (suc rounds) (Following.another {l''} e e' more) fits =
        rw
          (following, e, e', following-Following rounds more (omega (arith, k _ _ _ e, c _ _ _ e')))

    separated-Separated :
        {l rest : List ℕ} {bs : List B} → Separated g sep l bs rest → separated l ≡ some (bs, rest)
    separated-Separated (Separated.nothing e) = rw (separated, e)
    separated-Separated (Separated.elements {l'} e more) =
        rw (separated, e, following-Following (length l') more (omega arith))

    following-Keeps : (rounds : ℕ) → Keeps (following rounds)
    following-Keeps zero l bs rest h = let same : l ≡ rest = cc h in omega (arith, ap length same)
    following-Keeps (suc rounds) l bs rest h = elim (Option-cases (sep l >>= λ (_, l'). g l')) [
      | inl e ↦ let same : l ≡ rest = cc (rw (following, e) at h) in omega (arith, ap length same)
      | inr ((b, l'), e) ↦
          let ((_, l1), e1, e2) = bind-some (sep l) (λ (_, l'). g l') (b, l') e in
          let ((bs', rest'), e3, e4) =
            bind-some (following rounds l') (λ (bs, rest). some (b ∷ bs, rest)) (bs, rest)
              (rw (following, e) at h) in
          let same : rest' ≡ rest = cc in
          omega
            (arith, k _ _ _ e1, c _ _ _ e2, following-Keeps rounds l' bs' rest' e3, ap length same)
    ]

    separated-Keeps : Keeps separated
    separated-Keeps l bs rest h = elim (Option-cases (g l)) [
      | inl e ↦ let same : l ≡ rest = cc (rw (separated, e) at h) in omega (arith, ap length same)
      | inr ((b, l'), e) ↦
          let ((bs', rest'), e3, e4) =
            bind-some (following (length l') l') (λ (bs, rest). some (b ∷ bs, rest)) (bs, rest)
              (rw (separated, e) at h) in
          let same : rest' ≡ rest = cc in
          omega (arith, c _ _ _ e, following-Keeps (length l') l' bs' rest' e3, ap length same)
    ]

module _ {B : Type 0} (Opening Sep Closing : Literal) (g : Grammar B) where
  -- The opening literal, the elements, and the closing literal, with whitespace around.
  abbrev pub delimited_grammar : Grammar (List B)
  delimited_grammar l = do
    (_, l') ← open_grammar Opening l
    (bs, l'') ← separated g (separator_grammar Sep) l'
    (_, rest) ← close_grammar Closing l''
    some (bs, rest)

  module _ (c : Consumes g) where
    delimited_grammar-Delimited :
        {l : List ℕ} {said : Option (List B × List ℕ)}
        → Delimited Opening Sep Closing g l said
        → said ≡ delimited_grammar l
    delimited_grammar-Delimited (Delimited.unopened e) = rw e
    delimited_grammar-Delimited (Delimited.unclosed e found e') =
        rw (
          e,
          separated-Separated g (separator_grammar Sep) c (separator_grammar-Keeps Sep) found,
          e',
        )
    delimited_grammar-Delimited (Delimited.closed e found e') =
        rw (
          e,
          separated-Separated g (separator_grammar Sep) c (separator_grammar-Keeps Sep) found,
          e',
        )

    pub delimited_grammar-closed :
        (l : List ℕ) {l' l'' rest : List ℕ} {bs : List B}
        → open_grammar Opening l ≡ some (empty, l')
        → Separated g (separator_grammar Sep) l' bs l''
        → close_grammar Closing l'' ≡ some (empty, rest)
        → delimited_grammar l ≡ some (bs, rest)
    delimited_grammar-closed l e found e' =
        sym (delimited_grammar-Delimited {l = l} (Delimited.closed e found e'))

    pub delimited_grammar-Consumes : 0 < size Opening → Consumes delimited_grammar
    delimited_grammar-Consumes positive l bs rest h =
        let ((_, l1), e1, h1) =
          bind-some (open_grammar Opening l)
            (λ (_, l'). do
              (bs, l'') ← separated g (separator_grammar Sep) l'
              (_, rest) ← close_grammar Closing l''
              some (bs, rest))
            (bs, rest) h in
        let ((bs', l2), e2, h2) =
          bind-some (separated g (separator_grammar Sep) l1)
            (λ (bs, l''). do (_, rest) ← close_grammar Closing l''; some (bs, rest)) (bs, rest)
            h1 in
        let ((_, l3), e3, h3) =
          bind-some (close_grammar Closing l2) (λ (_, rest). some (bs', rest)) (bs, rest) h2 in
        let same : l3 ≡ rest = cc in
        omega (
          arith,
          open_grammar-Consumes Opening positive _ _ _ e1,
          separated-Keeps g (separator_grammar Sep) c (separator_grammar-Keeps Sep) _ _ _ e2,
          close_grammar-Keeps Closing _ _ _ e3,
          ap length same,
        )

-- Where the opening literal has characters, the element has fewer characters to read than the
-- sequence: `sequence<Opening, Separator, Closing>` implements the grammar on states of up to `n`
-- characters, with fuel for `n` rounds, where the element implements a grammar on those of fewer
-- than `n` characters and takes at least one.
pub sequence_delimited-Refines :
    {A B : Type 0} {abs : Memory → A → B} {n : ℕ} (fuel : ℕ) (Opening Sep Closing : Literal)
    (elem : Parser A) (g : Grammar B)
    → Refines abs n elem g
    → Consumes g
    → 0 < size Opening
    → n ≤ fuel
    → Refines
        (λ m. map (abs m))
        (suc n)
        (sequence_delimited fuel Opening Sep Closing elem)
        (delimited_grammar Opening Sep Closing g)
unfolding sequence_delimited
sequence_delimited-Refines {abs} fuel Opening Sep Closing elem g helem c positive enough = record {
  returns = λ m st v l.
      let (r, said, e, found, agrees) =
        sequence_delimited-Delimited_behind Opening Sep Closing elem g helem c fuel m st enough v
          (λ rest e.
            let shorter = open_grammar-Consumes Opening positive (view m st) empty rest e in
            let e' = length-chars m st.begin (st.end - st.begin) in
            omega (arith, shorter, e', l)) in
      (r, e, rw (delimited_grammar-Delimited Opening Sep Closing g c found) at agrees);
}
