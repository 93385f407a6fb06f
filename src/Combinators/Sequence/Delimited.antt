-- ===== src/Combinators/Sequence/Delimited.antt =====
-- What `sequence<Opening, Separator, Closing>` of include/noam/combinators.hpp takes.
use noam.Base.{
  ℕ, suc, ◌-◌, ◌≤◌, ◌<◌, ◌≡◌, refl, false, List, [], ◌∷◌, map, length, Option, none, some, arith,
}
use noam.Combinators.Consumption.{Consumes}
use noam.Combinators.Match.{separator}
use noam.Combinators.Match.Grammars.{match-Refines, nil, cons, update_state-good, update_state-bad}
use noam.Combinators.Sequence.{open_parser, close_parser, sequence_delimited, List-default}
use noam.Combinators.Sequence.Words.{
  whitespace_grammar, word_grammar, open_grammar, close_grammar, separator_grammar,
  open_grammar-Keeps,
}
use noam.Combinators.Sequence.Separated.{Separated, sequence_from-Separated}
use noam.Intrinsics.Chars.{zero_or_more_chars-Refines, whitespace}
use noam.Intrinsics.Words.{literal, literal_constant-Refines}
use noam.Literal.{Literal}
use noam.Parser.{Parser}
use noam.Parser.Refines.{
  Grammar, Refines, Agrees, IsTail_trans, IsTail-IsValid, parse-Refines, forget-Refines,
}
use noam.Result.{Result, empty, Empty-default, null_result}
use noam.State.{State, Memory}
use noam.State.View.{IsValid, view, length-chars}

module _ (n : ℕ) where
  pub whitespace-Refines : Refines (λ m v. empty) n whitespace whitespace_grammar
  whitespace-Refines = forget-Refines (zero_or_more_chars-Refines _ n)

  word-Refines : (lit : Literal) → Refines (λ m v. empty) n (literal (lit ∷ [])) (word_grammar lit)
  word-Refines lit = forget-Refines (literal_constant-Refines empty (lit ∷ []) n)

  open-Refines :
      (Opening : Literal) → Refines (λ m v. empty) n (open_parser Opening) (open_grammar Opening)
  open-Refines Opening = match-Refines (cons (word-Refines Opening) (cons whitespace-Refines nil))

  close-Refines :
      (Closing : Literal) → Refines (λ m v. empty) n (close_parser Closing) (close_grammar Closing)
  close-Refines Closing = match-Refines (cons whitespace-Refines (cons (word-Refines Closing) nil))

  pub separator-Refines :
      (Sep : Literal) → Refines (λ m v. empty) n (separator (Sep ∷ [])) (separator_grammar Sep)
  separator-Refines Sep =
      match-Refines
        (cons whitespace-Refines (cons (word-Refines Sep) (cons whitespace-Refines nil)))

-- What a delimited sequence is: the opening literal, elements with separators between them, and
-- the closing literal, with whitespace around.
pub data Delimited {B : Type 0} (Opening Sep Closing : Literal) (g : Grammar B) (l : List ℕ)
    : Option (List B × List ℕ) → Type 0 where
  unopened : open_grammar Opening l ≡ none → Delimited Opening Sep Closing g l none
  unclosed :
      {l' l'' : List ℕ} {bs : List B}
      → open_grammar Opening l ≡ some (empty, l')
      → Separated g (separator_grammar Sep) l' bs l''
      → close_grammar Closing l'' ≡ none
      → Delimited Opening Sep Closing g l none
  closed :
      {l' l'' rest : List ℕ} {bs : List B}
      → open_grammar Opening l ≡ some (empty, l')
      → Separated g (separator_grammar Sep) l' bs l''
      → close_grammar Closing l'' ≡ some (empty, rest)
      → Delimited Opening Sep Closing g l (some (bs, rest))

module _ {A B : Type 0} {abs : Memory → A → B} {n : ℕ} (Opening Sep Closing : Literal)
    (elem : Parser A) (g : Grammar B) (helem : Refines abs n elem g) (consumes : Consumes g) where
  -- As below, where what stands behind the opening literal has fewer than `n` characters.
  pub sequence_delimited-Delimited_behind :
      (fuel : ℕ) (m : Memory) (st : State)
      → n ≤ fuel
      → IsValid st
      → ((rest : List ℕ) → open_grammar Opening (view m st) ≡ some (empty, rest) → length rest < n)
      → (r : Result (List A)) × (said : Option (List B × List ℕ)) × ((sequence_delimited fuel
              Opening Sep Closing elem).parse
            m st
          ≡ some r)
        × Delimited Opening Sep Closing g (view m st) said
        × Agrees (λ m. map (abs m)) false m st r said
  unfolding sequence_delimited
  sequence_delimited-Delimited_behind fuel m st enough v short =
      let size = st.end - st.begin in
      parse-Refines (open_parser Opening) (open_grammar Opening) Goal m st _
        (open-Refines (suc size) Opening) v (omega arith)
        (λ opened e ok t. rw (update_state-good (open_parser Opening).always_good opened st ok) (
          let w = IsTail-IsValid v t in
          let less = short _ e in
          let e' = length-chars m opened.state.begin (opened.state.end - opened.state.begin) in
          let (st'', value, done, separated, t') =
            sequence_from-Separated elem (separator (Sep ∷ [])) g (separator_grammar Sep) helem
              (separator-Refines n Sep) consumes fuel m opened.state enough w
              (omega (arith, less, e')) in
          rw done (
            parse-Refines (close_parser Closing) (close_grammar Closing) Goal m st'' _
              (close-Refines (suc size) Closing) (IsTail-IsValid w t') (omega (arith, t, t'))
              (λ r e' ok' t''.
                rw (update_state-good (close_parser Closing).always_good r st'' ok') (
                  record { state = r.state; value = value },
                  _,
                  refl,
                  closed e separated e',
                  (
                    (ground (arith, v.nonnull, t, t', t'')),
                    refl,
                    IsTail_trans t (IsTail_trans t' t''),
                    refl,
                  ),
                ))
              (λ r e' bad.
                rw (update_state-bad (close_parser Closing).always_good r st'' bad)
                  (null_result, none, refl, unclosed e separated e', refl)))))
        (λ r e bad.
          rw (update_state-bad (open_parser Opening).always_good r st bad)
            (null_result, none, refl, unopened e, refl))
    where
      Goal : Option (Result (List A)) → Type 0
      Goal o =
          (r : Result (List A)) × (said : Option (List B × List ℕ)) × (o ≡ some r)
          × Delimited Opening Sep Closing g (view m st) said
          × Agrees (λ m. map (abs m)) false m st r said

  -- `sequence<Opening, Separator, Closing>` returns, on every valid state of fewer than `n`
  -- characters, with fuel for as many rounds, where the element implements a grammar and takes at
  -- least one character. It fails where the opening literal is missing, or where the closing
  -- literal does not follow the elements; otherwise it has the values of the elements, and stands
  -- behind the closing literal.
  pub sequence_delimited-Delimited :
      (fuel : ℕ) (m : Memory) (st : State)
      → n ≤ fuel
      → IsValid st
      → st.end - st.begin < n
      → (r : Result (List A)) × (said : Option (List B × List ℕ)) × ((sequence_delimited fuel
              Opening Sep Closing elem).parse
            m st
          ≡ some r)
        × Delimited Opening Sep Closing g (view m st) said
        × Agrees (λ m. map (abs m)) false m st r said
  sequence_delimited-Delimited fuel m st enough v l =
      sequence_delimited-Delimited_behind fuel m st enough v (λ rest e.
        let shorter = open_grammar-Keeps Opening (view m st) empty rest e in
        let e' = length-chars m st.begin (st.end - st.begin) in omega (arith, shorter, e'))
