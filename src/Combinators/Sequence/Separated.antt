-- ===== src/Combinators/Sequence/Separated.antt =====
-- What `sequence` of include/noam/combinators.hpp takes: elements with separators between them.
use noam.Base.{
  ℕ, zero, suc, ◌-◌, ◌≤◌, ◌<◌, ◌≡◌, refl, sym, ap, ◌∙◌, List, [], ◌∷◌, ◌++◌, append_assoc,
  append_nil, map, Option, none, some, arith,
}
use noam.Combinators.Consumption.{Consumes}
use noam.Combinators.Fold.Many.{view-shorter}
use noam.Combinators.Sequence.{sequence_loop, sequence_from, sequence}
use noam.Parser.{Parser}
use noam.Parser.Refines.{
  Grammar, Refines, IsTail, IsTail_refl, IsTail_trans, IsTail-IsValid, attempt-Refines,
}
use noam.Result.{Result, Empty, empty}
use noam.State.{State, Memory}
use noam.State.View.{IsValid, view}

module _ {B : Type 0} (g : Grammar B) (sep : Grammar Empty) where
  -- The elements behind the first one, each behind a separator. A separator that no element
  -- follows is left where it is.
  pub data Following : List ℕ → List B → List ℕ → Type 0 where
    no_separator : {l : List ℕ} → sep l ≡ none → Following l [] l
    no_element : {l l' : List ℕ} {s : Empty} → sep l ≡ some (s, l') → g l' ≡ none → Following l [] l
    another :
        {l l' l'' rest : List ℕ} {s : Empty} {b : B} {bs : List B}
        → sep l ≡ some (s, l')
        → g l' ≡ some (b, l'')
        → Following l'' bs rest
        → Following l (b ∷ bs) rest

  -- The elements of a sequence: none, or a first one and those that follow.
  pub data Separated : List ℕ → List B → List ℕ → Type 0 where
    nothing : {l : List ℕ} → g l ≡ none → Separated l [] l
    elements :
        {l l' rest : List ℕ} {b : B} {bs : List B}
        → g l ≡ some (b, l')
        → Following l' bs rest
        → Separated l (b ∷ bs) rest

module _ {A B : Type 0} (abs : Memory → A → B) (g : Grammar B) (gsep : Grammar Empty) where
  -- How the loop ends: it has added the elements that follow.
  abbrev LoopEnds : Memory → State → List A → Option (State × List A) → Type 0
  LoopEnds m st value o =
      (st' : State) × (value' : List A) × (bs : List B) × (o ≡ some (st', value'))
      × (map (abs m) value' ≡ map (abs m) value ++ bs)
      × Following g gsep (view m st) bs (view m st')
      × IsTail st st'

  -- How the elements end, where they are all that is read.
  abbrev pub SequenceEnds : Memory → State → Option (State × List A) → Type 0
  SequenceEnds m st o =
      (st' : State) × (value : List A) × (o ≡ some (st', value))
      × Separated g gsep (view m st) (map (abs m) value) (view m st')
      × IsTail st st'

map-append : {A B : Type 0} (f : A → B) (xs ys : List A) → map f (xs ++ ys) ≡ map f xs ++ map f ys
map-append f [] ys = refl
map-append f (x ∷ xs) ys = ap (◌∷◌ (f x)) (map-append f xs ys)

module _ {A B S : Type 0} {abs : Memory → A → B} {n : ℕ} (elem : Parser A) (sep : Parser S)
    (g : Grammar B) (gsep : Grammar Empty) (helem : Refines abs n elem g)
    (hsep : Refines (λ m v. empty) n sep gsep) (consumes : Consumes g) where
  sequence_loop-Following :
      (fuel : ℕ) (m : Memory) (st : State) (value : List A)
      → IsValid st
      → st.end - st.begin < n
      → st.end - st.begin < fuel
      → LoopEnds abs g gsep m st value (sequence_loop fuel elem sep m st value)
  unfolding sequence_loop
  sequence_loop-Following zero m st value v l l' = absurd (omega arith)
  sequence_loop-Following (suc fuel) m st value v l l' =
      attempt-Refines sep gsep (LoopEnds abs g gsep m st value) m st _ _ hsep v l
        (λ sep_ e t.
          attempt-Refines elem g (LoopEnds abs g gsep m st value) m sep_.state _ _ helem
            (IsTail-IsValid v t) (omega (arith, t))
            (λ next e' t'.
              let less = view-shorter m sep_.state next.state (consumes _ _ _ e') in
              let (st', value', bs, done, same, following, t'') =
                sequence_loop-Following fuel m next.state (value ++ (next.value ∷ []))
                  (IsTail-IsValid (IsTail-IsValid v t) t') (omega (arith, t, t'))
                  (omega (arith, less, t)) in
              (
                st',
                value',
                abs m next.value ∷ bs,
                done,
                (same
                    ∙ ap (λ xs. xs ++ bs) (map-append (abs m) value (next.value ∷ []))
                    ∙ append_assoc (map (abs m) value) (abs m next.value ∷ []) bs),
                another e e' following,
                IsTail_trans t (IsTail_trans t' t''),
              ))
            (λ e' _. (st, value, [], refl, sym (append_nil _), no_element e e', IsTail_refl v)))
        (λ e _. (st, value, [], refl, sym (append_nil _), no_separator e, IsTail_refl v))

  pub sequence_from-Separated :
      (fuel : ℕ) (m : Memory) (st : State)
      → n ≤ fuel
      → IsValid st
      → st.end - st.begin < n
      → SequenceEnds abs g gsep m st (sequence_from fuel elem sep m st)
  unfolding sequence_from
  sequence_from-Separated fuel m st enough v l =
      attempt-Refines elem g (SequenceEnds abs g gsep m st) m st _ _ helem v l
        (λ first e t.
          let (st', value', bs, done, same, following, t') =
            sequence_loop-Following fuel m first.state (first.value ∷ []) (IsTail-IsValid v t)
              (omega (arith, t)) (omega (arith, t)) in
          (st', value', done, (rw same (elements e following)), IsTail_trans t t'))
        (λ e _. (st, [], refl, nothing e, IsTail_refl v))

  -- `sequence` returns a pure result, on every valid state of fewer than `n` characters, with fuel
  -- for as many rounds, where the parsers implement grammars and the element takes at least one
  -- character. Its values are the
  -- elements that stand at the beginning with a separator between each two, as many as there are,
  -- and it stands behind the last of them: a separator without an element behind it is not taken.
  pub sequence-Separated :
      (fuel : ℕ) (m : Memory) (st : State)
      → n ≤ fuel
      → IsValid st
      → st.end - st.begin < n
      → (r : Result (List A)) × ((sequence fuel elem sep).parse m st ≡ some r)
        × Separated g gsep (view m st) (map (abs m) r.value) (view m r.state)
        × IsTail st r.state
  unfolding sequence
  sequence-Separated fuel m st enough v l =
      let (st', value, done, separated, t) = sequence_from-Separated fuel m st enough v l in
      (record { state = st'; value = value }, rw done, separated, t)
