-- ===== src/Combinators/Fold/Many.antt =====
-- What `fold_left` of include/noam/combinators.hpp takes: one value of the initial grammar, and as
-- many values of the other as there are.
use noam.Base.{
  ℕ, zero, suc, ◌-◌, ◌≤◌, ◌<◌, ◌≡◌, refl, true, false, List, [], ◌∷◌, length, Option, none, some,
  arith,
}
use noam.Combinators.Consumption.{Consumes}
use noam.Combinators.Fold.{fold_loop, fold_left}
use noam.Parser.{Parser}
use noam.Parser.Refines.{
  Grammar, Refines, IsTail, IsTail_refl, IsTail_trans, IsTail-IsValid, attempt-Refines,
}
use noam.Result.{Result, DefaultConstructible, null_result}
use noam.State
use noam.State.{State, Memory}
use noam.State.View.{IsValid, view, length-chars}

-- The values that the grammar gives one behind another, until it fails.
pub data Many {B : Type 0} (g : Grammar B) : List ℕ → List B → List ℕ → Type 0 where
  stop : {l : List ℕ} → g l ≡ none → Many g l [] l
  more :
      {l l' rest : List ℕ} {b : B} {bs : List B}
      → g l ≡ some (b, l')
      → Many g l' bs rest
      → Many g l (b ∷ bs) rest

abbrev pub foldl : {A B : Type 0} → (A → B → A) → A → List B → A
foldl op a [] = a
foldl op a (b ∷ bs) = foldl op (op a b) bs

-- What is left in a tail is shorter where the grammar says so.
pub view-shorter :
    (m : Memory) (st st' : State)
    → length (view m st') < length (view m st)
    → st'.end - st'.begin < st.end - st.begin
view-shorter m st st' h = omega (
  arith,
  length-chars m st.begin (st.end - st.begin),
  length-chars m st'.begin (st'.end - st'.begin),
)

module _ {A B A' B' : Type 0} (abs : Memory → A → A') (abs_rest : Memory → B → B') (op : A → B → A)
    (op' : A' → B' → A') (g : Grammar B') where
  -- How the parser ends, by what the initial grammar says: it fails, or it has folded all that
  -- the other grammar gives behind the initial value.
  abbrev pub Folds : Memory → State → Result A → Option (A' × List ℕ) → Type 0
  Folds m st r none = State.good r.state ≡ false
  Folds m st r (some (a, l)) =
      (bs : List B') × Many g l bs (view m r.state)
      × (abs m r.value ≡ foldl op' a bs)
      × (State.good r.state ≡ true)
      × IsTail st r.state

  fold_loop-Folds :
      {n : ℕ} (rest : Parser B) (fuel : ℕ) (m : Memory) (state : State) (value : A)
      → ((m : Memory) (a : A) (b : B) → abs m (op a b) ≡ op' (abs m a) (abs_rest m b))
      → Refines abs_rest n rest g
      → Consumes g
      → IsValid state
      → state.end - state.begin < n
      → state.end - state.begin < fuel
      → (r : Result A) × (fold_loop fuel rest op m state value ≡ some r)
        × Folds m state r (some (abs m value, view m state))
  unfolding fold_loop
  fold_loop-Folds rest zero m state value same h consumes v l l' = absurd (omega arith)
  fold_loop-Folds {n} rest (suc fuel) m state value same h consumes v l l' =
      attempt-Refines rest g
        (λ o. (r : Result A) × (o ≡ some r) × Folds m state r (some (abs m value, view m state))) m
        state _ _ h v l
        (λ next e t.
          let less = view-shorter m state next.state (consumes _ _ _ e) in
          let (r, e', (bs, many, folded, ok, t')) =
            fold_loop-Folds rest fuel m next.state (op value next.value) same h consumes
              (IsTail-IsValid v t) (omega (arith, t)) (omega (arith, less)) in
          (
            r,
            e',
            (
              abs_rest m next.value ∷ bs,
              more e many,
              (rw (← same m value next.value) folded),
              ok,
              IsTail_trans t t',
            ),
          ))
        (λ e _. (
          record { state = state; value = value },
          refl,
          ([], stop e, refl, (ground (arith, v.nonnull)), IsTail_refl v),
        ))

  -- `fold_left` returns, on every valid state of fewer than `n` characters, with fuel for as many
  -- rounds, where the parsers implement grammars, `rest` takes at least one character, and the
  -- operation on values does as that on their contents. It fails where the initial grammar fails.
  -- Otherwise it folds, from the left, all the values that the other grammar gives behind the
  -- initial value, until that grammar fails, and stands behind the last of them.
  pub fold_left-Folds :
      ⦃d : DefaultConstructible A⦄ {n : ℕ} (initial : Parser A) (rest : Parser B) (g₀ : Grammar A')
      (fuel : ℕ) (m : Memory) (state : State)
      → ((m : Memory) (a : A) (b : B) → abs m (op a b) ≡ op' (abs m a) (abs_rest m b))
      → Refines abs n initial g₀
      → Refines abs_rest n rest g
      → Consumes g
      → n ≤ fuel
      → IsValid state
      → state.end - state.begin < n
      → (r : Result A) × ((fold_left fuel initial rest op).parse m state ≡ some r)
        × Folds m state r (g₀ (view m state))
  unfolding fold_left
  fold_left-Folds {n} initial rest g₀ fuel m state same h₀ h consumes enough v l =
      attempt-Refines initial g₀
        (λ o. (r : Result A) × (o ≡ some r) × Folds m state r (g₀ (view m state))) m state _ _ h₀ v
        l
        (λ first e t. rw e (
          let (r, e', (bs, many, folded, ok, t')) =
            fold_loop-Folds rest fuel m first.state first.value same h consumes (IsTail-IsValid v t)
              (omega (arith, t)) (omega (arith, t)) in
          (r, e', (bs, many, folded, ok, IsTail_trans t t'))))
        (λ e _. rw e (null_result, refl, refl))
