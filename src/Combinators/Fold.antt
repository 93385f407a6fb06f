-- ===== src/Combinators/Fold.antt =====
-- `fold_left` of include/noam/combinators.hpp. `fuel` is the number of times that the condition of
-- its loop may be evaluated.
pub mod Many
use noam.Base.{ℕ, zero, suc, Option, none, some, false}
use noam.Parser.{Parser, attempt}
use noam.Result.{Result, DefaultConstructible, null_result}
use noam.State.{State, Memory}

module _ {ℓ κ} {A : Type ℓ} {B : Type κ} where
  -- `while (auto next_result = rest.parse(state)) …`, and the result behind it.
  unfoldable pub fold_loop : ℕ → Parser B → (A → B → A) → Memory → State → A → Option (Result A)
  fold_loop zero rest op m state value = none
  fold_loop (suc fuel) rest op m state value =
      attempt rest m state (λ next. fold_loop fuel rest op m next.state (op value next.value))
        (some (record { state = state; value = value }))

  unfoldable pub fold_left :
      ⦃d : DefaultConstructible A⦄ → ℕ → Parser A → Parser B → (A → B → A) → Parser A
  fold_left fuel initial rest op = record {
    always_good = false;
    parse = λ m state.
        attempt initial m state
          (λ initial_result. fold_loop fuel rest op m initial_result.state initial_result.value)
          (some null_result);
  }
