-- ===== src/Result.antt =====
-- include/noam/result_types.hpp: what a parser returns. `result<Value>` and `pure_result<Value>`
-- hold the same two fields, and differ in their test: a result is good if its state is not null,
-- a pure result always is. The flag `always_good` is `result_always_good_v` of the type.
pub mod Optional
pub mod References
use noam.Base.{Bool, ◌&&◌, ◌||◌, if◌then◌else◌}
use noam.State
use noam.State.{State}

-- A value type that is default constructible, with its default value.
pub record DefaultConstructible {ℓ} (A : Type ℓ) : Type ℓ where
  pub default : A

-- `struct empty`
pub data Empty : Type 0 where
  empty : Empty

instance abbrev pub Empty-default : DefaultConstructible Empty
Empty-default = record { default = empty }

pub record Result {ℓ} (A : Type ℓ) : Type ℓ where
  pub state : State
  pub value : A

module _ {ℓ} {A : Type ℓ} where
  abbrev pub good : Bool → Result A → Bool
  good always_good r = always_good || State.good r.state

  abbrev pub check_value : Bool → (A → A → Bool) → Result A → A → Bool
  check_value always_good same r v = good always_good r && same r.value v

  -- `result<Value>{}`, and the conversion of `null_result`.
  abbrev pub null_result : ⦃d : DefaultConstructible A⦄ → Result A
  null_result ⦃d⦄ = record { state = State.null_state; value = d.default }

  -- `result& operator=(Result&& r)` from another type of results: the new value of `*this`.
  abbrev pub assign : ⦃d : DefaultConstructible A⦄ → Bool → Result A → Result A
  assign always_good r =
      if always_good
      then record { state = r.state; value = r.value }
      else if good always_good r
      then record { state = r.state; value = r.value }
      else null_result
