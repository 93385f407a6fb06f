-- ===== src/Result/Optional.antt =====
-- include/noam/result_types.hpp and include/noam/util/value_wrappers.hpp: results of values that
-- are not default constructible, and boxes for them. What throws or is undefined is `none`.
use noam.Base.{Bool, true, false, Option, none, some, if◌then◌else◌}
use noam.Result.{Result, good, DefaultConstructible}
use noam.State
use noam.State.{State}

-- `result<Value>` over `optional_result_value<Value>`.
pub record OptionalResult (A : Type 0) : Type 0 where
  pub state : State
  pub value : Option A

-- `bool(std::optional)`
abbrev pub has_value : {A : Type 0} → Option A → Bool
has_value none = false
has_value (some v) = true

module _ {A : Type 0} where
  -- `optional_result_value::good`
  abbrev pub good_optional : OptionalResult A → Bool
  good_optional r = has_value r.value

  -- `result<Value>{}`
  abbrev pub null_optional : OptionalResult A
  null_optional = record { state = State.null_state; value = none }

  -- `result& operator=(Result&& r)` from another type of results.
  abbrev pub assign_optional : Bool → Result A → OptionalResult A
  assign_optional always_good r =
      if always_good
      then record { state = r.state; value = some r.value }
      else if good always_good r
      then record { state = r.state; value = some r.value }
      else null_optional

-- `box<T>` of a default constructible type: the value itself, with the assignment to it and the
-- conversion to a reference to it.
pub record ValueBox (A : Type 0) : Type 0 where
  pub value : A

module _ {A : Type 0} where
  abbrev pub new_value_box : ⦃d : DefaultConstructible A⦄ → ValueBox A
  new_value_box ⦃d⦄ = record { value = d.default }

  abbrev pub assign_value_box : ValueBox A → A → ValueBox A
  assign_value_box b u = record b { value = u }

  abbrev pub open_value_box : ValueBox A → A
  open_value_box b = b.value
