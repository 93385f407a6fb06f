-- ===== src/Result/References.antt =====
-- References as values, of include/noam/util/value_wrappers.hpp and include/noam/result_types.hpp.
-- A reference is the address of an object, which is not 0. Opening what refers to nothing is
-- undefined, which is `none`.
use noam.Base.{ℕ, Bool, not, Option, none, some, if◌then◌else◌, ◌==◌}
use noam.State
use noam.State.{State}

-- `optional_ref`
pub record OptionalRef : Type 0 where
  pub pointer : ℕ

abbrev pub null_ref : OptionalRef
null_ref = record { pointer = 0 }

abbrev pub optional_ref : ℕ → OptionalRef
optional_ref value = record { pointer = value }

-- `optional_ref::operator Value&`
abbrev pub to_reference : OptionalRef → Option ℕ
to_reference ref = if ref.pointer == 0 then none else some ref.pointer

-- `result<Value&>` over `optional_result_value<Value&>`.
pub record ReferenceResult : Type 0 where
  pub state : State
  pub value : OptionalRef

-- `optional_result_value<Value&>::good`
abbrev pub good_reference : ReferenceResult → Bool
good_reference r = not (r.value.pointer == 0)

abbrev pub get_reference : ReferenceResult → Option ℕ
get_reference r = to_reference r.value

-- `optional_result_value<Value&>::operator=`
abbrev pub set_reference : ReferenceResult → ℕ → ReferenceResult
set_reference r ref = record r { value = optional_ref ref }

-- `result<Value&>{}`
abbrev pub null_reference : ReferenceResult
null_reference = record { state = State.null_state; value = null_ref }

-- `box<T&>`
pub record ReferenceBox : Type 0 where
  pub pointer : ℕ

abbrev pub empty_box : ReferenceBox
empty_box = record { pointer = 0 }

-- `box<T&>::operator=(T&)`: the box refers to another object, and no object is changed.
abbrev pub refer : ReferenceBox → ℕ → ReferenceBox
refer b ref = record b { pointer = ref }

-- `box<T&>::operator T&`
abbrev pub open_box : ReferenceBox → Option ℕ
open_box b = if b.pointer == 0 then none else some b.pointer
