-- ===== src/Types.antt =====
-- The compile-time part of the library: include/noam/type_traits.hpp, the type functions of
-- include/noam/result_types.hpp and include/noam/util/value_wrappers.hpp, and the lists of types at
-- the end of include/noam/util/helpers.hpp. A type is a value of a data type, and a type function
-- is a function, into an Option where it may not compile.
pub mod Packs
pub mod Results
use noam.Base.{ℕ, Bool, true, false, Option, none, some, if◌then◌else◌, ◌>>=◌}

-- A type of values. The types that are not the library's have a name, and say whether
-- `std::is_default_constructible_v` holds of them.
pub data ValueType : Type 0 where
  named : ℕ → Bool → ValueType
  box : ValueType → ValueType

abbrev pub default_constructible : ValueType → Bool
default_constructible (named name constructible) = constructible
default_constructible (box t) = true

-- `box_if_necessary_t`
abbrev pub box_if_necessary_t : ValueType → ValueType
box_if_necessary_t t = if default_constructible t then t else box t

-- The types of results. `own` is a type of a client, which may certify that it is always good.
pub data ResultType : Type 0 where
  result : ValueType → ResultType
  pure_result : ValueType → ResultType
  own : ValueType → Bool → Bool → ResultType
  const : ResultType → ResultType
  reference : ResultType → ResultType

-- `std::decay_t`
unfoldable pub decay : ResultType → ResultType
decay (result t) = result t
decay (pure_result t) = pure_result t
decay (own t always_good constructible) = own t always_good constructible
decay (const r) = decay r
decay (reference r) = decay r

-- `qualified_type`
abbrev pub qualified_type : ResultType → Bool
qualified_type (const r) = true
qualified_type (reference r) = true
qualified_type _ = false

-- `result_traits<Result>::always_good` for types that are not qualified: `false` where no one
-- certifies more.
abbrev pub certified : ResultType → Bool
certified (pure_result t) = true
certified (own t always_good constructible) = always_good
certified _ = false

-- `result_always_good_v`
abbrev pub result_always_good_v : ResultType → Bool
result_always_good_v r = if qualified_type r then certified (decay r) else certified r

-- `result_value_t`; a reference has no member type, and it does not compile.
unfoldable pub result_value_t : ResultType → Option ValueType
result_value_t (result t) = some t
result_value_t (pure_result t) = some t
result_value_t (own t always_good constructible) = some t
result_value_t (const r) = result_value_t r
result_value_t (reference r) = none

-- `std::is_default_constructible_v` of a type of results: a `result` without a value is one that
-- failed. A `pure_result` has a value always; its default member initializer `Value()` is an error
-- for a type without a default, and the trait does not compile.
unfoldable pub default_constructible_result : ResultType → Option Bool
default_constructible_result (result t) = some true
default_constructible_result (pure_result t) = if default_constructible t then some true else none
default_constructible_result (own t always_good constructible) = some constructible
default_constructible_result (const r) = default_constructible_result r
default_constructible_result (reference r) = some false

-- `parser_result_t`, of the type that `parse` returns.
abbrev pub parser_result_t : ResultType → ResultType
parser_result_t r = decay r

-- `parser_value_t`
abbrev pub parser_value_t : ResultType → Option ValueType
parser_value_t r = result_value_t (parser_result_t r)

-- `parser_always_good_v`
abbrev pub parser_always_good_v : ResultType → Bool
parser_always_good_v r = result_always_good_v (parser_result_t r)

-- `default_constructible_parser_result_t`; it compiles where the test and both alternatives do.
abbrev pub default_constructible_parser_result_t : ResultType → Option ResultType
default_constructible_parser_result_t r = do
  constructible ← default_constructible_result (parser_result_t r)
  value ← parser_value_t r
  some (if constructible then parser_result_t r else result value)

-- `get_result_t`
abbrev pub get_result_t : ValueType → Bool → ResultType
get_result_t t good = if good then pure_result t else result t
