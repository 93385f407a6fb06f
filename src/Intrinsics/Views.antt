-- ===== src/Intrinsics/Views.antt =====
-- `view_parser` of include/noam/util/intrinsic_types.hpp: the characters between two delimiters, as
-- a view; and `parse_string_view` of include/noam/intrinsics.hpp.
pub mod Splits
pub mod Quoted
pub mod Assertions
use noam.Base.{ℕ, zero, suc, Bool, false, Option, none, some, if◌then◌else◌}
use noam.Base.Int.{pos, ltb_ℤ}
use noam.Literal.{Literal, char_literal, check_and_update}
use noam.Parser.{Parser}
use noam.Result.{Result, DefaultConstructible, null_result}
use noam.State
use noam.State.{State, Memory}

instance abbrev pub State-default : DefaultConstructible State
State-default = record { default = State.null_state }

module _ (closing escape : Literal) where
  -- The loop, with fuel.
  unfoldable pub view_loop : ℕ → Memory → State → ℕ → Option (Result State)
  view_loop zero m st view_begin = none
  view_loop (suc fuel) m st view_begin =
      let (closed, st1) = check_and_update closing m st in
      let (escaped, st2) = check_and_update escape m st1 in
      let (_, st3) = check_and_update closing m st2 in
      let next = view_loop fuel m (if escaped then st3 else State.remove_prefix st2 1) view_begin in
      if ltb_ℤ (pos 0) (State.size st)
      then (if closed
          then some (record { state = st1; value = record { begin = view_begin; end = st.begin } })
          else next)
      else some null_result

unfoldable pub view_parser : ℕ → Literal → Literal → Literal → Parser State
view_parser fuel opening closing escape = record {
  always_good = false;
  parse = λ m st.
      let (opened, st') = check_and_update opening m st in
      let read = view_loop closing escape fuel m st' st'.begin in
      if opened then read else some null_result;
}

-- `parse_string_view`
abbrev pub parse_string_view : ℕ → Parser State
parse_string_view fuel = view_parser fuel (char_literal 34) (char_literal 34) (char_literal 92)
