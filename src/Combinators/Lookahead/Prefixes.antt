-- ===== src/Combinators/Lookahead/Prefixes.antt =====
-- `test_prefix` and `require_prefix` of include/noam/combinators.hpp.
use noam.Base.{
  ℕ, ◌-◌, ◌≡◌, Bool, true, false, none, some, List, length, drop, le→leb, if◌then◌else◌, arith,
  Bool-cases, inl, inr,
}
use noam.Base.Int.{to_size_t}
use noam.Combinators.Lookahead.{test_prefix, require_prefix}
use noam.Intrinsics.Views.{State-default}
use noam.Literal.Match.{remove_prefix-IsTail, is_prefix-length-le}
use noam.Parser.Refines.{Grammar, Returns, IsTail, IsTail_refl, Returns-ok, Returns-fail}
use noam.State
use noam.State.{State, Memory}
use noam.State.Prefix.{is_prefix, starts_with-is_prefix}
use noam.State.View.{IsValid, view, length-chars}

abbrev pub test_prefix_grammar : List ℕ → Grammar Bool
test_prefix_grammar p l = if is_prefix p l then some (true, drop (length p) l) else some (false, l)

abbrev pub require_prefix_grammar : List ℕ → Grammar (List ℕ)
require_prefix_grammar p l = if is_prefix p l then some (p, drop (length p) l) else none

module _ (m : Memory) (prefix st : State) (w : IsValid prefix) (v : IsValid st) where
  size_lem : to_size_t (State.size prefix) ≡ length (view m prefix)
  size_lem =
      let e = length-chars m prefix.begin (prefix.end - prefix.begin) in
      rw (le→leb _ _ w.ordered) (omega (arith, e))

  behind :
      is_prefix (view m prefix) (view m st) ≡ true
      → IsTail st (State.substr st (length (view m prefix)))
        × (view m (State.substr st (length (view m prefix)))
            ≡ drop (length (view m prefix)) (view m st))
  behind h = remove_prefix-IsTail m (length (view m prefix)) v (is_prefix-length-le _ _ h)

  tests : State.starts_with m st prefix ≡ is_prefix (view m prefix) (view m st)
  tests = starts_with-is_prefix m st prefix v.ordered w.ordered

  test_prefix-Returns :
      Returns
        (λ m v. v)
        true
        m
        st
        ((test_prefix prefix).parse m st)
        (test_prefix_grammar (view m prefix) (view m st))
  unfolding test_prefix
  test_prefix-Returns = elim (Bool-cases (is_prefix (view m prefix) (view m st))) [
    | inl h ↦
        let (tail, left) = behind h in
        rw (tests, h, size_lem, ← left)
          (Returns-ok (λ m v. v) true m (record { state = _; value = true }) v tail)
    | inr h ↦
        rw (tests, h)
          (Returns-ok (λ m v. v) true m (record { state = st; value = false }) v (IsTail_refl v))
  ]

  require_prefix-Returns :
      Returns view false m st
        ((require_prefix prefix).parse m st)
        (require_prefix_grammar (view m prefix) (view m st))
  unfolding require_prefix
  require_prefix-Returns = elim (Bool-cases (is_prefix (view m prefix) (view m st))) [
    | inl h ↦
        let (tail, left) = behind h in
        rw (tests, h, size_lem, ← left)
          (Returns-ok view false m (record { state = _; value = prefix }) v tail)
    | inr h ↦ rw (tests, h) (Returns-fail view m st)
  ]

-- In one memory, with a valid prefix and a valid state, `test_prefix` and `require_prefix` find the
-- characters of the prefix at the beginning of the state exactly where they stand there: then both
-- take them; else the one says no at the same state, and the other fails.
pub prefix-Returns :
    (m : Memory) (prefix st : State)
    → IsValid prefix
    → IsValid st
    → Returns
        (λ m v. v)
        true
        m
        st
        ((test_prefix prefix).parse m st)
        (test_prefix_grammar (view m prefix) (view m st))
      × Returns view false m st
          ((require_prefix prefix).parse m st)
          (require_prefix_grammar (view m prefix) (view m st))
prefix-Returns m prefix st w v =
    (test_prefix-Returns m prefix st w v, require_prefix-Returns m prefix st w v)
