-- ===== src/Combinators/Lookahead/Outcomes.antt =====
-- What the combinators of include/noam/combinators.hpp that test or look ahead return.
use mathlib.Core.Option
use noam.Base.{ℕ, ◌-◌, ◌<◌, ◌≡◌, refl, Bool, true, Option, none, some, List, arith}
use noam.Combinators.Lookahead.{test, test_lookahead, lookahead}
use noam.Parser.{Parser}
use noam.Parser.Refines.{Grammar, Refines}
use noam.Result.{Result, good}
use noam.State.{State, Memory}
use noam.State.View.{IsValid, view}

module _ {A' : Type 0} where
  -- The grammars of an optional value and of one that is looked at only, by what the grammar of the
  -- parser says of the characters `l`.
  abbrev optional : List ℕ → Option (A' × List ℕ) → Option (Option A' × List ℕ)
  optional l none = some (none, l)
  optional l (some (a, rest)) = some (some a, rest)

  abbrev peek : List ℕ → Option (A' × List ℕ) → Option (Option A' × List ℕ)
  peek l none = some (none, l)
  peek l (some (a, rest)) = some (some a, l)

  abbrev pub optional_grammar : Grammar A' → Grammar (Option A')
  optional_grammar g l = optional l (g l)

  abbrev pub peek_grammar : Grammar A' → Grammar (Option A')
  peek_grammar g l = peek l (g l)

module _ {A A' : Type 0} (abs : Memory → A → A') {n : ℕ} where
  -- On a valid state of fewer than `n` characters, `lookahead` of a parser that implements a
  -- grammar returns a good result at the state given, also where the grammar, and so the parser,
  -- fails.
  pub lookahead_never_fails :
      {p : Parser A} {g : Grammar A'} (m : Memory) (st : State)
      → Refines abs n p g
      → IsValid st
      → st.end - st.begin < n
      → (r : Result A) × ((lookahead p).parse m st ≡ some r)
        × (good p.always_good r ≡ true)
        × (r.state ≡ st)
  unfolding lookahead
  lookahead_never_fails {p} m st h v l =
      let (r, e, _) = h.returns m st v l in
      (record r { state = st }, rw e, ground (arith, v.nonnull), refl)

-- On a valid state of fewer than `n` characters, where a parser of Booleans that implements a
-- grammar succeeds, `test` and `test_lookahead` return the Boolean that it reads, also where that is
-- `false`, at the state given.
pub test_value :
    {n : ℕ} {p : Parser Bool} {g : Grammar Bool} (m : Memory) (st : State) (b : Bool)
    (rest : List ℕ)
    → Refines (λ m v. v) n p g
    → IsValid st
    → st.end - st.begin < n
    → g (view m st) ≡ some (b, rest)
    → ((test p).parse m st ≡ some (record { state = st; value = b }))
      × ((test_lookahead p).parse m st ≡ some (record { state = st; value = b }))
unfolding test test_lookahead
test_value m st b rest h v l e =
    let (r, e', a) = h.returns m st v l in
    let (_, value, _, _) = rw e at a in (rw (e', value) refl, rw (e', value) refl)
