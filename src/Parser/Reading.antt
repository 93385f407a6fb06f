-- ===== src/Parser/Reading.antt =====
-- `parser::read` of include/noam/parser.hpp, and `parse_assign` and `parse_assign_value` of
-- include/noam/util/helpers.hpp: the ways to call a parser that update a state in place.
use noam.Base.{
  ℕ, ◌-◌, ◌<◌, ◌≡◌, refl, Bool, true, false, Option, none, some, List, if◌then◌else◌, arith,
}
use noam.Parser.{Parser, read, parse_assign, parse_assign_value}
use noam.Parser.Refines.{Grammar, Refines, Agrees, IsTail}
use noam.Result.{Result, DefaultConstructible, good, null_result}
use noam.State.{State, Memory}
use noam.State.View.{IsValid, view}

module _ {A A' : Type 0} (abs : Memory → A → A') where
  -- What is found, the state that is left and the result, by what the grammar says.
  abbrev pub Reads : Memory → State → Bool → State → Result A → Option (A' × List ℕ) → Type 0
  Reads m st found st' next none = (found ≡ false) × (st' ≡ st)
  Reads m st found st' next (some (b, rest)) =
      (found ≡ true) × (abs m next.value ≡ b) × IsTail st st' × (view m st' ≡ rest)

  Agrees-Reads :
      (always_good : Bool) (m : Memory) (st : State) (next : Result A) (said : Option (A' × List ℕ))
      → Agrees abs always_good m st next said
      → Reads m st
          (good always_good next)
          (if good always_good next then next.state else st)
          next
          said
  Agrees-Reads always_good m st next none bad = rw bad (refl, refl)
  Agrees-Reads always_good m st next (some (b, rest)) (ok, value, t, left) =
      rw ok (refl, value, t, left)

  -- On a valid state of fewer than `n` characters, with a parser that implements a grammar, the
  -- three ways to call it leave the same state: the one given where the grammar fails, and
  -- otherwise a tail with the rest. `read` gives the parser's result, or a null result on failure;
  -- `parse_assign` assigns the result either way; `parse_assign_value` assigns its value on
  -- success alone.
  pub read-Reads :
      ⦃d : DefaultConstructible A⦄ {n : ℕ} {p : Parser A} {g : Grammar A'} (m : Memory) (st : State)
      (r : Result A) (val : A)
      → Refines abs n p g
      → IsValid st
      → st.end - st.begin < n
      → (found : Bool) × (st' : State) × (next : Result A) × (read p m st
          ≡ some (st', if found then next else null_result))
        × (parse_assign p m st r ≡ some (found, st', next))
        × (parse_assign_value p m st val ≡ some (found, st', if found then next.value else val))
        × Reads m st found st' next (g (view m st))
  unfolding read parse_assign parse_assign_value
  read-Reads {p} {g} m st r val h v l =
      let (next, e, a) = h.returns m st v l in
      let found = good p.always_good next in
      (
        found,
        (if found then next.state else st),
        next,
        (rw e (ground arith)),
        (rw e (ground arith)),
        (rw e (ground arith)),
        Agrees-Reads p.always_good m st next (g (view m st)) a,
      )
