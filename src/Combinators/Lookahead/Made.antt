-- ===== src/Combinators/Lookahead/Made.antt =====
-- `lookahead` of include/noam/combinators.hpp for results whose state cannot be set.
use noam.Base.{ℕ, refl, true, false, some, ◌>>=◌, Bool-cases, inl, inr}
use noam.Combinators.Lookahead.{lookahead_made}
use noam.Parser.{Parser}
use noam.Parser.Refines.{
  Grammar, Refines, Returns, IsTail_refl, or-eq-false, Returns-ok, parse-Refines,
}
use noam.Result.{Result, DefaultConstructible, null_result}
use noam.State
use noam.State.{State, Memory}
use noam.State.View.{view}

-- The value, with nothing taken.
abbrev pub ahead_grammar : {B : Type 0} → Grammar B → Grammar B
ahead_grammar g l = do (a, _) ← g l; some (a, l)

module _ {A A' : Type 0} ⦃d : DefaultConstructible A⦄ {abs : Memory → A → A'} {n : ℕ} where
  -- `lookahead` of a parser that implements a grammar, where the state of its results cannot be
  -- set, has the value that the grammar reads, takes nothing, and fails exactly where the grammar
  -- fails.
  pub lookahead_made-Refines :
      {p : Parser A} {g : Grammar A'}
      → Refines abs n p g
      → Refines abs n (lookahead_made p) (ahead_grammar g)
  unfolding lookahead_made
  lookahead_made-Refines {p} {g} h = record {
    returns = λ m st v l.
        parse-Refines p g (λ o. Returns abs p.always_good m st o (ahead_grammar g (view m st))) m st
          _ h v l
          (λ r e ok t.
            let made : Result A = record { state = st; value = r.value } in
            rw e (elim (Bool-cases p.always_good) [
              | inl always ↦ rw always (Returns-ok abs true m made v (IsTail_refl v))
              | inr may_fail ↦
                  rw (may_fail, rw may_fail at ok) (Returns-ok abs false m made v (IsTail_refl v))
            ]))
          (λ r e bad.
            let never = or-eq-false p.always_good (State.good r.state) bad in
            rw (e, never, rw never at bad) (null_result, refl, refl));
  }
