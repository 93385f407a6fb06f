-- ===== src/Combinators/Recurse/Depth.antt =====
-- `recurse` of include/noam/combinators.hpp implements a grammar that refers to itself.
use noam.Base.{ℕ, zero, suc, ◌≡◌, ◌<◌, ◌≤◌, false, List, arith}
use noam.Combinators.Basic.{◌>>◌}
use noam.Combinators.Basic.Grammars.{then_grammar}
use noam.Combinators.Consumption.{Consumes}
use noam.Combinators.Fold.Many.{view-shorter}
use noam.Combinators.Recurse.{recurse}
use noam.Parser.{Parser}
use noam.Parser.Refines.{
  Grammar, Refines, Returns, Returns-weaken, Returns-ok, Returns-fail, IsTail-IsValid, IsTail_trans,
  attempt-Refines,
}
use noam.Result.{DefaultConstructible}
use noam.State.{Memory}
use noam.State.View.{view}

-- A parser of the same grammar, by another name.
pub Refines-ext :
    {A A' : Type 0} {abs : Memory → A → A'} {n : ℕ} {p : Parser A} (g g' : Grammar A')
    → ((l : List ℕ) → g l ≡ g' l)
    → Refines abs n p g
    → Refines abs n p g'
Refines-ext g g' same h = record {
  returns = λ m st v l. rw (← same (view m st)) (h.returns m st v l);
}

-- Behind a parser that takes at least one character, the next one has less to read.
pub >>-Refines_shorter :
    {A A' B B' : Type 0} {absA : Memory → A → A'} {absB : Memory → B → B'} {n : ℕ}
    ⦃d : DefaultConstructible B⦄ {p : Parser A} {q : Parser B} {g : Grammar A'} {h : Grammar B'}
    → Refines absA (suc n) p g
    → Consumes g
    → Refines absB n q h
    → Refines absB (suc n) (p >> q) (then_grammar g h)
unfolding ◌>>◌
>>-Refines_shorter {absB} {p} {q} {g} {h} hp consumes hq = record {
  returns = λ m st v l.
      attempt-Refines p g (λ o. Returns absB false m st o (then_grammar g h (view m st))) m st _ _
        hp v l
        (λ r e t.
          let less = view-shorter m st r.state (consumes _ _ _ e) in
          rw e (
            attempt-Refines q h (λ o. Returns absB false m st o (h (view m r.state))) m r.state _ _
              hq (IsTail-IsValid v t) (omega (arith, less))
              (λ r2 e2 t2. rw e2 (Returns-ok absB false m _ v (IsTail_trans t t2)))
              (λ e2 _. rw e2 (Returns-fail absB m st))))
        (λ e _. rw e (Returns-fail absB m st));
}

-- Of grammars of each depth: each is implemented by what `func` makes of the parser of those in it.
pub recurse-Refines_depth :
    {T T' : Type 0} {abs : Memory → T → T'} (func : Parser T → Parser T) (g : ℕ → Grammar T')
    (bound fuel : ℕ)
    → ((k : ℕ) (p : Parser T)
        → k < bound
        → Refines abs k p (g k)
        → Refines abs (suc k) (func p) (g (suc k)))
    → fuel ≤ bound
    → Refines abs fuel (recurse fuel func) (g fuel)
unfolding recurse
recurse-Refines_depth func g bound zero step within = record {
  returns = λ m st v l. absurd (omega arith);
}
recurse-Refines_depth {abs} func g bound (suc fuel) step within = record {
  returns = λ m st v l.
      let made = func (recurse fuel func) in
      let inner = recurse-Refines_depth func g bound fuel step (omega arith) in
      let h = step fuel (recurse fuel func) (omega arith) inner in
      Returns-weaken abs made.always_good m st (made.parse m st) (g (suc fuel) (view m st)) v
        (h.returns m st v l);
}

-- Where `func` makes, of any parser that implements the grammar on states of fewer than `k`
-- characters, one that implements it on states of up to `k` characters, for every `k`, `recurse`
-- of `func` returns and implements the grammar on all valid states of fewer characters than its
-- fuel.
pub recurse-Refines :
    {T T' : Type 0} {abs : Memory → T → T'} (func : Parser T → Parser T) (g : Grammar T') (fuel : ℕ)
    → ((k : ℕ) (p : Parser T) → Refines abs k p g → Refines abs (suc k) (func p) g)
    → Refines abs fuel (recurse fuel func) g
recurse-Refines func g fuel step =
    recurse-Refines_depth func (λ _. g) fuel fuel (λ k p _. step k p) (omega arith)
