-- ===== src/Combinators/Basic/Grammars.antt =====
-- The basic combinators of include/noam/util/combinator_types.hpp and include/noam/operators.hpp
-- implement the combinators of grammars.
use noam.Base.{ℕ, ◌≡◌, true, false, some, ◌>>=◌, arith}
use noam.Combinators.Basic.{pure, map, enclose, ◌>>◌}
use noam.Parser.{Parser}
use noam.Parser.Refines.{
  Grammar, Refines, Returns, IsTail_refl, IsTail_trans, IsTail-IsValid, Returns-ok, Returns-fail,
  attempt-Refines, always_good-attempt,
}
use noam.Result.{DefaultConstructible, null_result}
use noam.State.{Memory}
use noam.State.View.{view}

abbrev pub pure_grammar : {A : Type 0} → A → Grammar A
pure_grammar a l = some (a, l)

module _ {A B : Type 0} where
  abbrev pub map_grammar : (A → B) → Grammar A → Grammar B
  map_grammar f g l = do (a, rest) ← g l; some (f a, rest)

  abbrev pub then_grammar : Grammar A → Grammar B → Grammar B
  then_grammar g h l = do (_, rest) ← g l; h rest

abbrev pub enclose_grammar : {P A Q : Type 0} → Grammar P → Grammar A → Grammar Q → Grammar A
enclose_grammar f g h l = do (_, l1) ← f l; (a, l2) ← g l1; (_, l3) ← h l2; some (a, l3)

module _ {A A' : Type 0} (abs : Memory → A → A') where
  pub pure-Refines :
      (n : ℕ) (value : A) (value' : A')
      → ((m : Memory) → abs m value ≡ value')
      → Refines abs n (pure value) (pure_grammar value')
  unfolding pure
  pure-Refines n value value' e = record {
    returns = λ m st v l.
        rw (← e m) (Returns-ok abs true m (record { state = st; value = value }) v (IsTail_refl v));
  }

module _ {A A' B B' : Type 0} {absA : Memory → A → A'} {absB : Memory → B → B'} {n : ℕ} where
  -- `map` of a function over a parser that implements a grammar takes what the parser takes, with
  -- the function of its value, and fails where it fails.
  pub map-Refines :
      ⦃d : DefaultConstructible B⦄ {p : Parser A} {g : Grammar A'} (f : A → B) (f' : A' → B')
      → ((m : Memory) (a : A) → absB m (f a) ≡ f' (absA m a))
      → Refines absA n p g
      → Refines absB n (map f p) (map_grammar f' g)
  unfolding map
  map-Refines {p} {g} f f' same h = record {
    returns = λ m st v l.
        rw
          (always_good-attempt p m st (λ r. some (record { state = r.state; value = f r.value }))
            (some null_result))
          (attempt-Refines p g
            (λ o. Returns absB p.always_good m st o (map_grammar f' g (view m st))) m st
            (λ r. some (record { state = r.state; value = f r.value })) (some null_result) h v l
            (λ r e t. rw (e, ← same m r.value) (Returns-ok absB p.always_good m _ v t))
            (λ e e'. rw (e, e') (Returns-fail absB m st)));
  }

  -- `p >> q` takes what the parser `p` takes and what the parser `q` takes behind it, with the value
  -- of `q`, and fails where one of them fails, provided that both implement a grammar.
  pub >>-Refines :
      ⦃d : DefaultConstructible B⦄ {p : Parser A} {q : Parser B} {g : Grammar A'} {h : Grammar B'}
      → Refines absA n p g
      → Refines absB n q h
      → Refines absB n (p >> q) (then_grammar g h)
  unfolding ◌>>◌
  >>-Refines {p} {q} {g} {h} hp hq = record {
    returns = λ m st v l.
        attempt-Refines p g (λ o. Returns absB false m st o (then_grammar g h (view m st))) m st _ _
          hp v l
          (λ r e t. rw e (
            attempt-Refines q h (λ o. Returns absB false m st o (h (view m r.state))) m r.state _ _
              hq (IsTail-IsValid v t) (omega arith)
              (λ r2 e2 t2. rw e2 (Returns-ok absB false m _ v (IsTail_trans t t2)))
              (λ e2 _. rw e2 (Returns-fail absB m st))))
          (λ e _. rw e (Returns-fail absB m st));
  }

module _ {P A A' Q P' Q' : Type 0} {absP : Memory → P → P'} {absA : Memory → A → A'}
    {absQ : Memory → Q → Q'} {n : ℕ} where
  -- `enclose` of three parsers that implement grammars takes what they take in turn, has the value
  -- of the middle one, and fails where one of them fails.
  pub enclose-Refines :
      ⦃d : DefaultConstructible A⦄ {pre : Parser P} {p : Parser A} {post : Parser Q}
      {f : Grammar P'} {g : Grammar A'} {h : Grammar Q'}
      → Refines absP n pre f
      → Refines absA n p g
      → Refines absQ n post h
      → Refines absA n (enclose pre p post) (enclose_grammar f g h)
  unfolding enclose
  enclose-Refines {pre} {p} {post} {f} {g} {h} hf hg hh = record {
    returns = λ m st v l.
        attempt-Refines pre f (λ o. Returns absA false m st o (enclose_grammar f g h (view m st))) m
          st _ _ hf v l
          (λ r1 e1 t1. rw e1 (
            attempt-Refines p g
              (λ o.
                Returns absA false m st o
                  (g (view m r1.state) >>= λ (a, l2). h l2 >>= λ (_, l3). some (a, l3)))
              m r1.state _ _ hg (IsTail-IsValid v t1) (omega arith)
              (λ r2 e2 t2. rw e2 (
                let t = IsTail_trans t1 t2 in
                attempt-Refines post h
                  (λ o.
                    Returns absA false m st o
                      (h (view m r2.state) >>= λ (_, l3). some (absA m r2.value, l3)))
                  m r2.state _ _ hh (IsTail-IsValid v t) (omega arith)
                  (λ r3 e3 t3. rw e3 (
                    Returns-ok absA false m (record { state = r3.state; value = r2.value }) v
                      (IsTail_trans t t3)))
                  (λ e3 _. rw e3 (Returns-fail absA m st))))
              (λ e2 _. rw e2 (Returns-fail absA m st))))
          (λ e1 _. rw e1 (Returns-fail absA m st));
  }
