-- ===== src/Combinators/Match/Grammars.antt =====
-- `match` and `join` of include/noam/util/combinator_types.hpp implement sequences of grammars.
use noam.Base.{
  ℕ, ◌-◌, ◌<◌, ◌≡◌, refl, Bool, true, false, ◌&&◌, List, [], ◌∷◌, Option, none, some, ◌>>=◌,
  if◌then◌else◌, Bool-cases, Option-cases, inl, inr, arith,
}
use noam.Combinators.Match.{AnyParser, all_always_good, update_each, update_while, match, join}
use noam.Parser.{Parser, update_state}
use noam.Parser.Refines.{
  Grammar, Refines, Returns, Returns-ok, Returns-fail, Returns-tail, Returns-weaken, IsTail,
  IsTail_refl, IsTail_trans, IsTail-IsValid, parse-Refines, attempt-Refines,
}
use noam.Result.{Result, DefaultConstructible, Empty, empty, Empty-default, good, null_result}
use noam.State.{State, Memory}
use noam.State.View.{IsValid, view}

-- One grammar behind another.
abbrev pub match_grammar : List (Grammar Empty) → Grammar Empty
match_grammar [] l = some (empty, l)
match_grammar (g ∷ gs) l = do (_, rest) ← g l; match_grammar gs rest

abbrev pub join_grammar : {B : Type 0} → List (Grammar Empty) → Grammar B → Grammar B
join_grammar gs g l = do (_, rest) ← match_grammar gs l; g rest

-- Each parser implements the grammar at its place, whatever its values.
pub data AllRefine (n : ℕ) : List AnyParser → List (Grammar Empty) → Type 1 where
  nil : AllRefine n [] []
  cons :
      {p : AnyParser} {g : Grammar Empty} {ps : List AnyParser} {gs : List (Grammar Empty)}
      → Refines (λ m v. empty) n p.parser g
      → AllRefine n ps gs
      → AllRefine n (p ∷ ps) (g ∷ gs)

pub update_state-good :
    {A : Type 0} (always_good : Bool) (r : Result A) (st : State)
    → good always_good r ≡ true
    → update_state always_good r st ≡ (true, r.state)
update_state-good always_good r st h = ground arith

pub update_state-bad :
    {A : Type 0} (always_good : Bool) (r : Result A) (st : State)
    → good always_good r ≡ false
    → update_state always_good r st ≡ (false, st)
update_state-bad always_good r st h = ground arith

and-eq-true : (a b : Bool) → (a && b) ≡ true → (a ≡ true) × (b ≡ true)
and-eq-true a b h = ground arith

-- Where all parsers are always good, the two folds do the same.
update_while-update_each :
    (ps : List AnyParser) (m : Memory) (st : State)
    → all_always_good ps ≡ true
    → update_while ps m st ≡ (update_each ps m st >>= λ st'. some (true, st'))
unfolding update_while update_each all_always_good
update_while-update_each [] m st h = refl
update_while-update_each (p ∷ ps) m st h = elim (Option-cases (p.parser.parse m st)) [
  | inl e ↦ rw e
  | inr (r, e) ↦
      let (first, others) = and-eq-true p.parser.always_good (all_always_good ps) h in
      rw (e, first) (update_while-update_each ps m r.state others)
]

-- How the fold ends, by what the grammar says.
abbrev Ends : Memory → State → Option (Bool × State) → Option (Empty × List ℕ) → Type 0
Ends m st o none = (st' : State) × (o ≡ some (false, st'))
Ends m st o (some (_, rest)) =
    (st' : State) × (o ≡ some (true, st')) × IsTail st st' × (view m st' ≡ rest)

update_while-Ends :
    {n : ℕ} {ps : List AnyParser} {gs : List (Grammar Empty)} (m : Memory) (st : State)
    → AllRefine n ps gs
    → IsValid st
    → st.end - st.begin < n
    → Ends m st (update_while ps m st) (match_grammar gs (view m st))
unfolding update_while
update_while-Ends m st nil v l = (st, refl, IsTail_refl v, refl)
update_while-Ends m st (cons {p} {g} {ps} {gs} h hs) v l =
    parse-Refines p.parser g (λ o. Ends m st o (match_grammar (g ∷ gs) (view m st))) m st _ h v l
      (λ r e ok t.
        rw (e, update_state-good p.parser.always_good r st ok)
          (Ends-tail _ _ t (update_while-Ends m r.state hs (IsTail-IsValid v t) (omega arith))))
      (λ r e bad. rw (e, update_state-bad p.parser.always_good r st bad) (st, refl))
  where
    Ends-tail :
        {st' : State} (o : Option (Bool × State)) (said : Option (Empty × List ℕ))
        → IsTail st st'
        → Ends m st' o said
        → Ends m st o said
    Ends-tail o none t h = h
    Ends-tail o (some (_, rest)) t (st'', e, u, left) = (st'', e, IsTail_trans t u, left)

-- `match` by its second branch alone.
match-update_while :
    (ps : List AnyParser) (m : Memory) (st : State)
    → (match ps).parse m st ≡ (
        update_while ps m st >>= λ (matched, st').
        some (if matched then record { state = st'; value = empty } else null_result))
unfolding match
match-update_while ps m st = elim (Bool-cases (all_always_good ps)) [
  | inr h ↦ rw h
  | inl h ↦
      rw (h, update_while-update_each ps m st h)
        (elim (Option-cases (update_each ps m st)) [ inl e ↦ rw e | inr (st', e) ↦ rw e ])
]

module _ {n : ℕ} {ps : List AnyParser} {gs : List (Grammar Empty)} (hs : AllRefine n ps gs) where
  match-Returns :
      (m : Memory) (st : State)
      → IsValid st
      → (said : Option (Empty × List ℕ)) → Ends m st (update_while ps m st) said
      → Returns (λ m v. empty) (all_always_good ps) m st ((match ps).parse m st) said
  match-Returns m st v none (st', e) = elim (Bool-cases (all_always_good ps)) [
    | inr h ↦ rw (match-update_while ps m st, e, h) (Returns-fail (λ m v. empty) m st)
    | inl h ↦ elim (Option-cases (update_each ps m st)) [
      | inl none_left ↦ cc (update_while-update_each ps m st h, e, none_left)
      | inr (st'', found) ↦ cc (update_while-update_each ps m st h, e, found)
    ]
  ]
  match-Returns m st v (some (empty, rest)) (st', e, t, left) =
      rw (match-update_while ps m st, e, ← left)
        (Returns-ok (λ m v. empty) (all_always_good ps) m (record { state = st'; value = empty }) v
          t)

  -- `match` of parsers that implement grammars takes what they take, one behind another, and fails
  -- where one of them fails.
  pub match-Refines : Refines (λ m v. empty) n (match ps) (match_grammar gs)
  unfolding match
  match-Refines = record {
    returns = λ m st v l.
        match-Returns m st v (match_grammar gs (view m st)) (update_while-Ends m st hs v l);
  }

  match_is_good :
      (r : Result Empty) → all_always_good ps ≡ true → good (match ps).always_good r ≡ true
  unfolding match
  match_is_good r h = rw h

  -- `join` of parsers that implement grammars takes what `match` of the first parsers takes, and
  -- goes on with the last parser, whose value it has. It succeeds exactly where all of them succeed.
  pub join-Refines :
      {A A' : Type 0} ⦃d : DefaultConstructible A⦄ {abs : Memory → A → A'} {p : Parser A}
      {g : Grammar A'}
      → Refines abs n p g
      → Refines abs n (join ps p) (join_grammar gs g)
  unfolding join
  join-Refines {abs} {p} {g} h = record {
    returns = λ m st v l. elim (Bool-cases (all_always_good ps)) [
      | inr some_may_fail ↦ rw some_may_fail (
          attempt-Refines (match ps) (match_grammar gs)
            (λ o. Returns abs false m st o (join_grammar gs g (view m st))) m st _ _ match-Refines v
            l
            (λ r e t. rw e (
              let w = IsTail-IsValid v t in
              Returns-tail abs false m _ _ t (
                Returns-weaken abs p.always_good m r.state _ _ w
                  (h.returns m r.state w (omega arith)))))
            (λ e _. rw e (Returns-fail abs m st)))
      | inl none_fails ↦ rw none_fails (
          parse-Refines (match ps) (match_grammar gs)
            (λ o. Returns abs p.always_good m st o (join_grammar gs g (view m st))) m st _
            match-Refines v l
            (λ r e ok t. rw e (
              Returns-tail abs p.always_good m _ _ t
                (h.returns m r.state (IsTail-IsValid v t) (omega arith))))
            (λ r e bad. cc (match_is_good r none_fails, bad)))
    ];
  }
