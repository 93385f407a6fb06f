-- ===== src/Combinators/Either/Grammars.antt =====
-- `either` of include/noam/combinators.hpp implements the ordered choice of grammars.
use noam.Base.{
  ℕ, ◌-◌, ◌<◌, ◌≡◌, refl, Bool, true, false, List, [], ◌∷◌, Option, none, some, ◌>>=◌,
  if◌then◌else◌, Bool-cases, inl, inr,
}
use noam.Combinators.Either.{either, any_always_good, assign_first}
use noam.Parser.{Parser, parse_assign_value}
use noam.Parser.Refines.{
  assign-good, assign-bad, Grammar, Refines, Agrees, Returns, Returns-ok, Returns-fail, IsTail,
  or-eq-false,
}
use noam.Result.{Result, DefaultConstructible, good}
use noam.State
use noam.State.{State, Memory}
use noam.State.View.{IsValid, view}

abbrev pub or_else : {R : Type 0} → Option R → Option R → Option R
or_else none other = other
or_else (some r) other = some r

-- What the first grammar says that does not fail.
abbrev pub either_grammar : {B : Type 0} → List (Grammar B) → Grammar B
either_grammar [] l = none
either_grammar (g ∷ gs) l = or_else (g l) (either_grammar gs l)

module _ {A A' : Type 0} (abs : Memory → A → A') where
  -- Each parser implements the grammar at its place.
  pub data AllRefine (n : ℕ) : List (Parser A) → List (Grammar A') → Type 0 where
    nil : AllRefine n [] []
    cons :
        {p : Parser A} {g : Grammar A'} {ps : List (Parser A)} {gs : List (Grammar A')}
        → Refines abs n p g
        → AllRefine n ps gs
        → AllRefine n (p ∷ ps) (g ∷ gs)

  -- How the fold ends, by what the grammar says: with the state and the value as they were.
  abbrev Ends :
      List (Parser A)
      → Memory
      → State
      → A
      → Option (Bool × State × A)
      → Option (A' × List ℕ)
      → Type 0
  Ends ps m st val o none = (o ≡ some (false, st, val)) × (any_always_good ps ≡ false)
  Ends ps m st val o (some (b, rest)) =
      (st' : State) × (val' : A) × (o ≡ some (true, st', val'))
      × (abs m val' ≡ b)
      × IsTail st st'
      × (view m st' ≡ rest)

  -- What the first parser does is taken, or the others go on where it failed.
  assign_first-step :
      (p : Parser A) (ps : List (Parser A)) (m : Memory) (st : State) (val : A) (r : Result A)
      (said others : Option (A' × List ℕ))
      → Agrees abs p.always_good m st r said
      → Ends ps m st val (assign_first ps m st val) others
      → Ends
          (p ∷ ps)
          m
          st
          val
          ((if p.always_good
              then some (true, r.state, r.value)
              else if good p.always_good r
              then some (true, r.state, r.value)
              else some (false, st, val))
            >>= λ (found, st', val').
                if found then some (true, st', val') else assign_first ps m st' val')
          (or_else said others)
  unfolding any_always_good
  assign_first-step p ps m st val r none none bad (e, never) =
      let first = or-eq-false p.always_good (State.good r.state) bad in
      rw
        (
          assign-bad {R = Option (Bool × State × A)} p r (some (true, r.state, r.value))
              (some (false, st, val)) bad,
          first,
        )
        (e, never)
  assign_first-step p ps m st val r none (some (b, rest)) bad others =
      rw
        (assign-bad {R = Option (Bool × State × A)} p r (some (true, r.state, r.value))
          (some (false, st, val)) bad)
        others
  assign_first-step p ps m st val r (some (b, rest)) others (ok, value, t, left) _ =
      rw
        (assign-good {R = Option (Bool × State × A)} p r (some (true, r.state, r.value))
          (some (false, st, val)) ok)
        (r.state, r.value, refl, value, t, left)

  assign_first-Ends :
      {n : ℕ} {ps : List (Parser A)} {gs : List (Grammar A')} (m : Memory) (st : State) (val : A)
      → AllRefine n ps gs
      → IsValid st
      → st.end - st.begin < n
      → Ends ps m st val (assign_first ps m st val) (either_grammar gs (view m st))
  unfolding assign_first any_always_good parse_assign_value
  assign_first-Ends m st val nil v l = (refl, refl)
  assign_first-Ends m st val (cons {p} {g} {ps} {gs} h hs) v l =
      let (r, e, a) = h.returns m st v l in
      rw e (
        assign_first-step p ps m st val r (g (view m st)) (either_grammar gs (view m st)) a
          (assign_first-Ends m st val hs v l))

module _ {A A' : Type 0} ⦃d : DefaultConstructible A⦄ (abs : Memory → A → A') where
  either-Returns :
      (ps : List (Parser A)) (m : Memory) (st : State) (said : Option (A' × List ℕ))
      → IsValid st
      → Ends abs ps m st d.default (assign_first ps m st d.default) said
      → Returns abs (any_always_good ps) m st ((either ps).parse m st) said
  unfolding either
  either-Returns ps m st none v (e, never) = rw (e, never) (Returns-fail abs m st)
  either-Returns ps m st (some (b, rest)) v (st', val', e, value, t, left) =
      elim (Bool-cases (any_always_good ps)) [
        | inl h ↦
            rw (e, h, ← value, ← left)
              (Returns-ok abs true m (record { state = st'; value = val' }) v t)
        | inr h ↦
            rw (e, h, ← value, ← left)
              (Returns-ok abs false m (record { state = st'; value = val' }) v t)
      ]

module _ {A A' : Type 0} ⦃d : DefaultConstructible A⦄ {abs : Memory → A → A'} where
  -- `either` of parsers that implement grammars takes what the first grammar takes that does not
  -- fail, from the state that it was given, and fails where all of them fail.
  pub either-Refines :
      {n : ℕ} {ps : List (Parser A)} {gs : List (Grammar A')}
      → AllRefine abs n ps gs
      → Refines abs n (either ps) (either_grammar gs)
  unfolding either
  either-Refines {ps} {gs} hs = record {
    returns = λ m st v l.
        either-Returns abs ps m st (either_grammar gs (view m st)) v
          (assign_first-Ends abs m st d.default hs v l);
  }
