-- ===== src/Combinators/Make/Arguments.antt =====
-- `make` of include/noam/combinators.hpp implements the sequence of the grammars of its arguments.
use noam.Base.{
  ℕ, ◌-◌, ◌<◌, ◌≡◌, refl, Bool, true, false, List, Option, none, some, ◌>>=◌, if◌then◌else◌, arith,
}
use noam.Combinators.Make.{Parsers, assign_each, make}
use noam.Parser.{Parser, parse_assign}
use noam.Parser.Refines.{
  Grammar, Refines, Agrees, assign-good, assign-bad, Returns, Returns-ok, Returns-fail, IsTail,
  IsTail_refl, IsTail_trans, IsTail-IsValid,
}
use noam.Result.{Result, DefaultConstructible, good}
use noam.State.{State, Memory}
use noam.State.View.{IsValid, view}

-- Grammars for the arguments of a constructor.
pub data Grammars (T : Type 0) : Type 0 → Type 1 where
  finished : Grammars T T
  another : {A C : Type 0} → Grammar A → Grammars T C → Grammars T (A → C)

-- One grammar behind another, and the constructor applied to their values.
abbrev pub make_grammar : {T C : Type 0} → Grammars T C → C → Grammar T
make_grammar Grammars.finished value l = some (value, l)
make_grammar (Grammars.another g gs) constructor l = do
  (a, rest) ← g l
  make_grammar gs (constructor a) rest

module _ {T T' : Type 0} (abs : Memory → T → T') (n : ℕ) where
  -- Each parser implements the grammar at its place.
  pub data AllRefine : (C C' : Type 0) → Parsers T C → Grammars T' C' → Type 1 where
    all_read : AllRefine T T' Parsers.no_more Grammars.finished
    one_more :
        {A A' C C' : Type 0} {abs_arg : Memory → A → A'} {d : DefaultConstructible A} {p : Parser A}
        {g : Grammar A'} {ps : Parsers T C} {gs : Grammars T' C'}
        → Refines abs_arg n p g
        → AllRefine C C' ps gs
        → AllRefine (A → C) (A' → C') (Parsers.next d p ps) (Grammars.another g gs)

  -- The constructor of the values that are read does as that of the grammars.
  abbrev pub Constructs :
      {C C' : Type 0} {ps : Parsers T C} {gs : Grammars T' C'}
      → AllRefine C C' ps gs
      → Memory
      → C
      → C'
      → Type 0
  Constructs AllRefine.all_read m value value' = abs m value ≡ value'
  Constructs (AllRefine.one_more {A} {abs_arg} h hs) m make_value make_value' =
      (a : A) → Constructs hs m (make_value a) (make_value' (abs_arg m a))

  -- How the fold ends.
  abbrev Ends : Memory → State → Option (State × Option T) → Option (T' × List ℕ) → Type 0
  Ends m st o none = (st' : State) × (o ≡ some (st', none))
  Ends m st o (some (b, rest)) =
      (st' : State) × (value : T) × (o ≡ some (st', some value))
      × (abs m value ≡ b)
      × IsTail st st'
      × (view m st' ≡ rest)

  Ends-tail :
      (m : Memory) {st st' : State} (o : Option (State × Option T)) (said : Option (T' × List ℕ))
      → IsTail st st'
      → Ends m st' o said
      → Ends m st o said
  Ends-tail m o none t h = h
  Ends-tail m o (some (b, rest)) t (st'', value, e, same, u, left) =
      (st'', value, e, same, IsTail_trans t u, left)

  -- What the first parser does is taken, and the others go on behind it; or it fails.
  assign_each-step :
      {A A' C C' : Type 0} (abs_arg : Memory → A → A') (p : Parser A) (ps : Parsers T C)
      (gs : Grammars T' C') (make_value : A → C) (make_value' : A' → C') (m : Memory) (st : State)
      (r : Result A) (said : Option (A' × List ℕ))
      → Agrees abs_arg p.always_good m st r said
      → (IsTail st r.state
          → Ends m r.state
              (assign_each ps (make_value r.value) m r.state)
              (make_grammar gs (make_value' (abs_arg m r.value)) (view m r.state)))
      → Ends m st
          ((if p.always_good
              then some (true, r.state, r)
              else if good p.always_good r
              then some (true, r.state, r)
              else some (false, st, r))
            >>= λ (x : Bool × State × Result A).
                if x.0 then assign_each ps (make_value x.2.value) m x.1 else some (x.1, none))
          (said >>= λ (a, rest). make_grammar gs (make_value' a) rest)
  assign_each-step {A} abs_arg p ps gs c c' m st r none bad others =
      rw
        (assign-bad {R = Option (Bool × State × Result A)} p r (some (true, r.state, r))
          (some (false, st, r)) bad)
        (st, refl)
  assign_each-step {A} abs_arg p ps gs c c' m st r (some (a, rest)) (ok, value, t, left) others =
      rw
        (
          assign-good {R = Option (Bool × State × Result A)} p r (some (true, r.state, r))
              (some (false, st, r)) ok,
          ← value,
          ← left,
        )
        (Ends-tail m _ _ t (others t))

  assign_each-Ends :
      {C C' : Type 0} {ps : Parsers T C} {gs : Grammars T' C'} (m : Memory) (st : State)
      (hs : AllRefine C C' ps gs) (make_value : C) (make_value' : C')
      → Constructs hs m make_value make_value'
      → IsValid st
      → st.end - st.begin < n
      → Ends m st (assign_each ps make_value m st) (make_grammar gs make_value' (view m st))
  unfolding assign_each parse_assign
  assign_each-Ends m st AllRefine.all_read value value' same v l =
      (st, value, refl, same, IsTail_refl v, refl)
  assign_each-Ends m st (AllRefine.one_more {abs_arg} {d} {p} {g} {ps} {gs} h hs) c c' same v l =
      let (r, e, a) = h.returns m st v l in
      rw e (
        assign_each-step abs_arg p ps gs c c' m st r (g (view m st)) a (λ t.
          assign_each-Ends m r.state hs (c r.value) (c' (abs_arg m r.value)) (same r.value)
            (IsTail-IsValid v t) (omega (arith, t))))

  make-Returns :
      {C : Type 0} ⦃d : DefaultConstructible T⦄ (ps : Parsers T C) (constructor : C) (m : Memory)
      (st : State) (said : Option (T' × List ℕ))
      → IsValid st
      → Ends m st (assign_each ps constructor m st) said
      → Returns abs false m st ((make ps constructor).parse m st) said
  unfolding make
  make-Returns ps constructor m st none v (st', e) = rw e (Returns-fail abs m st)
  make-Returns ps constructor m st (some (b, rest)) v (st', value, e, same, t, left) =
      rw (e, ← same, ← left) (Returns-ok abs false m (record { state = st'; value = value }) v t)

  -- `make` of parsers that implement grammars, with a constructor that does as that of the
  -- grammars, takes what its parsers take one behind another, and constructs its value of theirs,
  -- in their order. It fails where one of them fails.
  pub make-Refines :
      {C C' : Type 0} ⦃d : DefaultConstructible T⦄ {ps : Parsers T C} {gs : Grammars T' C'}
      (hs : AllRefine C C' ps gs) (constructor : C) (constructor' : C')
      → ((m : Memory) → Constructs hs m constructor constructor')
      → Refines abs n (make ps constructor) (make_grammar gs constructor')
  unfolding make
  make-Refines {ps} {gs} hs c c' same = record {
    returns = λ m st v l.
        make-Returns ps c m st (make_grammar gs c' (view m st)) v
          (assign_each-Ends m st hs c c' (same m) v l);
  }
