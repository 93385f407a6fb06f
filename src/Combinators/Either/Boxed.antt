-- ===== src/Combinators/Either/Boxed.antt =====
-- `either` of include/noam/combinators.hpp for a type that is not default constructible: the value
-- stands in a `box`, which is empty at first, and opening an empty box throws, which is `none`.
use noam.Base.{
  ◌≡◌, refl, not, Bool, true, false, ◌||◌, List, [], ◌∷◌, map, Option, none, some, if◌then◌else◌,
  ◌>>=◌, Bool-cases, Option-cases, inl, inr, arith,
}
use noam.Combinators.Either.{either, any_always_good, assign_first}
use noam.Parser.{Parser, parse_assign_value}
use noam.Result.{DefaultConstructible}
use noam.Result.Optional.{OptionalResult, null_optional, assign_optional}
use noam.State
use noam.State.{State, Memory}

-- A parser whose values may have no default.
pub record BoxedParser (A : Type 0) : Type 0 where
  pub always_good : Bool
  pub parse : Memory → State → Option (OptionalResult A)

-- `box`: `value()` throws where there is none.
abbrev pub Box : Type 0 → Type 0
Box A = Option A

module _ {A : Type 0} where
  -- `parse_assign_value(st, parser, val)`: whether the result is good, and `st` and `val`.
  unfoldable pub assign_boxed :
      BoxedParser A → Memory → State → Box A → Option (Bool × State × Box A)
  assign_boxed p m st val = do
    r ← p.parse m st
    elim r.value [
      | some v ↦ some (true, r.state, some v)
      | none ↦ if p.always_good then none else some (false, st, val)
    ]

  -- `(parse_assign_value(st, p, val) || ...)`
  unfoldable pub assign_first_boxed :
      List (BoxedParser A) → Memory → State → Box A → Option (Bool × State × Box A)
  assign_first_boxed [] m st val = some (false, st, val)
  assign_first_boxed (p ∷ ps) m st val = do
    (found, st', val') ← assign_boxed p m st val
    if found then some (true, st', val') else assign_first_boxed ps m st' val'

  unfoldable pub any_boxed_always_good : List (BoxedParser A) → Bool
  any_boxed_always_good [] = false
  any_boxed_always_good (p ∷ ps) = p.always_good || any_boxed_always_good ps

  -- `{st, std::move(val)}`
  abbrev pub opened : State → Box A → Option (OptionalResult A)
  opened st val = do v ← val; some (record { state = st; value = some v })

  unfoldable pub either_boxed : List (BoxedParser A) → BoxedParser A
  either_boxed ps =
      let good = any_boxed_always_good ps in
      record {
        always_good = good;
        parse = λ m st. do
          (found, st', val) ← assign_first_boxed ps m st none
          if good then opened st' val else if found then opened st' val else some null_optional;
      }

  -- The parser with its results assigned to `result<Value>`.
  abbrev pub boxed : Parser A → BoxedParser A
  boxed p = record {
    always_good = p.always_good;
    parse = λ m st. (do r ← p.parse m st; some (assign_optional p.always_good r));
  }

  any_boxed_always_good-boxed :
      (ps : List (Parser A)) → any_boxed_always_good (map boxed ps) ≡ any_always_good ps
  unfolding any_boxed_always_good any_always_good
  any_boxed_always_good-boxed [] = refl
  any_boxed_always_good-boxed (p ∷ ps) = rw (any_boxed_always_good-boxed ps)

  -- The value that was found, in a box.
  abbrev in_box : Bool × State × A → Bool × State × Box A
  in_box (found, st, val) = (found, st, if found then some val else none)

  assign_first_boxed-boxed :
      (ps : List (Parser A)) (m : Memory) (st : State) (val : A)
      → assign_first_boxed (map boxed ps) m st none
        ≡ (assign_first ps m st val >>= λ done. some (in_box done))
  unfolding assign_first_boxed assign_boxed assign_first parse_assign_value
  assign_first_boxed-boxed [] m st val = refl
  assign_first_boxed-boxed (p ∷ ps) m st val = elim (Option-cases (p.parse m st)) [
    | inl e ↦ rw e refl
    | inr (r, e) ↦ rw e (elim (Bool-cases p.always_good) [
      | inl h ↦ rw h refl
      | inr h ↦ rw h (elim (Bool-cases (State.good r.state)) [
        | inl k ↦ rw k refl
        | inr k ↦ rw (k, h) (assign_first_boxed-boxed ps m st val)
      ])
    ])
  ]

  -- An alternative that is always good is found, and without one what is found has a good state.
  assign_first-found :
      (ps : List (Parser A)) (m : Memory) (st st' : State) (val val' : A) (found : Bool)
      → assign_first ps m st val ≡ some (found, st', val')
      → (any_always_good ps || not found || State.good st' ≡ true)
        × (not (any_always_good ps) || found ≡ true)
  unfolding assign_first any_always_good parse_assign_value
  assign_first-found [] m st st' val val' found h =
      let same : false ≡ found = cc in rw (← same) (refl, refl)
  assign_first-found (p ∷ ps) m st st' val val' found h = elim (Option-cases (p.parse m st)) [
    | inl e ↦ cc (rw e at h)
    | inr (r, e) ↦ elim (Bool-cases p.always_good) [
      | inl k ↦ let same : true ≡ found = cc (rw (e, k) at h) in rw (k, ← same) (refl, refl)
      | inr k ↦ elim (Bool-cases (State.good r.state)) [
        | inl k' ↦
            let same : true ≡ found = cc (rw (e, k, k') at h) in
            let same' : r.state ≡ st' = cc (rw (e, k, k') at h) in
            rw (k, ← same, ← same', k') (ground arith)
        | inr k' ↦ rw k (assign_first-found ps m st st' val val' found (rw (e, k, k') at h))
      ]
    ]
  ]

  -- For parsers of default constructible values, whose results are assigned to the results for
  -- values without a default, `either` with a box does what `either` without one does: it returns
  -- where that returns, with the same result, assigned to one for values without a default.
  pub either_boxed-either :
      ⦃d : DefaultConstructible A⦄ (ps : List (Parser A)) (m : Memory) (st : State)
      → (either_boxed (map boxed ps)).parse m st
        ≡ ((either ps).parse m st >>= λ r. some (assign_optional (either ps).always_good r))
  unfolding either_boxed either
  either_boxed-either ⦃d⦄ ps m st =
      rw (any_boxed_always_good-boxed ps, assign_first_boxed-boxed ps m st d.default)
        (elim (Option-cases (assign_first ps m st d.default)) [
          | inl e ↦ rw e refl
          | inr ((found, st', val), e) ↦
              let (at_end, always) = assign_first-found ps m st st' d.default val found e in
              rw e (elim (Bool-cases (any_always_good ps)) [
                | inl h ↦ let k : found ≡ true = rw h at always in rw (h, k) refl
                | inr h ↦ elim (Bool-cases found) [
                  | inl k ↦
                      let ok : State.good st' ≡ true = rw (h, k) at at_end in rw (h, k, ok) refl
                  | inr k ↦ rw (h, k) refl
                ]
              ])
        ])
