-- ===== src/Parser/Refines.antt =====
-- What it means that a parser implements a grammar over lists of characters.
use noam.Base.{
  ℕ, ◌-◌, ◌≤◌, ◌<◌, ◌≡◌, ◌∙◌, refl, Bool, true, false, ◌||◌, ◌>>=◌, Option, none, some, List,
  if◌then◌else◌, arith,
}
use noam.Parser.{Parser, attempt}
use noam.Result.{Result, good, null_result, DefaultConstructible, Empty, empty}
use noam.State
use noam.State.{State, Memory}
use noam.State.View.{view, IsValid}

-- A grammar takes the characters to a value and the rest, or fails.
abbrev pub Grammar {ℓ} : Type ℓ → Type ℓ
Grammar B = List ℕ → Option (B × List ℕ)

-- The state stands at or behind `st`, within it, and has the same end.
pub record IsTail (st st' : State) : Type 0 where
  pub from : st.begin ≤ st'.begin
  pub within : st'.begin ≤ st.end
  pub ends : st'.end ≡ st.end

pub IsTail-IsValid : {st st' : State} → IsValid st → IsTail st st' → IsValid st'
IsTail-IsValid v t = omega arith

pub IsTail_trans : {st st' st'' : State} → IsTail st st' → IsTail st' st'' → IsTail st st''
IsTail_trans t u = omega arith

pub IsTail_refl : {st : State} → IsValid st → IsTail st st
IsTail_refl v = record { from = omega arith; within = v.ordered; ends = refl }

module _ {A B : Type 0} (abs : Memory → A → B) where
  -- A result agrees with what the grammar says: it fails with the grammar, or it is good and has
  -- the value and the rest, as a tail of the state that was given.
  abbrev pub Agrees : Bool → Memory → State → Result A → Option (B × List ℕ) → Type 0
  Agrees always_good m st r none = good always_good r ≡ false
  Agrees always_good m st r (some (b, rest)) =
      (good always_good r ≡ true)
      × (abs m r.value ≡ b)
      × IsTail st r.state
      × (view m r.state ≡ rest)

  -- The call returns, with a result that agrees.
  abbrev pub Returns : Bool → Memory → State → Option (Result A) → Option (B × List ℕ) → Type 0
  Returns always_good m st o said = (r : Result A) × (o ≡ some r) × Agrees always_good m st r said

  -- The parser implements the grammar on every valid state of fewer than `n` characters. Values
  -- are read through `abs`, since a value may be a view into the memory.
  pub record Refines (n : ℕ) (p : Parser A) (grammar : Grammar B) : Type 0 where
    pub returns :
        (m : Memory) (st : State)
        → IsValid st
        → st.end - st.begin < n
        → Returns p.always_good m st (p.parse m st) (grammar (view m st))

pub or-eq-false : (a b : Bool) → (a || b) ≡ false → a ≡ false
or-eq-false a b h = ground arith

module _ {A B : Type 0} {abs : Memory → A → B} where
  -- The two outcomes of `attempt`, with what the grammar says of each.
  pub attempt-Refines :
      {R : Type 0} {n : ℕ} (p : Parser A) (g : Grammar B) (P : Option R → Type 0) (m : Memory)
      (st : State) (succeed : Result A → Option R) (fail : Option R)
      → Refines abs n p g
      → IsValid st
      → st.end - st.begin < n
      → ((r : Result A)
          → g (view m st) ≡ some (abs m r.value, view m r.state)
          → IsTail st r.state
          → P (succeed r))
      → (g (view m st) ≡ none → p.always_good ≡ false → P fail)
      → P (attempt p m st succeed fail)
  attempt-Refines {R} {n} p g P m st succeed fail h v l yes_case no_case =
      let (r, e, a) = h.returns m st v l in rw e (go r (g (view m st)) refl a)
    where
      go :
          (r : Result A) (said : Option (B × List ℕ))
          → g (view m st) ≡ said
          → Agrees abs p.always_good m st r said
          → P (if good p.always_good r then succeed r else fail)
      go r none q a = rw a (no_case q (or-eq-false p.always_good (State.good r.state) a))
      go r (some (b, rest)) q (ok, value, tail, left) =
          rw ok (yes_case r (q ∙ rw (value, left)) tail)

module _ {A B : Type 0} {abs : Memory → A → B} where
  -- A call, whatever is done with its result, with what the grammar says of each outcome.
  pub parse-Refines :
      {R : Type 0} {n : ℕ} (p : Parser A) (g : Grammar B) (P : Option R → Type 0) (m : Memory)
      (st : State) (k : Result A → Option R)
      → Refines abs n p g
      → IsValid st
      → st.end - st.begin < n
      → ((r : Result A)
          → g (view m st) ≡ some (abs m r.value, view m r.state)
          → good p.always_good r ≡ true
          → IsTail st r.state
          → P (k r))
      → ((r : Result A) → g (view m st) ≡ none → good p.always_good r ≡ false → P (k r))
      → P (p.parse m st >>= k)
  parse-Refines {R} {n} p g P m st k h v l yes_case no_case =
      let (r, e, a) = h.returns m st v l in rw e (go r (g (view m st)) refl a)
    where
      go :
          (r : Result A) (said : Option (B × List ℕ))
          → g (view m st) ≡ said
          → Agrees abs p.always_good m st r said
          → P (k r)
      go r none q a = no_case r q a
      go r (some (b, rest)) q (ok, value, tail, left) = yes_case r (q ∙ rw (value, left)) ok tail

module _ {A B : Type 0} (abs : Memory → A → B) where
  pub Returns-fail :
      ⦃d : DefaultConstructible A⦄ (m : Memory) (st : State)
      → Returns abs false m st (some null_result) none
  Returns-fail m st = (null_result, refl, refl)

  pub Returns-ok :
      (always_good : Bool) (m : Memory) {st : State} (r : Result A)
      → IsValid st
      → IsTail st r.state
      → Returns abs always_good m st (some r) (some (abs m r.value, view m r.state))
  Returns-ok always_good m r v t = (r, refl, (ground (arith, t.from, v.nonnull), refl, t, refl))

  -- What agrees at a tail agrees at the state itself.
  pub Returns-tail :
      (always_good : Bool) (m : Memory) {st st' : State} (o : Option (Result A))
      (said : Option (B × List ℕ))
      → IsTail st st'
      → Returns abs always_good m st' o said
      → Returns abs always_good m st o said
  Returns-tail always_good m o none t (r, e, a) = (r, e, a)
  Returns-tail always_good m o (some (b, rest)) t (r, e, (ok, value, u, left)) =
      (r, e, (ok, value, IsTail_trans t u, left))

-- The branch for a parser that is always good does as `attempt` does.
pub always_good-attempt :
    {A R : Type 0} (p : Parser A) (m : Memory) (st : State) (succeed : Result A → Option R)
    (fail : Option R)
    → (if p.always_good then (p.parse m st >>= succeed) else attempt p m st succeed fail)
      ≡ attempt p m st succeed fail
always_good-attempt p m st succeed fail = ground arith

-- Without the mark of a parser that is always good: a state that agrees is not null.
pub Returns-weaken :
    {A B : Type 0} (abs : Memory → A → B) (always_good : Bool) (m : Memory) (st : State)
    (o : Option (Result A)) (said : Option (B × List ℕ))
    → IsValid st
    → Returns abs always_good m st o said
    → Returns abs false m st o said
Returns-weaken abs always_good m st o none v (r, e, bad) = (r, e, ground arith)
Returns-weaken abs always_good m st o (some (b, rest)) v (r, e, (ok, value, t, left)) =
    (r, e, (ground (arith, t.from, v.nonnull), value, t, left))

-- A grammar without its values.
abbrev pub forget_grammar : {B : Type 0} → Grammar B → Grammar Empty
forget_grammar g l = do (_, rest) ← g l; some (empty, rest)

pub forget-Refines :
    {A B : Type 0} {abs : Memory → A → B} {n : ℕ} {p : Parser A} {g : Grammar B}
    → Refines abs n p g
    → Refines (λ m v. empty) n p (forget_grammar g)
forget-Refines {A} {B} {abs} {p} {g} h = record {
  returns = λ m st v l. let (r, e, a) = h.returns m st v l in (r, e, go m st r (g (view m st)) a);
}
  where
    go :
        (m : Memory) (st : State) (r : Result A) (said : Option (B × List ℕ))
        → Agrees abs p.always_good m st r said
        → Agrees (λ m v. empty) p.always_good m st r (said >>= λ (_, rest). some (empty, rest))
    go m st r none a = a
    go m st r (some (b, rest)) (ok, value, t, left) = (ok, refl, t, left)

-- The two outcomes of `parse_assign` and `parse_assign_value`.
module _ {A R : Type 0} (p : Parser A) (r : Result A) (x y : R) where
  pub assign-good :
      good p.always_good r ≡ true
      → (if p.always_good then x else if good p.always_good r then x else y) ≡ x
  assign-good h = ground arith

  pub assign-bad :
      good p.always_good r ≡ false
      → (if p.always_good then x else if good p.always_good r then x else y) ≡ y
  assign-bad h = ground arith

-- Where a parser that implements a grammar succeeds, it leaves a tail.
pub Refines-IsTail :
    {A B : Type 0} {abs : Memory → A → B} {n : ℕ} {p : Parser A} {g : Grammar B} (m : Memory)
    (st : State) (r : Result A)
    → Refines abs n p g
    → IsValid st
    → st.end - st.begin < n
    → p.parse m st ≡ some r
    → good p.always_good r ≡ true
    → IsTail st r.state
Refines-IsTail {A} {B} {abs} {p} {g} m st r h v l e ok =
    let (r', e', a) = h.returns m st v l in
    let same : r' ≡ r = cc (e, e') in rw same at (tail r' (g (view m st)) (rw (← same) at ok) a)
  where
    tail :
        (r' : Result A) (said : Option (B × List ℕ))
        → good p.always_good r' ≡ true
        → Agrees abs p.always_good m st r' said
        → IsTail st r'.state
    tail r' none ok bad = cc (ok, bad)
    tail r' (some (b, rest)) ok (_, _, t, _) = t

-- What holds of states of fewer characters.
pub Refines-le :
    {A B : Type 0} {abs : Memory → A → B} {n k : ℕ} {p : Parser A} {g : Grammar B}
    → k ≤ n
    → Refines abs n p g
    → Refines abs k p g
Refines-le le h = record { returns = λ m st v l. h.returns m st v (omega arith) }
