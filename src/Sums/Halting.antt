-- ===== src/Sums/Halting.antt =====
-- That the coroutines of bench/bench.cpp come to an end, and what they have added up then.
use noam.Base.{
  ℕ, zero, suc, ◌-◌, ◌<◌, ◌≡◌, ◌∙◌, ◌⊎◌, refl, true, false, none, some, Option-cases, inl, inr,
  arith,
}
use noam.Base.Int.{ℤ, add_ℤ}
use noam.Combinators.Basic.Grammars.{then_grammar, >>-Refines}
use noam.Combinators.Consumption.{Consumes, bind-some}
use noam.Combinators.Fold.Many.{Folds, fold_left-Folds, view-shorter}
use noam.Combinators.Lookahead.{test_then, try_parse}
use noam.Combinators.Sequence.Delimited.{separator-Refines}
use noam.Combinators.Sequence.Words.{separator_grammar, separator_grammar-Keeps}
use noam.Coroutine.{Coroutine, co_await, Promise, new_promise, to_result}
use noam.Coroutine.Liveness.{Responds, Reach-Halts}
use noam.Coroutine.Steps.{Point, initial, Reach, IsHalted}
use noam.Intrinsics.Numbers.{ReadsNumbers, charconv-Refines}
use noam.Intrinsics.Words.{FromChars}
use noam.Literal.{char_literal}
use noam.Parser.{Parser}
use noam.Parser.Refines.{Grammar, Refines, IsTail, IsTail-IsValid, Refines-IsTail}
use noam.Result.{Result, good}
use noam.State.{State, Memory}
use noam.State.View.{IsValid, view}
use noam.Sums.{
  ℤ-default, parse_int, comma_int, next_value, test_then_loop, try_parse_loop, test_then_body,
  try_parse_body, add_w_fold, add_w_test_then, add_w_try_parse,
}
use noam.Sums.Agreement.{fold-try_parse, test_then-try_parse}

-- A comma with whitespace around it, and a number.
abbrev pub comma_number : Grammar ℤ → Grammar ℤ
comma_number number = then_grammar (separator_grammar (char_literal b',')) number

comma_number-Consumes : (number : Grammar ℤ) → Consumes number → Consumes (comma_number number)
comma_number-Consumes number c l v rest h =
    let sep = separator_grammar (char_literal b',') in
    let ((a, l'), e, e') = bind-some (sep l) (λ (_, rest). number rest) (v, rest) h in
    omega (arith, separator_grammar-Keeps (char_literal b',') l a l' e, c l' v rest e')

module _ (int_from_chars : FromChars ℤ) (number : Grammar ℤ) (m : Memory) where
  comma_int-Refines :
      (n : ℕ)
      → ReadsNumbers int_from_chars number
      → Refines (λ m v. v) n (comma_int int_from_chars) (comma_number number)
  comma_int-Refines n h =
      >>-Refines (separator-Refines n (char_literal b','))
        (charconv-Refines int_from_chars number n h)

  -- A round of a loop: it fails, or it goes on where there is less.
  comma_int-shorter :
      (st : State)
      → ReadsNumbers int_from_chars number
      → IsValid st
      → (r : Result ℤ) × ((comma_int int_from_chars).parse m st ≡ some r)
        × ((good (comma_int int_from_chars).always_good r ≡ false)
            ⊎ ((good (comma_int int_from_chars).always_good r ≡ true)
                × IsTail st r.state
                × (r.state.end - r.state.begin < st.end - st.begin)))
  comma_int-shorter st h v =
      let refines = comma_int-Refines (suc (st.end - st.begin)) h in
      let (r, e, a) = refines.returns m st v (omega arith) in
      (
        r,
        e,
        elim (Option-cases (comma_number number (view m st))) [
          | inl e' ↦ inl (rw e' at a)
          | inr ((x, rest), e') ↦
              let (ok, _, tail, left) = rw e' at a in
              let less = comma_number-Consumes number h.takes (view m st) x rest e' in
              inr (ok, tail, view-shorter m st r.state (rw left less))
        ],
      )

  test_then_loop-Responds :
      (fuel : ℕ) (sum : ℤ) (st : State)
      → ReadsNumbers int_from_chars number
      → IsValid st
      → st.end - st.begin < fuel
      → Responds m (test_then_loop int_from_chars fuel sum) st
  unfolding test_then_loop next_value test_then
  test_then_loop-Responds zero sum st h v l = absurd (omega arith)
  test_then_loop-Responds (suc fuel) sum st h v l =
      let (r, e, outcome) = comma_int-shorter st h v in
      elim outcome [
        | inl bad ↦ (record { state = st; value = (false, none) }, rw (e, bad) refl, λ _. tt)
        | inr (ok, tail, less) ↦ (
          record { state = r.state; value = (true, some r.value) },
          rw (e, ok) refl,
          λ _.
              test_then_loop-Responds fuel (add_ℤ sum r.value) r.state h (IsTail-IsValid v tail)
                (omega (arith, less, l)),
        )
      ]

  try_parse_loop-Responds :
      (fuel : ℕ) (sum : ℤ) (st : State)
      → ReadsNumbers int_from_chars number
      → IsValid st
      → st.end - st.begin < fuel
      → Responds m (try_parse_loop int_from_chars fuel sum) st
  unfolding try_parse_loop try_parse
  try_parse_loop-Responds zero sum st h v l = absurd (omega arith)
  try_parse_loop-Responds (suc fuel) sum st h v l =
      let (r, e, outcome) = comma_int-shorter st h v in
      elim outcome [
        | inl bad ↦ (record { state = st; value = none }, rw (e, bad) refl, λ _. tt)
        | inr (ok, tail, less) ↦ (
          record { state = r.state; value = some r.value },
          rw (e, ok) refl,
          λ _.
              try_parse_loop-Responds fuel (add_ℤ sum r.value) r.state h (IsTail-IsValid v tail)
                (omega (arith, less, l)),
        )
      ]

  -- The whole body, whose loop may go on from any sum.
  body-Responds :
      (loop : ℕ → ℤ → Coroutine ℤ) (fuel : ℕ) (st : State)
      → ((sum : ℤ) (st' : State)
          → IsValid st'
          → st'.end - st'.begin < fuel
          → Responds m (loop fuel sum) st')
      → ReadsNumbers int_from_chars number
      → IsValid st
      → st.end - st.begin < fuel
      → Responds m (co_await (parse_int int_from_chars) (λ sum. loop fuel sum)) st
  body-Responds loop fuel st on h v l =
      let refines = charconv-Refines int_from_chars number fuel h in
      let (r, e, _) = refines.returns m st v l in
      (
        r,
        e,
        λ ok.
            let tail = Refines-IsTail m st r refines v l e ok in
            on r.value r.state (IsTail-IsValid v tail) (omega (arith, tail, l)),
      )

  -- The result of both coroutines, as a fold of the numbers behind commas.
  sums-Folds :
      (fuel : ℕ) (st : State)
      → ReadsNumbers int_from_chars number
      → IsValid st
      → st.end - st.begin < fuel
      → (r : Result ℤ) × ((add_w_try_parse int_from_chars fuel).parse m st ≡ some r)
        × Folds (λ m v. v) (λ m v. v) add_ℤ add_ℤ (comma_number number) m st r (number (view m st))
  unfolding add_w_fold
  sums-Folds fuel st h v l = rw (← fold-try_parse int_from_chars int_from_chars m st fuel refl) (
      fold_left-Folds (λ m v. v) (λ m v. v) add_ℤ add_ℤ (comma_number number)
        (parse_int int_from_chars) (comma_int int_from_chars) number fuel m st (λ m a b. refl)
        (charconv-Refines int_from_chars number fuel h) (comma_int-Refines fuel h)
        (comma_number-Consumes number h.takes) (omega arith) v l)

  -- From a point of a coroutine on: it comes to a halt, and the call returns the result of the
  -- promise there, which is the sum of the first number and of all that stand behind commas, up to
  -- the last of them, or fails where there is no first number.
  abbrev pub Ends : Parser ℤ → State → Point ℤ → Promise ℤ → Type 1
  Ends parser st p q =
      (p' : Point ℤ) × (q' : Promise ℤ) × IsHalted p'
      × Reach m p q p' q'
      × (parser.parse m st ≡ some (to_result q'))
      × Folds (λ m v. v) (λ m v. v) add_ℤ add_ℤ (comma_number number) m st (to_result q')
          (number (view m st))

  -- A call that returns a fold, and halts from a point with the result `r'`.
  Ends-returned :
      (parser : Parser ℤ) (st : State) (p : Point ℤ) (q : Promise ℤ)
      → ((r : Result ℤ) × (parser.parse m st ≡ some r)
          × Folds
              (λ m v. v)
              (λ m v. v)
              add_ℤ
              add_ℤ
              (comma_number number)
              m
              st
              r
              (number (view m st)))
      → ((p' : Point ℤ) × (q' : Promise ℤ) × IsHalted p'
          × Reach m p q p' q'
          × (parser.parse m st ≡ some (to_result q')))
      → Ends parser st p q
  Ends-returned parser st p q (r, e, folds) (p', q', halted, reach, e') =
      let same : r ≡ to_result q' = cc (e, e') in (p', q', halted, reach, e', rw same at folds)

  -- On a valid state of fewer characters than the fuel, where `std::from_chars` reads numbers of at
  -- least one character by a grammar, the coroutines of `add_w_test_then` and `add_w_try_parse` come
  -- to a halt from every point that they reach. The call returns the result of the promise there:
  -- the sum of the first number and of all that stand behind commas, up to the last of them, or a
  -- failure where there is no first number.
  pub sums-Ends :
      (fuel : ℕ) (st : State) (p p' : Point ℤ) (q q' : Promise ℤ)
      → ReadsNumbers int_from_chars number
      → IsValid st
      → st.end - st.begin < fuel
      → Reach m (initial (test_then_body int_from_chars fuel)) (new_promise st) p q
      → Reach m (initial (try_parse_body int_from_chars fuel)) (new_promise st) p' q'
      → Ends (add_w_test_then int_from_chars fuel) st p q
        × Ends (add_w_try_parse int_from_chars fuel) st p' q'
  unfolding add_w_test_then add_w_try_parse
  sums-Ends fuel st p p' q q' h v l reach reach' =
      let tests =
        body-Responds (test_then_loop int_from_chars) fuel st
          (λ sum st' v' l'. test_then_loop-Responds fuel sum st' h v' l') h v l in
      let tries =
        body-Responds (try_parse_loop int_from_chars) fuel st
          (λ sum st' v' l'. try_parse_loop-Responds fuel sum st' h v' l') h v l in
      let (r, e, folds) = sums-Folds fuel st h v l in
      let e' = test_then-try_parse int_from_chars int_from_chars m st fuel ∙ e in
      (
        Ends-returned (add_w_test_then int_from_chars fuel) st p q (r, e', folds)
            (Reach-Halts m (test_then_body int_from_chars fuel) st p q tests reach),
        Ends-returned (add_w_try_parse int_from_chars fuel) st p' q' (r, e, folds)
            (Reach-Halts m (try_parse_body int_from_chars fuel) st p' q' tries reach'),
      )
