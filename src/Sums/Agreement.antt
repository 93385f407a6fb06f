-- ===== src/Sums/Agreement.antt =====
-- The four parsers of bench/bench.cpp against each other.
use noam.Base.{
  ℕ, zero, suc, ◌≡◌, ◌∙◌, refl, sym, false, some, ◌>>=◌, ◌==◌, ne→==, Option-cases, Bool-cases, inl,
  inr, arith,
}
use noam.Base.Int.{ℤ, add_ℤ}
use noam.Combinators.Fold.{fold_loop, fold_left}
use noam.Combinators.Lookahead.{test_then, try_parse}
use noam.Coroutine.{Promise, resume, await_ready, coroutine, to_result}
use noam.Intrinsics.Words.{FromChars}
use noam.Result.{good}
use noam.State.{State, Memory}
use noam.State.View.{IsValid}
use noam.Sums.Baseline.{EndsWithin, OnlySpaces, fold_loop-baseline_loop}
use noam.Sums.{
  add_w_baseline, ℤ-default, comma_int, next_value, test_then_loop, try_parse_loop, add_w_test_then,
  add_w_try_parse, add_w_fold,
}

module _ (int_from_chars : FromChars ℤ) where
  test_then_loop-try_parse_loop :
      (fuel : ℕ) (sum : ℤ) (m : Memory) (q : Promise ℤ)
      → resume (test_then_loop int_from_chars fuel sum) m q
        ≡ resume (try_parse_loop int_from_chars fuel sum) m q
  unfolding resume await_ready test_then_loop try_parse_loop next_value test_then try_parse
  test_then_loop-try_parse_loop zero sum m q = refl
  test_then_loop-try_parse_loop (suc fuel) sum m q =
      elim (Option-cases ((comma_int int_from_chars).parse m q.state)) [
        | inl e ↦ rw e
        | inr (r, e) ↦ rw e (elim (Bool-cases (good (comma_int int_from_chars).always_good r)) [
          | inl ok ↦ rw ok (
              test_then_loop-try_parse_loop fuel (add_ℤ sum r.value) m
                (record q { state = r.state }))
          | inr bad ↦ rw bad
        ])
      ]

  fold_loop-try_parse_loop :
      (fuel : ℕ) (sum : ℤ) (m : Memory) (q : Promise ℤ)
      → fold_loop fuel (comma_int int_from_chars) add_ℤ m q.state sum
        ≡ (resume (try_parse_loop int_from_chars fuel sum) m q >>= λ p. some (to_result p))
  unfolding resume await_ready try_parse_loop try_parse fold_loop
  fold_loop-try_parse_loop zero sum m q = refl
  fold_loop-try_parse_loop (suc fuel) sum m q =
      elim (Option-cases ((comma_int int_from_chars).parse m q.state)) [
        | inl e ↦ rw e
        | inr (r, e) ↦ rw e (elim (Bool-cases (good (comma_int int_from_chars).always_good r)) [
          | inl ok ↦
              rw ok
                (fold_loop-try_parse_loop fuel (add_ℤ sum r.value) m (record q { state = r.state }))
          | inr bad ↦ rw bad
        ])
      ]

module _ (long_from_chars int_from_chars : FromChars ℤ) (m : Memory) (st : State) where
  pub test_then-try_parse :
      (fuel : ℕ)
      → (add_w_test_then int_from_chars fuel).parse m st
        ≡ (add_w_try_parse int_from_chars fuel).parse m st
  unfolding add_w_test_then add_w_try_parse coroutine resume await_ready
  test_then-try_parse fuel = elim (Option-cases (int_from_chars m st.begin st.end)) [
    | inl e ↦ rw e
    | inr ((ptr, value), e) ↦ rw e (elim (Bool-cases (ptr == 0)) [
      | inl null ↦ rw null
      | inr nonnull ↦ rw (
        nonnull,
        test_then_loop-try_parse_loop int_from_chars fuel value m (record {
          state = record { begin = ptr; end = st.end };
          value = ℤ-default.default;
          is_good = false;
        }),
      )
    ])
  ]

  pub fold-try_parse :
      (fuel : ℕ)
      → long_from_chars m st.begin st.end ≡ int_from_chars m st.begin st.end
      → (add_w_fold long_from_chars int_from_chars fuel).parse m st
        ≡ (add_w_try_parse int_from_chars fuel).parse m st
  unfolding add_w_fold fold_left add_w_try_parse coroutine resume await_ready
  fold-try_parse fuel same = rw same (elim (Option-cases (int_from_chars m st.begin st.end)) [
    | inl e ↦ rw e
    | inr ((ptr, value), e) ↦ rw e (elim (Bool-cases (ptr == 0)) [
      | inl null ↦ rw null
      | inr nonnull ↦ rw nonnull (
          fold_loop-try_parse_loop int_from_chars fuel value m (record {
            state = record { begin = ptr; end = st.end };
            value = ℤ-default.default;
            is_good = false;
          }))
    ])
  ])

  fold-baseline :
      (fuel : ℕ)
      → IsValid st
      → long_from_chars m st.begin st.end ≡ int_from_chars m st.begin st.end
      → EndsWithin m int_from_chars
      → OnlySpaces m st.begin st.end
      → (add_w_fold long_from_chars int_from_chars fuel).parse m st
        ≡ (add_w_baseline int_from_chars fuel).parse m st
  unfolding add_w_fold fold_left add_w_baseline
  fold-baseline fuel v same stays spaces =
      rw same (elim (Option-cases (int_from_chars m st.begin st.end)) [
        | inl e ↦ rw e
        | inr ((ptr, value), e) ↦
            let (low, high) = stays st.begin st.end ptr value v.ordered e in
            let nonnull = ne→== ptr 0 (omega (arith, v.nonnull, low)) in
            rw (e, nonnull)
              (fold_loop-baseline_loop int_from_chars m st.end stays fuel ptr value
                (omega (arith, v.nonnull, low)) high (λ x l k. spaces x (omega (arith, low)) k))
      ])

  -- The four parsers of the benchmark give the same result on a valid state, with the same fuel,
  -- where the first number is read alike as a `long` and as an `int`, `std::from_chars` ends within
  -- the characters that it is given, and the state has no whitespace but spaces, which is all that
  -- the hand-written parser skips.
  pub sums_agree :
      (fuel : ℕ)
      → IsValid st
      → long_from_chars m st.begin st.end ≡ int_from_chars m st.begin st.end
      → EndsWithin m int_from_chars
      → OnlySpaces m st.begin st.end
      → ((add_w_fold long_from_chars int_from_chars fuel).parse m st
          ≡ (add_w_try_parse int_from_chars fuel).parse m st)
        × ((add_w_test_then int_from_chars fuel).parse m st
            ≡ (add_w_try_parse int_from_chars fuel).parse m st)
        × ((add_w_baseline int_from_chars fuel).parse m st
            ≡ (add_w_try_parse int_from_chars fuel).parse m st)
  sums_agree fuel v same stays spaces =
      let fold = fold-try_parse fuel same in
      (fold, test_then-try_parse fuel, sym (fold-baseline fuel v same stays spaces) ∙ fold)
