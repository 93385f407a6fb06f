-- ===== src/Intrinsics/Views/Splits.antt =====
-- `view_parser` of include/noam/util/intrinsic_types.hpp, for any three literals: it returns, and
-- what it returns divides the characters of the state.
use native.Mathlib.Decide.{dec_lt}
use noam.Base.{
  ℕ, zero, suc, ◌+◌, ◌-◌, ◌≤◌, ◌<◌, ◌≡◌, ◌⊎◌, inl, inr, refl, ap, ◌∙◌, true, ◌++◌, Option, some,
  lt→ltb, not_lt→ltb, le→leb, drop, drop-append, Bool-cases, arith,
}
use noam.Intrinsics.Views.{State-default, view_loop, view_parser}
use noam.Literal.{Literal, size, check_and_update}
use noam.Literal.Match.{text, length-text, check_and_update_lem, remove-IsTail}
use noam.Parser.Refines.{IsTail, IsTail_trans, IsTail_refl, IsTail-IsValid}
use noam.Result.{Result, null_result}
use noam.State.{State, Memory, remove_prefix}
use noam.State.Prefix.{is_prefix, is_prefix_iff}
use noam.State.View.{IsValid, chars, view, chars-append}

-- A literal that is found stands in front of what is left.
view-text :
    (lit : Literal) (m : Memory) (st : State)
    → IsValid st
    → is_prefix (text lit) (view m st) ≡ true
    → view m st ≡ text lit ++ view m (remove_prefix st (size lit))
view-text lit m st v h =
    let (rest, e) = (is_prefix_iff (text lit) (view m st)).0 h in
    let (_, left) = remove-IsTail lit m st v h in
    let e' : drop (size lit) (view m st) ≡ rest =
      rw (e, ← length-text lit) (drop-append (text lit) rest) in
    e ∙ rw (left, e')

module _ (closing escape : Literal) (m : Memory) (view_begin last : ℕ) where
  -- A failure; or a view from `view_begin` on, the closing literal and the rest, up to `last`.
  abbrev Divides : State → Option (Result State) → Type 0
  Divides st o =
      (o ≡ some null_result)
      ⊎ ((r : Result State) × (o ≡ some r)
          × IsTail st r.state
          × (r.value.begin ≡ view_begin)
          × (st.begin ≤ r.value.end)
          × (r.value.end ≤ last)
          × (chars m r.value.end (last - r.value.end) ≡ text closing ++ view m r.state))

  Divides-tail :
      {st st' : State} (o : Option (Result State)) → IsTail st st' → Divides st' o → Divides st o
  Divides-tail o t (inl e) = inl e
  Divides-tail o t (inr (r, e, u, starts, behind, within, left)) =
      inr (r, e, IsTail_trans t u, starts, omega arith, within, left)

  -- The state that a literal leaves behind is a tail.
  check-IsTail : (lit : Literal) (st : State) → IsValid st → IsTail st (check_and_update lit m st).1
  check-IsTail lit st v = elim (Bool-cases (is_prefix (text lit) (view m st))) [
    | inl h ↦ rw (check_and_update_lem lit m st v, h) (remove-IsTail lit m st v h).0
    | inr h ↦ rw (check_and_update_lem lit m st v, h) (IsTail_refl v)
  ]

  remove_one-IsTail : (st : State) → st.begin < st.end → IsTail st (remove_prefix st 1)
  remove_one-IsTail st h = record { from = omega arith; within = omega arith; ends = refl }

  view_loop-Divides :
      (fuel : ℕ) (st : State)
      → IsValid st
      → st.end ≡ last
      → st.end - st.begin < fuel
      → 0 < size escape
      → Divides st (view_loop closing escape fuel m st view_begin)
  unfolding view_loop
  view_loop-Divides zero st v e h some_escape = elim h [ ]
  view_loop-Divides (suc fuel) st v e h some_escape = elim (dec_lt st.begin st.end) [
    | no over ↦
        rw (le→leb _ _ v.ordered, not_lt→ltb 0 (st.end - st.begin + 0) (omega arith)) (inl refl)
    | yes has ↦
        rw (le→leb _ _ v.ordered, lt→ltb 0 (st.end - st.begin + 0) (omega arith))
          (elim (Bool-cases (is_prefix (text closing) (view m st))) [
            | inl closed ↦
                rw (check_and_update_lem closing m st v, closed)
                  (inr (
                    record {
                      state = remove_prefix st (size closing);
                      value = record { begin = view_begin; end = st.begin };
                    },
                    refl,
                    (remove-IsTail closing m st v closed).0,
                    refl,
                    omega arith,
                    omega arith,
                    rw (← e) (view-text closing m st v closed),
                  ))
            | inr other ↦
                rw (check_and_update_lem closing m st v, other)
                  (elim (Bool-cases (is_prefix (text escape) (view m st))) [
                    | inl escaped ↦
                        rw (check_and_update_lem escape m st v, escaped)
                          (let st2 = remove_prefix st (size escape) in
                            let (t, _) = remove-IsTail escape m st v escaped in
                            let u = check-IsTail closing st2 (IsTail-IsValid v t) in
                            let w = IsTail_trans t u in
                            Divides-tail _ w (
                              view_loop-Divides fuel (check_and_update closing m st2).1
                                (IsTail-IsValid v w) (omega arith) (omega arith) some_escape))
                    | inr plain ↦
                        rw (check_and_update_lem escape m st v, plain)
                          (let w = remove_one-IsTail st has in
                            Divides-tail _ w (
                              view_loop-Divides fuel (remove_prefix st 1) (IsTail-IsValid v w)
                                (omega arith) (omega arith) some_escape))
                  ])
          ])
  ]

-- On a valid state, with an escape literal that is not empty and fuel above the size of the state,
-- `view_parser` returns. Where it does not fail, the characters of the state are the opening
-- literal, the view that it returns, the closing literal and the characters of its new state.
pub view_parser-Divides :
    (fuel : ℕ) (opening closing escape : Literal) (m : Memory) (st : State)
    → IsValid st
    → st.end - st.begin < fuel
    → 0 < size escape
    → ((view_parser fuel opening closing escape).parse m st ≡ some null_result)
      ⊎ ((r : Result State) × ((view_parser fuel opening closing escape).parse m st ≡ some r)
          × IsTail st r.state
          × (view m st ≡ text opening ++ (view m r.value ++ (text closing ++ view m r.state))))
unfolding view_parser
view_parser-Divides fuel opening closing escape m st v h k =
    elim (Bool-cases (is_prefix (text opening) (view m st))) [
      | inr other ↦ rw (check_and_update_lem opening m st v, other) (inl refl)
      | inl opened ↦
          rw (check_and_update_lem opening m st v, opened)
            (let st' = remove_prefix st (size opening) in
              let (t, _) = remove-IsTail opening m st v opened in
              elim (view_loop-Divides closing escape m st'.begin st.end fuel st'
                (IsTail-IsValid v t) refl (omega arith) k) [
                  | inl e ↦ inl e
                  | inr (r, e, u, starts, behind, within, left) ↦
                      let cut : st.end - st'.begin
                          ≡ r.value.end - st'.begin + (st.end - r.value.end) =
                        omega arith in
                      let meet : st'.begin + (r.value.end - st'.begin) ≡ r.value.end =
                        omega arith in
                      inr (
                        r,
                        e,
                        IsTail_trans t u,
                        view-text opening m st v opened
                            ∙ ap (λ l. text opening ++ l)
                                (rw (cut, starts, ← left)
                                  (chars-append m st'.begin (r.value.end - st'.begin)
                                      (st.end - r.value.end)
                                    ∙ rw meet)),
                      )
                ])
    ]
