-- ===== src/Intrinsics/Views/Quoted.antt =====
-- `parse_string_view` of include/noam/intrinsics.hpp against a grammar of quoted strings whose
-- escaped characters remain as they are.
use native.Mathlib.Decide.{dec_lt}
use noam.Base.{
  ℕ, zero, suc, ◌+◌, ◌-◌, ◌≤◌, ◌<◌, ◌≡◌, inl, inr, refl, ap, ◌∙◌, true, false, List, [], ◌∷◌,
  Option, some, none, ltb, lt→ltb, not_lt→ltb, leb, le→leb, ◌==◌, ==_iff, if◌then◌else◌, Bool-cases,
  arith, ◌>>=◌,
}
use noam.Intrinsics.Views.{State-default, view_loop, view_parser, parse_string_view}
use noam.Literal.{char_literal, check_and_update}
use noam.Parser.Refines.{Grammar, Refines, Returns, IsTail, Returns-ok, Returns-fail}
use noam.Result.{Result, null_result}
use noam.State.{State, Memory}
use noam.State.View.{IsValid, chars, view}

abbrev pub quote : ℕ
quote = 34

abbrev pub backslash : ℕ
backslash = 92

abbrev pub prepend : ℕ → Option (List ℕ × List ℕ) → Option (List ℕ × List ℕ)
prepend c said = said >>= λ (vs, l). some (c ∷ vs, l)

-- What stands behind the opening quote: the characters up to the closing one, and the rest. A
-- backslash takes a quote that follows it with it, and no other character.
unfoldable pub body : List ℕ → Option (List ℕ × List ℕ)
body [] = none
body (c ∷ []) = if c == quote then some ([], []) else none
body (c ∷ d ∷ rest) =
    let past = prepend c (prepend d (body rest)) in
    let on = prepend c (body (d ∷ rest)) in
    if c == quote
    then some ([], d ∷ rest)
    else if c == backslash
    then (if d == quote then past else on)
    else on

abbrev pub quoted : Grammar (List ℕ)
quoted [] = none
quoted (c ∷ l) = if c == quote then body l else none

abbrev at : ℕ → ℕ → State
at a last = record { begin = a; end = last }

module _ (m : Memory) (last : ℕ) where
  found :
      (ch a : ℕ)
      → a < last
      → m a ≡ ch
      → check_and_update (char_literal ch) m (at a last) ≡ (true, at (a + 1) last)
  unfolding check_and_update
  found ch a h e = rw (lt→ltb a last h, (==_iff (m a) ch).1 e)

  not_found :
      (ch a : ℕ)
      → (m a == ch) ≡ false
      → check_and_update (char_literal ch) m (at a last) ≡ (false, at a last)
  unfolding check_and_update
  not_found ch a e = elim (dec_lt a last) [
    | yes h ↦ rw (lt→ltb a last h, e)
    | no h ↦ rw (not_lt→ltb a last h)
  ]

  not_found_at_end :
      (ch a : ℕ) → last ≤ a → check_and_update (char_literal ch) m (at a last) ≡ (false, at a last)
  unfolding check_and_update
  not_found_at_end ch a h = rw (not_lt→ltb a last (omega arith))

module _ (m : Memory) (last view_begin : ℕ) where
  -- How the loop ends from `a` on, by what the grammar says: at the closing quote at `j`.
  abbrev Ends : ℕ → Option (List ℕ × List ℕ) → Option (Result State) → Type 0
  Ends a none o = o ≡ some null_result
  Ends a (some (vs, rest)) o =
      (j : ℕ) × (o ≡ some (record { state = at (j + 1) last; value = at view_begin j }))
      × (a ≤ j)
      × (j < last)
      × (chars m a (j - a) ≡ vs)
      × (chars m (j + 1) (last - (j + 1)) ≡ rest)

  Ends-cons :
      (a : ℕ) (said : Option (List ℕ × List ℕ)) (o : Option (Result State))
      → Ends (suc a) said o
      → Ends a (prepend (m a) said) o
  Ends-cons a none o e = e
  Ends-cons a (some (vs, rest)) o (j, e, h, k, read, left) =
      let e' : j - a ≡ suc (j - suc a) = omega arith in
      (j, e, omega arith, k, rw e' (unfold chars in ap (◌∷◌ (m a)) read), left)

  loop : ℕ → ℕ → Option (Result State)
  loop fuel a =
      view_loop (char_literal quote) (char_literal backslash) fuel m (at a last) view_begin

  loop_end : (fuel a : ℕ) → a ≡ last → loop (suc fuel) a ≡ some null_result
  unfolding loop view_loop
  loop_end fuel a e = rw (le→leb a last (omega arith), not_lt→ltb 0 (last - a + 0) (omega arith))

  module _ (fuel a : ℕ) (has : a < last) where
    size_pos : ltb 0 (last - a + 0) ≡ true
    size_pos = lt→ltb 0 (last - a + 0) (omega arith)

    in_order : leb a last ≡ true
    in_order = le→leb a last (omega arith)

    loop-quote :
        m a ≡ quote
        → loop (suc fuel) a ≡ some (record { state = at (a + 1) last; value = at view_begin a })
    unfolding loop view_loop
    loop-quote e = rw (in_order, size_pos, found m last quote a has e)

    loop_plain :
        (m a == quote) ≡ false → (m a == backslash) ≡ false → loop (suc fuel) a ≡ loop fuel (a + 1)
    unfolding loop view_loop
    loop_plain e e' =
        rw (in_order, size_pos, not_found m last quote a e, not_found m last backslash a e')

    loop_escaped_quote :
        m a ≡ backslash
        → a + 1 < last
        → m (a + 1) ≡ quote
        → loop (suc fuel) a ≡ loop fuel (a + 1 + 1)
    unfolding loop view_loop
    loop_escaped_quote e h e' = rw (
      in_order,
      size_pos,
      not_found m last quote a (rw e),
      found m last backslash a has e,
      found m last quote (a + 1) h e',
    )

    loop-backslash :
        m a ≡ backslash
        → check_and_update (char_literal quote) m (at (a + 1) last) ≡ (false, at (a + 1) last)
        → loop (suc fuel) a ≡ loop fuel (a + 1)
    unfolding loop view_loop
    loop-backslash e e' =
        rw (in_order, size_pos, not_found m last quote a (rw e), found m last backslash a has e, e')

  loop-Ends : (fuel k a : ℕ) → k < fuel → a + k ≡ last → Ends a (body (chars m a k)) (loop fuel a)
  unfolding body chars
  loop-Ends zero k a h e = elim h [ ]
  loop-Ends (suc fuel) zero a h e = loop_end fuel a (omega arith)
  loop-Ends (suc fuel) (suc zero) a h e = elim (Bool-cases (m a == quote)) [
    | inl q ↦
        let e0 : a - a ≡ 0 = omega arith in
        let e1 : last - (a + 1) ≡ 0 = omega arith in
        rw q (
          a,
          loop-quote fuel a (omega arith) ((==_iff _ _).0 q),
          omega arith,
          omega arith,
          rw e0,
          rw e1,
        )
    | inr q ↦ rw q (elim (Bool-cases (m a == backslash)) [
      | inl b ↦
          loop-backslash fuel a (omega arith) ((==_iff _ _).0 b)
            (not_found_at_end m last quote (a + 1) (omega arith))
          ∙ loop-Ends fuel zero (a + 1) (omega arith) (omega arith)
      | inr b ↦
          loop_plain fuel a (omega arith) q b
          ∙ loop-Ends fuel zero (a + 1) (omega arith) (omega arith)
    ])
  ]
  loop-Ends (suc fuel) (suc (suc k)) a h e =
      let next : a + 1 ≡ suc a = omega arith in
      let next' : a + 1 + 1 ≡ suc (suc a) = omega arith in
      let on : Ends a (prepend (m a) (body (chars m (suc a) (suc k)))) (loop fuel (suc a)) =
        Ends-cons a _ _ (loop-Ends fuel (suc k) (suc a) (omega arith) (omega arith)) in
      elim (Bool-cases (m a == quote)) [
        | inl q ↦
            let e0 : a - a ≡ 0 = omega arith in
            let e1 : last - (a + 1) ≡ suc k = omega arith in
            rw q (
              a,
              loop-quote fuel a (omega arith) ((==_iff _ _).0 q),
              omega arith,
              omega arith,
              rw e0,
              rw (e1, next),
            )
        | inr q ↦ rw q (elim (Bool-cases (m a == backslash)) [
          | inr b ↦ rw (b, loop_plain fuel a (omega arith) q b, next) on
          | inl b ↦ rw b (elim (Bool-cases (m (suc a) == quote)) [
            | inl q' ↦
                rw
                  (
                    q',
                    loop_escaped_quote fuel a (omega arith) ((==_iff _ _).0 b) (omega arith)
                        (rw next ((==_iff _ _).0 q')),
                    next',
                  )
                  (Ends-cons a _ _ (
                    Ends-cons (suc a) _ _
                      (loop-Ends fuel k (suc (suc a)) (omega arith) (omega arith))))
            | inr q' ↦
                rw
                  (
                    q',
                    loop-backslash fuel a (omega arith) ((==_iff _ _).0 b)
                        (not_found m last quote (a + 1) (rw next q')),
                    next,
                  )
                  on
          ])
        ])
      ]

module _ (fuel : ℕ) (m : Memory) (st : State) (v : IsValid st) where
  loop-Returns :
      (said : Option (List ℕ × List ℕ)) (o : Option (Result State))
      → st.begin < st.end
      → Ends m st.end (st.begin + 1) (st.begin + 1) said o
      → Returns view false m st o said
  loop-Returns none o has e = rw e (Returns-fail view m st)
  loop-Returns (some (vs, rest)) o has (j, e, h, k, read, left) =
      let tail : IsTail st (at (j + 1) st.end) = record {
        from = omega arith;
        within = omega arith;
        ends = refl;
      } in
      rw (e, ← read, ← left) (Returns-ok view false m _ v tail)

  -- By the number of characters.
  parse_string_view-Returns :
      (k : ℕ)
      → k < fuel
      → st.begin + k ≡ st.end
      → Returns view false m st ((parse_string_view fuel).parse m st) (quoted (chars m st.begin k))
  unfolding view_parser chars loop
  parse_string_view-Returns zero h e =
      rw (not_found_at_end m st.end quote st.begin (omega arith)) (Returns-fail view m st)
  parse_string_view-Returns (suc k) h e = elim (Bool-cases (m st.begin == quote)) [
    | inl q ↦
        let next : st.begin + 1 ≡ suc st.begin = omega arith in
        rw (found m st.end quote st.begin (omega arith) ((==_iff _ _).0 q), q)
          (loop-Returns _ _ (omega arith) (
            rw next (
              loop-Ends m st.end (suc st.begin) fuel k (suc st.begin) (omega arith) (omega arith))))
    | inr q ↦ rw (not_found m st.end quote st.begin q, q) (Returns-fail view m st)
  ]

-- `parse_string_view`, with fuel above the size, implements the grammar of quoted strings, in
-- which the value is the characters between the quotes as they are.
pub parse_string_view-Refines : (fuel : ℕ) → Refines view fuel (parse_string_view fuel) quoted
unfolding view_parser
parse_string_view-Refines fuel = record {
  returns = λ m st v h. parse_string_view-Returns fuel m st v (st.end - st.begin) h (omega arith);
}
