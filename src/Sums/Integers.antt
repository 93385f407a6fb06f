-- ===== src/Sums/Integers.antt =====
-- The four parsers of bench/bench.cpp with the `std::from_chars` of the standard library for `int`
-- and `long`.
use noam.Base.{
  ℕ, ◌-◌, ◌^◌, ◌≡◌, ◌≢◌, ◌⊎◌, refl, ap, ◌∙◌, sym, true, List, [], ◌∷◌, length, length-append, none,
  some, ◌==◌, leb, le→leb, Bool-cases, Option-cases, inl, inr, arith,
}
use noam.Base.Int.{ℤ}
use noam.Combinators.Consumption.{bind-some}
use noam.Intrinsics.Integers.{IntegerType, magnitude, integer_grammar, from_chars}
use noam.Intrinsics.Integers.Suffix.{positive-some, negative-some, integer_grammar-Behind}
use noam.State.{State, Memory}
use noam.State.View.{IsValid, chars, view, length-chars}
use noam.Sums.{add_w_fold, add_w_test_then, add_w_try_parse, add_w_baseline}
use noam.Sums.Agreement.{sums_agree}
use noam.Sums.Baseline.{EndsWithin, OnlySpaces}

abbrev pub int : IntegerType
int = record { bits = 32; signed = true }

abbrev pub long : IntegerType
long = record { bits = 64; signed = true }

-- What is read as an `int` is read alike as a `long`.
integer_grammar-widens :
    (l : List ℕ) (v : ℤ) (rest : List ℕ)
    → integer_grammar int l ≡ some (v, rest)
    → integer_grammar long l ≡ some (v, rest)
unfolding integer_grammar
integer_grammar-widens [] v rest h = cc
integer_grammar-widens (c ∷ l) v rest h = elim (Bool-cases (c == b'-')) [
  | inl s ↦
      let (n, e, e', fits) = negative-some int (magnitude l) v rest (rw s at h) in
      let room : leb n (2 ^ 63) ≡ true = le→leb n (2 ^ 63) (omega (arith, fits)) in
      rw (s, e, room, e') refl
  | inr s ↦
      let (n, e, e', fits) = positive-some int (magnitude (c ∷ l)) v rest (rw s at h) in
      let room : leb n (2 ^ 63 - 1) ≡ true = le→leb n (2 ^ 63 - 1) (omega (arith, fits)) in
      rw (s, e, room, e') refl
]

from_chars-EndsWithin : (t : IntegerType) (m : Memory) → EndsWithin m (from_chars t)
unfolding from_chars
from_chars-EndsWithin t m b end ptr value le h =
    let ((v, rest), e, e') =
      bind-some (integer_grammar t (chars m b (end - b))) (λ (v, rest). some (end - length rest, v))
        (ptr, value) h in
    let (front, split, _) = integer_grammar-Behind t (chars m b (end - b)) v rest e in
    let sizes = sym (length-chars m b (end - b)) ∙ ap length split ∙ length-append front rest in
    let same : end - length rest ≡ ptr = cc in (omega (arith, same, sizes, le), omega (arith, same))

module _ (m : Memory) (st : State) where
  read_alike :
      (integer_grammar int (view m st) ≢ none) ⊎ (integer_grammar long (view m st) ≡ none)
      → from_chars long m st.begin st.end ≡ from_chars int m st.begin st.end
  unfolding from_chars
  read_alike h = elim (Option-cases (integer_grammar int (view m st))) [
    | inr ((v, rest), e) ↦ rw (e, integer_grammar-widens (view m st) v rest e) refl
    | inl e ↦ elim h [ inl some_int ↦ elim (some_int e) [ ] | inr no_long ↦ rw (e, no_long) refl ]
  ]

  -- The four parsers of the benchmark, with `std::from_chars` for `int` and `long`, give the same
  -- result on a valid state, with the same fuel, where the state does not begin with a number that
  -- fits in a `long` but not in an `int`, and has no whitespace but spaces.
  pub integer_sums_agree :
      (fuel : ℕ)
      → IsValid st
      → (integer_grammar int (view m st) ≢ none) ⊎ (integer_grammar long (view m st) ≡ none)
      → OnlySpaces m st.begin st.end
      → ((add_w_fold (from_chars long) (from_chars int) fuel).parse m st
          ≡ (add_w_try_parse (from_chars int) fuel).parse m st)
        × ((add_w_test_then (from_chars int) fuel).parse m st
            ≡ (add_w_try_parse (from_chars int) fuel).parse m st)
        × ((add_w_baseline (from_chars int) fuel).parse m st
            ≡ (add_w_try_parse (from_chars int) fuel).parse m st)
  integer_sums_agree fuel v h spaces =
      sums_agree (from_chars long) (from_chars int) m st fuel v (read_alike h)
        (from_chars-EndsWithin int m) spaces
