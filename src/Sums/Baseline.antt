-- ===== src/Sums/Baseline.antt =====
-- The hand-written loop of bench/bench.cpp against the combinators.
use noam.Base.{
  ℕ, zero, suc, ◌+◌, ◌-◌, ◌≤◌, ◌<◌, ◌≡◌, ◌≢◌, ◌∙◌, refl, Bool, true, false, not, ◌&&◌, List, [],
  ◌∷◌, Option, none, some, if◌then◌else◌, ◌>>=◌, ◌==◌, ltb, ne→==, Option-cases, Bool-cases, inl,
  inr, arith,
}
use noam.Base.Int.{ℤ, add_ℤ}
use noam.Combinators.Basic.{◌>>◌}
use noam.Combinators.Fold.{fold_loop}
use noam.Combinators.Match.{match, all_always_good, update_while}
use noam.Intrinsics.Chars.{skip, one_of}
use noam.Intrinsics.Words.{FromChars}
use noam.Literal.{check_any, check_and_update}
use noam.Result.{Result, empty, Empty-default, null_result}
use noam.State.{Memory}
use noam.Sums.{ℤ-default, comma_int, comma_separator, skip_spaces, baseline_loop}

-- No whitespace but spaces from `a` to `end`.
abbrev pub OnlySpaces : Memory → ℕ → ℕ → Type 0
OnlySpaces m a end = (x : ℕ) → a ≤ x → x < end → (m x ≢ b'\t') × (m x ≢ b'\n') × (m x ≢ b'\r')

abbrev white : List ℕ
white = b' ' ∷ b'\t' ∷ b'\n' ∷ b'\r' ∷ []

one_of-white : (c : ℕ) → c ≢ b'\t' → c ≢ b'\n' → c ≢ b'\r' → one_of white c ≡ (c == b' ')
unfolding one_of
one_of-white c h k l = ground arith

skip-skip_spaces :
    (m : Memory) (n a end : ℕ)
    → a + n ≤ end
    → OnlySpaces m a end
    → skip white m n a ≡ skip_spaces m n a
unfolding skip skip_spaces
skip-skip_spaces m zero a end h w = refl
skip-skip_spaces m (suc n) a end h w =
    let (t, f, r) = w a (omega arith) (omega arith) in
    rw (
      one_of-white (m a) t f r,
      skip-skip_spaces m n (a + 1) end (omega arith) (λ x l k. w x (omega arith) k),
    )

skip_spaces-bounds : (m : Memory) (n a : ℕ) → (a ≤ skip_spaces m n a) × (skip_spaces m n a ≤ a + n)
unfolding skip_spaces
skip_spaces-bounds m zero a = omega arith
skip_spaces-bounds m (suc n) a = ground (arith, skip_spaces-bounds m n (a + 1))

before_end : (a end : ℕ) (b : Bool) → a ≤ end → (ltb a end && b) ≡ (not (a == end) && b)
before_end a end b h = ground arith

before_end-lt : (a end : ℕ) (b : Bool) → a ≤ end → (not (a == end) && b) ≡ true → a < end
before_end-lt a end b h k = ground arith

-- What the separator does on such a state.
module _ (m : Memory) (a end : ℕ) (v : 0 < a) (h : a ≤ end) (w : OnlySpaces m a end) where
  abbrev comma : ℕ
  comma = skip_spaces m (end - a) a

  abbrev number : ℕ
  number = skip_spaces m (end - (comma + 1)) (comma + 1)

  separator-skip_spaces :
      comma_separator.parse m (record { begin = a; end = end })
      ≡ some (
          if not (comma == end) && m comma == b','
          then record { state = record { begin = number; end = end }; value = empty }
          else null_result)
  unfolding match all_always_good update_while check_any check_and_update
  separator-skip_spaces =
      let bounds = skip_spaces-bounds m (end - a) a in
      let first = skip-skip_spaces m (end - a) a end (omega arith) w in
      let same = before_end comma end (m comma == b',') (omega (arith, bounds)) in
      elim (Bool-cases (not (comma == end) && m comma == b',')) [
        | inl found ↦
            let inside = before_end-lt comma end (m comma == b',') (omega (arith, bounds)) found in
            let second =
              skip-skip_spaces m (end - (comma + 1)) (comma + 1) end (omega (arith, inside))
                (λ x l k. w x (omega (arith, bounds)) k) in
            let nonnull = ne→== (comma + 1) 0 (omega arith) in
            rw (first, same, found, nonnull, second)
        | inr missing ↦ rw (first, same, missing)
      ]

-- `std::from_chars` ends within the characters that it was given.
abbrev pub EndsWithin : Memory → FromChars ℤ → Type 0
EndsWithin m from_chars =
    (b end ptr : ℕ) (value : ℤ)
    → b ≤ end
    → from_chars m b end ≡ some (ptr, value)
    → (b ≤ ptr) × (ptr ≤ end)

-- What `comma_separator >> parse_int` does on such a state.
module _ (int_from_chars : FromChars ℤ) (m : Memory) (a end : ℕ) (v : 0 < a) (h : a ≤ end)
    (w : OnlySpaces m a end) where
  abbrev has_comma : Bool
  has_comma = not (comma m a end v h w == end) && m (comma m a end v h w) == b','

  abbrev parsed : Option (Result ℤ)
  parsed = (comma_int int_from_chars).parse m (record { begin = a; end = end })

  comma_int-missing : has_comma ≡ false → parsed ≡ some null_result
  unfolding ◌>>◌ match all_always_good
  comma_int-missing missing =
      let e : comma_separator.parse m (record { begin = a; end = end }) ≡ some null_result =
        separator-skip_spaces m a end v h w ∙ rw missing in
      rw e

  module _ (found : has_comma ≡ true) where
    separated :
        (comma_separator.parse m (record { begin = a; end = end })
          ≡ some (record {
            state = record { begin = number m a end v h w; end = end };
            value = empty;
          }))
        × ((number m a end v h w == 0) ≡ false)
    separated =
        let bounds =
          skip_spaces-bounds m (end - (comma m a end v h w + 1)) (comma m a end v h w + 1) in
        (separator-skip_spaces m a end v h w ∙ rw found, ne→== _ 0 (omega (arith, bounds)))

    comma_int-failed :
        int_from_chars m (number m a end v h w) end ≡ none → parsed ≡ some null_result
    unfolding ◌>>◌ match all_always_good
    comma_int-failed e = let (e', nonnull) = separated in rw (e', nonnull, e)

    comma_int-found :
        (ptr : ℕ) (value : ℤ)
        → 0 < ptr
        → int_from_chars m (number m a end v h w) end ≡ some (ptr, value)
        → parsed ≡ some (record { state = record { begin = ptr; end = end }; value = value })
    unfolding ◌>>◌ match all_always_good
    comma_int-found ptr value positive e =
        let (e', nonnull) = separated in
        let nonnull' = ne→== ptr 0 (omega arith) in rw (e', nonnull, e, nonnull')

-- The result of the hand-written parser, of what its loop leaves.
abbrev pub baseline_result : ℕ → ℕ × ℤ → Result ℤ
baseline_result end (start, sum) = record {
  state = record { begin = start; end = end };
  value = sum;
}

module _ (int_from_chars : FromChars ℤ) (m : Memory) (end : ℕ)
    (stays : EndsWithin m int_from_chars) where
  comma_int_may_fail : (comma_int int_from_chars).always_good ≡ false
  unfolding ◌>>◌
  comma_int_may_fail = refl

  pub fold_loop-baseline_loop :
      (fuel a : ℕ) (sum : ℤ)
      → 0 < a
      → a ≤ end
      → OnlySpaces m a end
      → fold_loop fuel (comma_int int_from_chars) add_ℤ m (record { begin = a; end = end }) sum
        ≡ (baseline_loop int_from_chars fuel m end a a sum >>= λ x. some (baseline_result end x))
  unfolding fold_loop baseline_loop
  fold_loop-baseline_loop zero a sum v h w = refl
  fold_loop-baseline_loop (suc fuel) a sum v h w =
      let c = comma m a end v h w in
      let b = number m a end v h w in
      let bounds = skip_spaces-bounds m (end - a) a in
      let bounds' = skip_spaces-bounds m (end - (c + 1)) (c + 1) in
      elim (Bool-cases (has_comma int_from_chars m a end v h w)) [
        | inr missing ↦
            rw (comma_int-missing int_from_chars m a end v h w missing, comma_int_may_fail, missing)
        | inl found ↦
            let inside = before_end-lt c end (m c == b',') (omega (arith, bounds)) found in
            elim (Option-cases (int_from_chars m b end)) [
              | inl e ↦ rw (
                comma_int-failed int_from_chars m a end v h w found e,
                comma_int_may_fail,
                found,
                e,
              )
              | inr ((ptr, value), e) ↦
                  let (low, high) = stays b end ptr value (omega (arith, bounds', inside)) e in
                  let positive : 0 < ptr = omega (arith, bounds', low) in
                  let nonnull = ne→== ptr 0 (omega arith) in
                  simp
                    (
                      comma_int-found int_from_chars m a end v h w found ptr value positive e,
                      comma_int_may_fail,
                      found,
                      e,
                      nonnull,
                    )
                    (fold_loop-baseline_loop fuel ptr (add_ℤ sum value) positive high
                      (λ x l k. w x (omega (arith, bounds, bounds', low)) k))
            ]
      ]
