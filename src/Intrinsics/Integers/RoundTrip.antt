-- ===== src/Intrinsics/Integers/RoundTrip.antt =====
-- The integer parsers of include/noam/intrinsics.hpp read back what `std::to_string` writes.
use noam.Base.{
  ℕ, zero, suc, ◌+◌, ◌-◌, ◌*◌, ◌/◌, ◌%◌, ◌<◌, ◌≡◌, refl, ap, ◌∙◌, not, Bool, true, false, List, [],
  ◌∷◌, ◌++◌, append_assoc, some, ◌==◌, ◌&&◌, ltb, Bool-cases, inl, inr, arith, ◌↔◌, none,
  if◌then◌else◌,
}
use noam.Base.Int.{ℤ, pos, negsuc}
use noam.Intrinsics.Integers.{
  IntegerType, is_digit, scan, magnitude, integer_grammar, from_chars, parse_charconv, decimal,
  to_string,
}
use noam.Intrinsics.Integers.Ranges.{InRange, reads_value, reads_value_iff}
use noam.Intrinsics.Integers.Suffix.{from_chars-ReadsNumbers}
use noam.Intrinsics.Numbers.{charconv-Refines}
use noam.Result.{Result, DefaultConstructible}
use noam.State
use noam.State.{State, Memory}
use noam.State.View.{IsValid, view}

-- What follows a number.
abbrev pub no_digit : List ℕ → Bool
no_digit [] = true
no_digit (c ∷ l) = not (is_digit c)

scan-no_digit : (l : List ℕ) (n : ℕ) → no_digit l ≡ true → scan l n ≡ (n, l)
unfolding scan
scan-no_digit [] n h = refl
scan-no_digit (c ∷ l) n h = elim (Bool-cases (is_digit c)) [
  | inl d ↦ cc (rw d at h)
  | inr d ↦ rw d refl
]

digit-is_digit : (n : ℕ) → n < 10 → is_digit (48 + n) ≡ true
digit-is_digit n h = ground arith

-- Behind nothing but zeroes or digits read already, the digits of `n` are read as `n`.
scan-decimal :
    (fuel n : ℕ) (rest : List ℕ) → n < fuel → scan (decimal fuel n ++ rest) 0 ≡ scan rest n
unfolding scan decimal
scan-decimal zero n rest h = elim h [ ]
scan-decimal (suc fuel) n rest h = elim (Bool-cases (ltb n 10)) [
  | inl small ↦
      let below : n < 10 = ground (arith, small) in
      let e : 0 * 10 + (48 + n - 48) ≡ n = omega arith in rw (small, digit-is_digit n below, e) refl
  | inr large ↦
      let d : n % 10 < 10 = omega arith in
      let e : n / 10 * 10 + (48 + n % 10 - 48) ≡ n = omega arith in
      let less : n / 10 < fuel = ground (arith, large, h) in
      rw
        (
          large,
          append_assoc (decimal fuel (n / 10)) ((48 + n % 10) ∷ []) rest,
          scan-decimal fuel (n / 10) ((48 + n % 10) ∷ rest) less,
          digit-is_digit (n % 10) d,
          e,
        )
        refl
]

-- A number begins with a digit.
decimal-digit :
    (fuel n : ℕ)
    → n < fuel
    → (c : ℕ) × (l : List ℕ) × (decimal fuel n ≡ c ∷ l) × (is_digit c ≡ true)
unfolding decimal
decimal-digit zero n h = elim h [ ]
decimal-digit (suc fuel) n h = elim (Bool-cases (ltb n 10)) [
  | inl small ↦
      let below : n < 10 = ground (arith, small) in
      rw small (48 + n, [], refl, digit-is_digit n below)
  | inr large ↦
      let less : n / 10 < fuel = ground (arith, large, h) in
      let (c, l, e, d) = decimal-digit fuel (n / 10) less in
      rw (large, e) (c, l ++ (48 + n % 10) ∷ [], refl, d)
]

magnitude-decimal :
    (fuel n : ℕ) (rest : List ℕ)
    → n < fuel
    → no_digit rest ≡ true
    → magnitude (decimal fuel n ++ rest) ≡ some (n, rest)
unfolding magnitude
magnitude-decimal fuel n rest h ends =
    let (c, l, e, d) = decimal-digit fuel n h in
    let e' = scan-decimal fuel n rest h ∙ scan-no_digit rest n ends in
    let e'' = rw e at e' in rw (e, d) (ap some e'')

digit-no_sign : (c : ℕ) → is_digit c ≡ true → (c == 45) ≡ false
digit-no_sign c h = ground (arith, h)

-- What is written for a value is read as that value, or refused.
to_string-read :
    (t : IntegerType) (v : ℤ) (rest : List ℕ)
    → no_digit rest ≡ true
    → integer_grammar t (to_string v ++ rest) ≡ (if reads_value t v then some (v, rest) else none)
unfolding integer_grammar to_string magnitude
to_string-read t (pos n) rest ends =
    let (c, l, e, d) = decimal-digit (suc n) n (omega arith) in
    let found = magnitude-decimal (suc n) n rest (omega arith) ends in
    let found' = rw e at found in
    let no_sign : t.signed && c == 45 ≡ false = ground (arith, digit-no_sign c d) in
    rw (e, no_sign, found') refl
to_string-read t (negsuc n) rest ends = elim (Bool-cases t.signed) [
  | inl s ↦
      let found = magnitude-decimal (suc (suc n)) (suc n) rest (omega arith) ends in
      rw (s, found) refl
  | inr s ↦ rw s refl
]

-- The parser of an integer type reads back what `std::to_string` writes for a value that fits in
-- the type: on a valid state of these characters and others behind them, of which the first is no
-- digit, it returns that value and leaves the others.
pub parse_charconv-to_string :
    ⦃d : DefaultConstructible ℤ⦄ (t : IntegerType) (v : ℤ) (rest : List ℕ) (m : Memory) (st : State)
    → InRange t v
    → no_digit rest ≡ true
    → IsValid st
    → view m st ≡ to_string v ++ rest
    → (r : Result ℤ) × ((parse_charconv t).parse m st ≡ some r)
      × (State.good r.state ≡ true)
      × (r.value ≡ v)
      × (view m r.state ≡ rest)
parse_charconv-to_string t v rest m st fits ends valid e =
    let refines =
      charconv-Refines (from_chars t) (integer_grammar t) (suc (st.end - st.begin))
        (from_chars-ReadsNumbers t) in
    let (r, e', a) = refines.returns m st valid (omega arith) in
    let (ok, value, _, left) =
      rw (e, to_string-read t v rest ends, (reads_value_iff t v).1 fits) at a in
    (r, e', ok, value, left)

-- On a valid state of what `std::to_string` writes for a value of any width, and others behind it,
-- of which the first is no digit, the parser of an integer type returns, and it succeeds exactly if
-- the value is one of the type.
pub parse_charconv-good_iff :
    ⦃d : DefaultConstructible ℤ⦄ (t : IntegerType) (v : ℤ) (rest : List ℕ) (m : Memory) (st : State)
    → no_digit rest ≡ true
    → IsValid st
    → view m st ≡ to_string v ++ rest
    → (r : Result ℤ) × ((parse_charconv t).parse m st ≡ some r)
      × ((State.good r.state ≡ true) ↔ InRange t v)
parse_charconv-good_iff t v rest m st ends valid e =
    let refines =
      charconv-Refines (from_chars t) (integer_grammar t) (suc (st.end - st.begin))
        (from_chars-ReadsNumbers t) in
    let (r, e', a) = refines.returns m st valid (omega arith) in
    let a' = rw (e, to_string-read t v rest ends) at a in
    let (inside, back) = reads_value_iff t v in
    (
      r,
      e',
      elim (Bool-cases (reads_value t v)) [
        | inl h ↦ let (ok, _, _, _) = rw h at a' in ((λ _. inside h), λ _. ok)
        | inr h ↦
            let bad : State.good r.state ≡ false = rw h at a' in
            ((λ ok. cc), λ fits. let k = back fits in cc)
      ],
    )
