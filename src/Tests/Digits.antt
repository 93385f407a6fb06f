-- ===== src/Tests/Digits.antt =====
-- Numbers of one character, which a function tells, for the tests.
use noam.Base.{
  ℕ, zero, suc, ◌-◌, ◌≡◌, refl, ap, List, [], ◌∷◌, length, Option, none, some, ◌>>=◌, Option-cases,
  inl, inr, arith,
}
use noam.Combinators.Consumption.{Consumes, bind-some}
use noam.Intrinsics.Numbers.{ReadsNumbers}
use noam.Intrinsics.Words.{FromChars}
use noam.Parser.Refines.{Grammar}
use noam.State.{Memory}
use noam.State.View.{chars}

module _ {N : Type 0} (digit : ℕ → Option N) where
  abbrev pub one_char_grammar : Grammar N
  one_char_grammar [] = none
  one_char_grammar (c ∷ l) = do x ← digit c; some (x, l)

  -- At most one character of the range.
  abbrev read_char : ℕ → Memory → ℕ → Option (ℕ × N)
  read_char zero m begin = none
  read_char (suc size) m begin = do x ← digit (m begin); some (suc begin, x)

  abbrev pub from_char : FromChars N
  from_char m begin end = read_char (end - begin) m begin

  pub one_char_grammar-Consumes : Consumes one_char_grammar
  one_char_grammar-Consumes [] x rest h = cc
  one_char_grammar-Consumes (c ∷ l) x rest h =
      let (y, e, e') = bind-some (digit c) (λ y. some (y, l)) (x, rest) h in
      let same : l ≡ rest = cc in omega (arith, ap length same)

  read_char-fails :
      (m : Memory) (begin size : ℕ)
      → one_char_grammar (chars m begin size) ≡ none
      → read_char size m begin ≡ none
  unfolding chars
  read_char-fails m begin zero h = refl
  read_char-fails m begin (suc size) h = elim (Option-cases (digit (m begin))) [
    | inl e ↦ rw (read_char, e)
    | inr (x, e) ↦ cc (rw (one_char_grammar, e) at h)
  ]

  read_char-reads :
      (m : Memory) (begin size : ℕ) (x : N) (rest : List ℕ)
      → one_char_grammar (chars m begin size) ≡ some (x, rest)
      → (k : ℕ) × (read_char size m begin ≡ some (suc begin, x))
        × (size ≡ suc k)
        × (chars m (suc begin) k ≡ rest)
  unfolding chars
  read_char-reads m begin zero x rest h = cc
  read_char-reads m begin (suc k) x rest h =
      let (y, e, e') =
        bind-some (digit (m begin)) (λ y. some (y, chars m (suc begin) k)) (x, rest) h in
      (k, cc, refl, cc)

  pub from_char-ReadsNumbers : ReadsNumbers from_char one_char_grammar
  from_char-ReadsNumbers = record {
    fails = λ m st v h. read_char-fails m st.begin (st.end - st.begin) h;
    reads = λ m st x rest v h.
        let (k, e, e', left) = read_char-reads m st.begin (st.end - st.begin) x rest h in
        let size : st.end - suc st.begin ≡ k = omega (arith, e') in
        (suc st.begin, e, omega arith, omega (arith, e'), rw size left);
    takes = one_char_grammar-Consumes;
  }
