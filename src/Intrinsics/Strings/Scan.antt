-- ===== src/Intrinsics/Strings/Scan.antt =====
-- `string_parser` of include/noam/util/intrinsic_types.hpp against a grammar of quoted strings.
use noam.Base.{
  ℕ, zero, suc, ◌+◌, ◌-◌, ◌%◌, ◌<◌, ◌≡◌, ◌≢◌, ◌⊎◌, inl, inr, refl, ◌∙◌, false, List, [], ◌∷◌, ◌++◌,
  Option, some, none, ltb, lt→ltb, not_lt→ltb, ◌==◌, ==_iff, ne→==, le→leb, if◌then◌else◌, ◌>>=◌,
  Bool-cases, Option-cases, arith,
}
use mathlib.Core.List.{append-nil, append_assoc}
use noam.Base.Int.{size_t_mod}
use noam.Intrinsics.Strings.{
  quote, backslash, List-default, unescape, string_loop, finish, string_parser,
}
use noam.Parser.Refines.{Grammar, Returns, IsTail, Returns-ok, Returns-fail}
use noam.State
use noam.State.{State, Memory}
use noam.State.View.{IsValid, chars, view}

abbrev pub prepend : ℕ → Option (List ℕ × List ℕ) → Option (List ℕ × List ℕ)
prepend v said = said >>= λ (vs, l). some (v ∷ vs, l)

-- What stands behind the opening quote: the decoded characters, and the rest behind the closing
-- quote.
unfoldable pub scan : List ℕ → Option (List ℕ × List ℕ)
scan [] = none
scan (c ∷ []) = if c == quote then some ([], []) else none
scan (c ∷ d ∷ rest) =
    let escaped = unescape d >>= λ v. prepend v (scan rest) in
    let plain = prepend c (scan (d ∷ rest)) in
    if c == backslash then escaped else if c == quote then some ([], d ∷ rest) else plain

module _ (m : Memory) (st : State) where
  -- How the loop ends, by what the grammar says of the characters left. It stops at the closing
  -- quote; or on an unrecognised code, at another character, or at the end of the state.
  abbrev Ends : List ℕ → Option (List ℕ × List ℕ) → Option (Option (ℕ × List ℕ)) → Type 0
  Ends str (some (vs, rest)) o =
      (j : ℕ) × (o ≡ some (some (j, str ++ vs)))
      × (m (st.begin + j) ≡ quote)
      × (st.begin + j < st.end)
      × (chars m (st.begin + j + 1) (st.end - (st.begin + j + 1)) ≡ rest)
  Ends str none o =
      (o ≡ some none)
      ⊎ ((j : ℕ) × (s : List ℕ) × (o ≡ some (some (j, s)))
          × ((m (st.begin + j) ≢ quote) ⊎ (st.begin + j ≡ st.end)))

  -- One more character in front of what is left.
  Ends-cons :
      (str : List ℕ) (v : ℕ) (said : Option (List ℕ × List ℕ)) (o : Option (Option (ℕ × List ℕ)))
      → Ends (str ++ v ∷ []) said o
      → Ends str (prepend v said) o
  Ends-cons str v none o h = h
  Ends-cons str v (some (vs, rest)) o (j, e, h, h', h'') = (j, e ∙ rw append_assoc, h, h', h'')

  string_loop-Ends :
      (fuel k i a : ℕ) (str : List ℕ)
      → k < fuel
      → st.begin + i ≡ a
      → a + k ≡ st.end
      → Ends str (scan (chars m a k)) (string_loop fuel m st (st.end - st.begin - 1) i str)
  unfolding string_loop scan chars
  string_loop-Ends zero k i a str h e l = absurd (omega arith)
  string_loop-Ends (suc fuel) zero i a str h e l =
      rw (not_lt→ltb i (st.end - st.begin - 1) (omega arith))
        (inr (i, str, refl, inr (omega arith)))
  string_loop-Ends (suc fuel) (suc zero) i a str h e l =
      rw (not_lt→ltb i (st.end - st.begin - 1) (omega arith)) (elim (Bool-cases (m a == quote)) [
        | inl q ↦ rw q (i, rw append-nil, rw e ((==_iff _ _).0 q), omega arith, closed)
        | inr q ↦ rw q (inr (i, str, refl, inl (rw e (λ e'. cc ((==_iff _ _).1 e', q)))))
      ])
    where
      closed : chars m (st.begin + i + 1) (st.end - (st.begin + i + 1)) ≡ []
      closed = let e' : st.end - (st.begin + i + 1) ≡ 0 = omega arith in rw e'
  string_loop-Ends (suc fuel) (suc (suc k)) i a str h e l =
      rw (lt→ltb i (st.end - st.begin - 1) (omega arith)) (
        let next : st.begin + (i + 1) ≡ suc a = omega arith in
        elim (Bool-cases (m a == backslash)) [
          | inl b ↦
              rw (e, b, next)
                (elim (Option-cases (unescape (m (suc a)))) [
                  | inl bad ↦ rw bad (inl refl)
                  | inr (v, code) ↦ rw code (
                      Ends-cons str v _ _ (
                        string_loop-Ends fuel k (i + 2) (suc (suc a)) (str ++ v ∷ []) (omega arith)
                          (omega arith) (omega arith)))
                ])
          | inr b ↦
              rw (e, b)
                (elim (Bool-cases (m a == quote)) [
                  | inl q ↦ rw q (i, rw append-nil, rw e ((==_iff _ _).0 q), omega arith, left)
                  | inr q ↦ rw q (
                      Ends-cons str (m a) _ _ (
                        string_loop-Ends fuel (suc k) (i + 1) (suc a) (str ++ m a ∷ [])
                          (omega arith) (omega arith) (omega arith)))
                ])
        ])
    where
      left : chars m (st.begin + i + 1) (st.end - (st.begin + i + 1)) ≡ chars m (suc a) (suc k)
      left =
          let e' : st.end - (st.begin + i + 1) ≡ suc k = omega arith in
          let e'' : st.begin + i + 1 ≡ suc a = omega arith in rw (e', e'')

-- A quoted string: an opening quote, and what `scan` takes.
abbrev pub string_grammar : Grammar (List ℕ)
string_grammar [] = none
string_grammar (c ∷ l) = if c == quote then scan l else none

module _ (m : Memory) (st : State) (v : IsValid st) where
  -- The test behind the loop tells the two ways in which the loop ends apart, unless a quote
  -- stands at the end of the state, where it may look.
  finish-Returns :
      (said : Option (List ℕ × List ℕ)) (o : Option (Option (ℕ × List ℕ)))
      → Ends m st [] said o
      → (said ≡ none → m st.end ≢ quote)
      → Returns (λ m s. s) false m st (o >>= λ ends. some (finish m st ends)) said
  finish-Returns none o (inl e) k = rw e (Returns-fail (λ m s. s) m st)
  finish-Returns none o (inr (j, s, e, inl other)) k =
      rw (e, ne→== _ _ other) (Returns-fail (λ m s. s) m st)
  finish-Returns none o (inr (j, s, e, inr there)) k =
      rw (e, ne→== (m (st.begin + j)) quote (rw there (k refl))) (Returns-fail (λ m s. s) m st)
  finish-Returns (some (vs, rest)) o (j, e, q, within, left) k =
      let next : st.begin + (j + 1) ≡ st.begin + j + 1 = omega arith in
      let tail : IsTail st (State.substr st (j + 1)) = record {
        from = omega arith;
        within = omega arith;
        ends = refl;
      } in
      rw (e, (==_iff _ _).1 q, ← left, ← next) (Returns-ok (λ m s. s) false m _ v tail)

  -- By the number of characters.
  string_parser-Returns_size :
      (n : ℕ)
      → st.begin + n ≡ st.end
      → (string_grammar (chars m st.begin n) ≡ none → m st.end ≢ quote)
      → Returns
          (λ m s. s)
          false
          m
          st
          (string_parser.parse m st)
          (string_grammar (chars m st.begin n))
  unfolding string_parser chars
  string_parser-Returns_size zero e k =
      let none_left : st.end - st.begin + 0 ≡ 0 = omega arith in
      rw (le→leb _ _ v.ordered, none_left) (Returns-fail (λ m s. s) m st)
  string_parser-Returns_size (suc zero) e k =
      let one_left : st.end - st.begin + 0 ≡ 1 = omega arith in
      rw (le→leb _ _ v.ordered, one_left)
        (elim (Bool-cases (m st.begin == quote)) [
          | inl q ↦ rw q (unfold scan in Returns-fail (λ m s. s) m st)
          | inr q ↦ rw q (Returns-fail (λ m s. s) m st)
        ])
  string_parser-Returns_size (suc (suc n)) e k =
      let enough : ltb (st.end - st.begin + 0) 2 ≡ false = not_lt→ltb _ _ (omega arith) in
      let counted : (st.end - st.begin) % size_t_mod - 1 ≡ st.end - st.begin - 1 = omega arith in
      let first : st.begin + 0 ≡ st.begin = omega arith in
      rw (le→leb _ _ v.ordered, enough, first, counted)
        (elim (Bool-cases (m st.begin == quote)) [
          | inl q ↦ rw q (
              finish-Returns _ _
                (string_loop-Ends m st (suc (st.end - st.begin - 1)) (suc n) 1 (suc st.begin) []
                  (omega arith) (omega arith) (omega arith))
                (rw q at k))
          | inr q ↦ rw q (Returns-fail (λ m s. s) m st)
        ])

-- `string_parser` implements the grammar of quoted strings on every valid state, provided that
-- where the grammar refuses the characters no quote stands right behind the state.
pub string_parser-Returns :
    (m : Memory) (st : State)
    → IsValid st
    → (string_grammar (view m st) ≡ none → m st.end ≢ quote)
    → Returns (λ m s. s) false m st (string_parser.parse m st) (string_grammar (view m st))
string_parser-Returns m st v = string_parser-Returns_size m st v (st.end - st.begin) (omega arith)
