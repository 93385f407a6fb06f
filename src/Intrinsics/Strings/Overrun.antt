-- ===== src/Intrinsics/Strings/Overrun.antt =====
-- `string_parser` of include/noam/util/intrinsic_types.hpp on a string whose last two characters
-- are an escape code: the test behind the loop looks at the character behind the state.
use mathlib.Core.List.{append_assoc, append-nil}
use noam.Base.{
  ℕ, suc, ◌+◌, ◌-◌, ◌%◌, ◌≤◌, ◌<◌, ◌≡◌, sym, ap, ◌∙◌, false, List, [], ◌∷◌, ◌++◌, some, none, ne→==,
  Option-cases, inl, inr, arith, length, length-append, ltb, lt→ltb, not_lt→ltb, le→leb,
}
use noam.Base.Int.{size_t_mod}
use noam.Intrinsics.Strings.{quote, backslash, unescape, string_loop, string_parser}
use noam.Intrinsics.Strings.RoundTrip.{
  code_of, escape, escape_char, escape_char-plain, escape_char-code, code_of-none, code_of-unescape,
}
use noam.State.{State, Memory}
use noam.State.View.{IsValid, chars, view, length-chars, chars-cons, chars-skip}

length-le-escape : (s : List ℕ) → length s ≤ length (escape s)
length-le-escape [] = omega arith
length-le-escape (c ∷ s) = elim (Option-cases (code_of c)) [
  | inl plain ↦ rw (escape_char-plain c plain) (omega (arith, length-le-escape s))
  | inr (code, e) ↦ rw (escape_char-code c code e) (omega (arith, length-le-escape s))
]

module _ (m : Memory) (st : State) where
  -- One round on a character with no code, and one on a code; the character is not the last one.
  round_plain :
      (fuel i c : ℕ) (str : List ℕ)
      → m (st.begin + i) ≡ c
      → code_of c ≡ none
      → i < st.end - st.begin - 1
      → string_loop (suc fuel) m st (st.end - st.begin - 1) i str
        ≡ string_loop fuel m st (st.end - st.begin - 1) (i + 1) (str ++ c ∷ [])
  unfolding string_loop
  round_plain fuel i c str e plain h =
      let (no_backslash, no_quote) = code_of-none c plain in
      rw (lt→ltb _ _ h, e, ne→== c backslash no_backslash, ne→== c quote no_quote)

  round_code :
      (fuel i code v : ℕ) (str : List ℕ)
      → m (st.begin + i) ≡ backslash
      → m (st.begin + (i + 1)) ≡ code
      → unescape code ≡ some v
      → i < st.end - st.begin - 1
      → string_loop (suc fuel) m st (st.end - st.begin - 1) i str
        ≡ string_loop fuel m st (st.end - st.begin - 1) (i + 2) (str ++ v ∷ [])
  unfolding string_loop
  round_code fuel i code v str e e' h k = rw (lt→ltb _ _ k, e, e', h)

  round_last :
      (fuel i : ℕ) (str : List ℕ)
      → st.end - st.begin - 1 ≤ i
      → string_loop (suc fuel) m st (st.end - st.begin - 1) i str ≡ some (some (i, str))
  unfolding string_loop
  round_last fuel i str h = rw (not_lt→ltb i (st.end - st.begin - 1) (omega arith))

  left_over : (n a : ℕ) (s tail : List ℕ) → chars m a n ≡ escape s ++ tail → 0 < length tail → 0 < n
  left_over n a s tail h k =
      omega (arith, length-chars m a n, ap length h, length-append (escape s) tail)

  -- The loop reads an escaped string that stands in front of something.
  string_loop-escape :
      (s tail : List ℕ) (fuel i a n : ℕ) (str : List ℕ)
      → st.begin + i ≡ a
      → a + n ≡ st.end
      → chars m a n ≡ escape s ++ tail
      → 0 < length tail
      → string_loop (length s + fuel) m st (st.end - st.begin - 1) i str
        ≡ string_loop fuel m st (st.end - st.begin - 1) (i + length (escape s)) (str ++ s)
  string_loop-escape [] tail fuel i a n str e l h k =
      let e0 : 0 + fuel ≡ fuel = omega arith in
      let e1 : i + 0 ≡ i = omega arith in rw (e0, e1, append-nil)
  string_loop-escape (c ∷ s) tail fuel i a n str e l h k =
      let e0 : suc (length s) + fuel ≡ suc (length s + fuel) = omega arith in
      elim (Option-cases (code_of c)) [
        | inl plain ↦
            let (n', e1, e2, e3) =
              chars-cons m a n c (escape s ++ tail) (h ∙ rw (escape_char-plain c plain)) in
            let more = left_over n' (suc a) s tail e3 k in
            let e4 : i + 1 + length (escape s) ≡ i + length (escape_char c ++ escape s) =
              rw (escape_char-plain c plain) (omega arith) in
            rw e0 (
              round_plain (length s + fuel) i c str (rw e e2) plain (omega arith)
              ∙ string_loop-escape s tail fuel (i + 1) (suc a) n' (str ++ c ∷ []) (omega arith)
                  (omega arith) e3 k
              ∙ rw (e4, append_assoc))
        | inr (code, known) ↦
            let (n', e1, e2, e3) =
              chars-cons m a n backslash (code ∷ (escape s ++ tail))
                (h ∙ rw (escape_char-code c code known)) in
            let (n'', e1', e2', e3') = chars-cons m (suc a) n' code (escape s ++ tail) e3 in
            let more = left_over n'' (suc (suc a)) s tail e3' k in
            let e4 : i + 2 + length (escape s) ≡ i + length (escape_char c ++ escape s) =
              rw (escape_char-code c code known) (omega arith) in
            let e5 : st.begin + (i + 1) ≡ suc a = omega arith in
            rw e0 (
              round_code (length s + fuel) i code c str (rw e e2) (rw e5 e2')
                (code_of-unescape c code known) (omega arith)
              ∙ string_loop-escape s tail fuel (i + 2) (suc (suc a)) n'' (str ++ c ∷ [])
                  (omega arith) (omega arith) e3' k
              ∙ rw (e4, append_assoc))
      ]

-- On a valid state that holds an opening quote, an escaped string and one more escape code, with
-- no closing quote, but with a quote right behind the end of the state, `string_parser` succeeds:
-- it takes that quote for the closing one, and returns a state that begins behind its end.
pub string_parser_overrun :
    (s : List ℕ) (code v : ℕ) (m : Memory) (st : State)
    → IsValid st
    → unescape code ≡ some v
    → view m st ≡ quote ∷ (escape s ++ backslash ∷ code ∷ [])
    → m st.end ≡ quote
    → string_parser.parse m st
      ≡ some (record { state = record { begin = st.end + 1; end = st.end }; value = s ++ v ∷ [] })
unfolding string_parser
string_parser_overrun s code v m st ok known h q =
    let (n, e1, opens, e2) =
      chars-cons m st.begin (st.end - st.begin) quote (escape s ++ backslash ∷ code ∷ []) h in
    let (k, e3, e4) = chars-skip m (escape s) (backslash ∷ code ∷ []) (suc st.begin) n e2 in
    let (k', e5, slash, e6) =
      chars-cons m (suc st.begin + length (escape s)) k backslash (code ∷ []) e4 in
    let (k'', e7, coded, e8) =
      chars-cons m (suc (suc st.begin + length (escape s))) k' code [] e6 in
    let closed = length-chars m (suc (suc (suc st.begin + length (escape s)))) k'' in
    let count = st.end - st.begin - 1 in
    let ends : k'' ≡ 0 = sym closed ∙ ap length e8 in
    let shorter = length-le-escape s in
    let fuel : suc count ≡ length s + suc (suc (count - length s - 1)) = omega arith in
    let enough : ltb (st.end - st.begin + 0) 2 ≡ false = not_lt→ltb _ _ (omega arith) in
    let counted : (st.end - st.begin) % size_t_mod - 1 ≡ count = omega arith in
    let first : st.begin + 0 ≡ st.begin = omega arith in
    let at_slash : st.begin + (1 + length (escape s)) ≡ suc st.begin + length (escape s) =
      omega arith in
    let at_code : st.begin + (1 + length (escape s) + 1) ≡ suc (suc st.begin + length (escape s)) =
      omega arith in
    let at_end : st.begin + (1 + length (escape s) + 2) ≡ st.end = omega arith in
    let behind : st.begin + (1 + length (escape s) + 2 + 1) ≡ st.end + 1 = omega arith in
    let looped : string_loop (suc count) m st count 1 []
        ≡ some (some (1 + length (escape s) + 2, s ++ v ∷ [])) =
      rw fuel (
        string_loop-escape m st s (backslash ∷ code ∷ []) (suc (suc (count - length s - 1))) 1
          (suc st.begin) n [] (omega arith) (omega arith) e2 (omega arith)
        ∙ round_code m st (suc (count - length s - 1)) (1 + length (escape s)) code v s
            (rw at_slash slash) (rw at_code coded) known (omega arith)
        ∙ round_last m st (count - length s - 1) (1 + length (escape s) + 2) (s ++ v ∷ [])
            (omega arith)) in
    rw (le→leb _ _ ok.ordered, enough, first, opens, counted, looped, at_end, q, behind)
