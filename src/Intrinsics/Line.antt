-- ===== src/Intrinsics/Line.antt =====
-- `line_parser` of include/noam/util/intrinsic_types.hpp, which is `parse_line` of
-- include/noam/intrinsics.hpp.
use mathlib.Core.List.{append_assoc}
use noam.Base.{
  ℕ, zero, suc, ◌+◌, ◌-◌, ◌≡◌, ◌≢◌, ◌⊎◌, inl, inr, refl, ap, ◌∙◌, true, not, ◌&&◌, List, [], ◌∷◌,
  ◌++◌, some, ltb, lt→ltb, le→leb, ◌==◌, ==_iff, ne→==, if◌then◌else◌, length, length-append,
  take-append, Bool-cases, arith,
}
use noam.Base.Int.{to_size_t}
use noam.Parser.{Parser}
use noam.Parser.Refines.{IsTail}
use noam.Result.{Result}
use noam.State
use noam.State.{State, Memory}
use noam.State.Slice.{view-substr_count}
use noam.State.View.{IsValid, chars, view, chars-cons, chars-skip}

abbrev pub newline : ℕ
newline = 10

abbrev pub carriage_return : ℕ
carriage_return = 13

-- The `return` at a newline at `i`.
unfoldable pub line_at : Memory → State → ℕ → Result State
line_at m st i =
    let line_size = if ltb 0 i && State.at m st (i - 1) == carriage_return then i - 1 else i in
    record { state = State.substr st (i + 1); value = State.substr_count st 0 line_size }

-- The loop from `i` on, with `count` rounds left.
unfoldable pub line_loop : Memory → State → ℕ → ℕ → ℕ → Result State
line_loop m st size zero i = record { state = State.substr st size; value = st }
line_loop m st size (suc count) i =
    let rest = line_loop m st size count (i + 1) in
    if not (State.at m st i == newline) then rest else line_at m st i

unfoldable pub line_parser : Parser State
line_parser = record {
  always_good = true;
  parse = λ m st. let size = to_size_t (State.size st) in some (line_loop m st size size 0);
}

abbrev pub NoNewline : List ℕ → Type 0
NoNewline [] = Unit {0}
NoNewline (c ∷ l) = (c ≢ newline) × NoNewline l

-- A line without a carriage return at its end.
abbrev pub strip_return : List ℕ → List ℕ
strip_return [] = []
strip_return (c ∷ []) = if c == carriage_return then [] else c ∷ []
strip_return (c ∷ d ∷ l) = c ∷ strip_return (d ∷ l)

-- What a line parser has to return: up to the first newline, without a carriage return in front
-- of it, with what stands behind the newline as the rest; or all that there is.
abbrev pub IsFirstLine : List ℕ → List ℕ → List ℕ → Type 0
IsFirstLine l value rest =
    ((line : List ℕ) × (l ≡ line ++ newline ∷ rest) × NoNewline line × (value ≡ strip_return line))
    ⊎ (NoNewline l × (value ≡ l) × (rest ≡ []))

split_newline :
    (l : List ℕ)
    → ((line : List ℕ) × (rest : List ℕ) × (l ≡ line ++ newline ∷ rest) × NoNewline line)
      ⊎ NoNewline l
split_newline [] = inr tt
split_newline (c ∷ l) = elim (Bool-cases (c == newline)) [
  | inl e ↦ inl ([], l, rw ((==_iff c newline).0 e), tt)
  | inr e ↦ elim (split_newline l) [
    | inl (line, rest, e', h) ↦
        inl (c ∷ line, rest, ap (◌∷◌ c) e', ((λ q. cc ((==_iff c newline).1 q, e)), h))
    | inr h ↦ inr ((λ q. cc ((==_iff c newline).1 q, e)), h)
  ]
]

split_last : (l : List ℕ) → (l ≡ []) ⊎ ((xs : List ℕ) × (c : ℕ) × (l ≡ xs ++ c ∷ []))
split_last [] = inl refl
split_last (c ∷ l) = elim (split_last l) [
  | inl e ↦ inr ([], c, rw e)
  | inr (xs, d, e) ↦ inr (c ∷ xs, d, ap (◌∷◌ c) e)
]

strip_return-concat :
    (xs : List ℕ) (c : ℕ)
    → strip_return (xs ++ c ∷ []) ≡ (if c == carriage_return then xs else xs ++ c ∷ [])
strip_return-concat [] c = refl
strip_return-concat (x ∷ []) c = ground arith
strip_return-concat (x ∷ y ∷ xs) c = rw (strip_return-concat (y ∷ xs) c) (ground arith)

module _ (m : Memory) (st : State) (size : ℕ) where
  line_loop-newline :
      (line rest : List ℕ) (n i a : ℕ)
      → st.begin + i ≡ a
      → chars m a n ≡ line ++ newline ∷ rest
      → NoNewline line
      → line_loop m st size n i ≡ line_at m st (i + length line)
  unfolding line_loop
  line_loop-newline [] rest n i a e h none_in =
      let (k, e1, e2, e3) = chars-cons m a n newline rest h in
      let e4 : i + 0 ≡ i = omega arith in rw (e1, e4, e, e2)
  line_loop-newline (c ∷ line) rest n i a e h (other, none_in) =
      let (k, e1, e2, e3) = chars-cons m a n c (line ++ newline ∷ rest) h in
      let e4 : i + 1 + length line ≡ i + suc (length line) = omega arith in
      rw (e1, e, e2, ne→== c newline other)
        (line_loop-newline line rest k (i + 1) (suc a) (omega arith) e3 none_in ∙ rw e4)

  line_loop-none :
      (l : List ℕ) (n i a : ℕ)
      → st.begin + i ≡ a
      → chars m a n ≡ l
      → NoNewline l
      → line_loop m st size n i ≡ record { state = State.substr st size; value = st }
  unfolding line_loop chars
  line_loop-none l zero i a e h none_in = refl
  line_loop-none [] (suc n) i a e h none_in = cc
  line_loop-none (c ∷ l) (suc n) i a e h (other, none_in) =
      let e2 : m a ≡ c = cc in
      let e3 : chars m (suc a) n ≡ l = cc in
      rw (e, e2, ne→== c newline other)
        (line_loop-none l n (i + 1) (suc a) (omega arith) e3 none_in)

module _ (m : Memory) (st : State) (v : IsValid st) where
  -- The view of the first characters.
  view-line :
      (xs ys : List ℕ) (n : ℕ)
      → view m st ≡ xs ++ ys
      → length xs ≡ n
      → view m (State.substr_count st 0 n) ≡ xs
  view-line xs ys n h e =
      view-substr_count m st 0 n v (omega arith) ∙ rw (h, ← e) (take-append xs ys)

  -- Without its last character, where that is a carriage return.
  line_at-value :
      (line rest : List ℕ)
      → view m st ≡ line ++ newline ∷ rest
      → view m (line_at m st (length line)).value ≡ strip_return line
  unfolding line_at
  line_at-value line rest h = elim (split_last line) [
    | inl e ↦ rw e (view-line [] (view m st) 0 refl refl)
    | inr (xs, c, e) ↦
        let h' : view m st ≡ xs ++ c ∷ newline ∷ rest = h ∙ rw (e, append_assoc) in
        let (k, e1, e2) = chars-skip m xs (c ∷ newline ∷ rest) st.begin (st.end - st.begin) h' in
        let (k', e3, e4, e5) = chars-cons m (st.begin + length xs) k c (newline ∷ rest) e2 in
        let e6 : length line ≡ length xs + 1 = rw e (length-append xs (c ∷ [])) in
        let e7 : length xs + 1 - 1 ≡ length xs = omega arith in
        rw (e6, lt→ltb 0 (length xs + 1) (omega arith), e7, e4, e, strip_return-concat xs c)
          (elim (Bool-cases (c == carriage_return)) [
            | inl q ↦ rw q (view-line xs (c ∷ newline ∷ rest) (length xs) h' refl)
            | inr q ↦ rw q (
                view-line (xs ++ c ∷ []) (newline ∷ rest) (length xs + 1) (h ∙ rw e)
                  (length-append xs (c ∷ [])))
          ])
  ]

  line_at-state :
      (line rest : List ℕ)
      → view m st ≡ line ++ newline ∷ rest
      → IsTail st (line_at m st (length line)).state
        × (view m (line_at m st (length line)).state ≡ rest)
  unfolding line_at
  line_at-state line rest h =
      let (k, e1, e2) = chars-skip m line (newline ∷ rest) st.begin (st.end - st.begin) h in
      let (k', e3, e4, e5) = chars-cons m (st.begin + length line) k newline rest e2 in
      let e6 : st.end - (st.begin + (length line + 1)) ≡ k' = omega arith in
      let e7 : st.begin + (length line + 1) ≡ suc (st.begin + length line) = omega arith in
      (record { from = omega arith; within = omega arith; ends = refl }, rw (e6, e7) e5)

-- On every valid state `line_parser` returns the first line, and a tail with what follows it.
pub line_parser-IsFirstLine :
    (m : Memory) (st : State)
    → IsValid st
    → (r : Result State) × (line_parser.parse m st ≡ some r)
      × IsTail st r.state
      × IsFirstLine (view m st) (view m r.value) (view m r.state)
unfolding line_parser
line_parser-IsFirstLine m st v =
    let size = st.end - st.begin in
    let e : to_size_t (State.size st) ≡ size = rw (le→leb _ _ v.ordered) (omega arith) in
    rw e (elim (split_newline (view m st)) [
      | inl (line, rest, h, none_in) ↦
          let (tail, left) = line_at-state m st v line rest h in
          (
            line_at m st (length line),
            rw (line_loop-newline m st size line rest size 0 st.begin (omega arith) h none_in)
                (let e' : 0 + length line ≡ length line = omega arith in rw e'),
            tail,
            inl (line, rw left h, none_in, line_at-value m st v line rest h),
          )
      | inr none_in ↦
          let e' : st.end - (st.begin + size) ≡ 0 = omega arith in
          (
            record { state = State.substr st size; value = st },
            rw (line_loop-none m st size (view m st) size 0 st.begin (omega arith) refl none_in),
            record { from = omega arith; within = omega arith; ends = refl },
            inr (none_in, refl, rw e' (unfold chars in refl)),
          )
    ])
