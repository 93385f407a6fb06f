-- ===== src/Intrinsics/Chars.antt =====
-- `zero_or_more_chars` and `count_chars` of include/noam/util/intrinsic_types.hpp, and the parsers
-- of include/noam/intrinsics.hpp that are made of them.
use noam.Base.{
  ℕ, zero, suc, ◌+◌, ◌-◌, ◌≤◌, ◌≡◌, refl, ap, ◌∙◌, Bool, true, false, ◌||◌, List, [], ◌∷◌, ◌++◌,
  length, drop, some, ◌==◌, if◌then◌else◌, take_while, drop_while, arith, Bool-cases, inl, inr,
  le→leb,
}
use noam.Base.Int.{to_size_t}
use native.Mathlib.Nat.{zero-add}
use noam.Literal.Match.{remove_prefix-IsTail}
use noam.Parser.{Parser}
use noam.Parser.Refines.{Grammar, Refines, IsTail}
use noam.Result.{Empty, empty}
use noam.State
use noam.State.{State, Memory}
use noam.State.View.{IsValid, chars, view}

-- `((c == chars) || ...)`
unfoldable pub one_of : List ℕ → ℕ → Bool
one_of [] c = false
one_of (x ∷ xs) c = c == x || one_of xs c

-- `while (begin < end && …) begin++`, with `count` characters left before the end.
unfoldable pub skip : List ℕ → Memory → ℕ → ℕ → ℕ
skip set m zero begin = begin
skip set m (suc count) begin =
    let rest = skip set m count (begin + 1) in if one_of set (m begin) then rest else begin

abbrev pub zero_or_more_chars : List ℕ → Parser Empty
zero_or_more_chars set = record {
  always_good = true;
  parse = λ m st. some (record {
    state = record { begin = skip set m (st.end - st.begin) st.begin; end = st.end };
    value = empty;
  });
}

-- The loop of `count_chars` from `i` on, with `count` rounds left.
unfoldable pub count_from : List ℕ → Memory → State → ℕ → ℕ → ℕ
count_from set m st zero i = i
count_from set m st (suc count) i =
    let rest = count_from set m st count (i + 1) in if one_of set (State.at m st i) then rest else i

-- The size is converted to `size_t`.
abbrev pub count_chars : List ℕ → Parser ℕ
count_chars set = record {
  always_good = true;
  parse = λ m st.
      let i = count_from set m st (to_size_t (State.size st)) 0 in
      some (record { state = State.remove_prefix st i; value = i });
}

-- `whitespace`, `match_spaces`, `count_spaces` and `count_tabs`.
abbrev pub whitespace : Parser Empty
whitespace = zero_or_more_chars (b' ' ∷ b'\t' ∷ b'\n' ∷ b'\r' ∷ [])

abbrev pub match_spaces : Parser Empty
match_spaces = zero_or_more_chars (b' ' ∷ [])

abbrev pub count_spaces : Parser ℕ
count_spaces = count_chars (b' ' ∷ [])

abbrev pub count_tabs : Parser ℕ
count_tabs = count_chars (b'\t' ∷ [])

-- Where a run of characters of the set ends: behind it stands nothing, or another character.
abbrev pub StopsAt : (ℕ → Bool) → List ℕ → Type 0
StopsAt f [] = Unit {0}
StopsAt f (c ∷ rest) = f c ≡ false

abbrev pub All : (ℕ → Bool) → List ℕ → Type 0
All f [] = Unit {0}
All f (c ∷ cs) = (f c ≡ true) × All f cs

-- `run` is the longest run of characters of the set at the beginning of the list.
pub record IsLongestRun (f : ℕ → Bool) (l run rest : List ℕ) : Type 0 where
  pub splits : l ≡ run ++ rest
  pub members : All f run
  pub stops : StopsAt f rest

take_while-IsLongestRun :
    (f : ℕ → Bool) (l : List ℕ) → IsLongestRun f l (take_while f l) (drop_while f l)
take_while-IsLongestRun f [] = record { splits = refl; members = tt; stops = tt }
take_while-IsLongestRun f (x ∷ l) = elim (Bool-cases (f x)) [
  | inl h ↦
      let ih = take_while-IsLongestRun f l in
      rw h (record { splits = ap (◌∷◌ x) ih.splits; members = (h, ih.members); stops = ih.stops })
  | inr h ↦ rw h (record { splits = refl; members = tt; stops = h })
]

drop-take_while : (f : ℕ → Bool) (l : List ℕ) → drop (length (take_while f l)) l ≡ drop_while f l
drop-take_while f [] = refl
drop-take_while f (x ∷ l) = elim (Bool-cases (f x)) [
  | inl h ↦ rw h (drop-take_while f l)
  | inr h ↦ rw h
]

length-take_while-le : (f : ℕ → Bool) (l : List ℕ) → length (take_while f l) ≤ length l
length-take_while-le f [] = omega arith
length-take_while-le f (x ∷ l) = ground (arith, length-take_while-le f l)

skip_lem :
    (set : List ℕ) (m : Memory) (n a : ℕ)
    → skip set m n a ≡ a + length (take_while (one_of set) (chars m a n))
unfolding skip chars
skip_lem set m zero a = omega arith
skip_lem set m (suc n) a =
    let e : a + 1 ≡ suc a = omega arith in rw e (ground (arith, skip_lem set m n (suc a)))

count_from_lem :
    (set : List ℕ) (m : Memory) (st : State) (n i : ℕ)
    → count_from set m st n i ≡ i + length (take_while (one_of set) (chars m (st.begin + i) n))
unfolding count_from chars
count_from_lem set m st zero i = omega arith
count_from_lem set m st (suc n) i =
    let e : st.begin + (i + 1) ≡ suc (st.begin + i) = omega arith in
    ground (arith, rw e at (count_from_lem set m st n (i + 1)))

-- The grammars: the longest run is dropped, and its length is the value of `count_chars`.
abbrev pub run_grammar : List ℕ → Grammar Empty
run_grammar set l = some (empty, drop_while (one_of set) l)

abbrev pub count_grammar : List ℕ → Grammar ℕ
count_grammar set l = some (length (take_while (one_of set) l), drop_while (one_of set) l)

module _ (set : List ℕ) (m : Memory) (st : State) (v : IsValid st) where
  abbrev run_length : ℕ
  run_length = length (take_while (one_of set) (view m st))

  behind_run :
      IsTail st (State.remove_prefix st run_length)
      × (view m (State.remove_prefix st run_length) ≡ drop_while (one_of set) (view m st))
  behind_run =
      let (tail, left) =
        remove_prefix-IsTail m run_length v (length-take_while-le (one_of set) (view m st)) in
      (tail, left ∙ drop-take_while (one_of set) (view m st))

module _ (set : List ℕ) (m : Memory) (st : State) (v : IsValid st) where
  zero_or_more_chars_lem :
      (zero_or_more_chars set).parse m st
      ≡ some (record { state = State.remove_prefix st (run_length set m st v); value = empty })
  zero_or_more_chars_lem = rw (skip_lem set m (st.end - st.begin) st.begin)

  count_chars_lem :
      (count_chars set).parse m st
      ≡ some (record {
        state = State.remove_prefix st (run_length set m st v);
        value = run_length set m st v;
      })
  count_chars_lem =
      let e : to_size_t (State.size st) ≡ st.end - st.begin =
        rw (le→leb _ _ v.ordered) (omega arith) in
      let e' : st.begin + 0 ≡ st.begin = omega arith in
      let counted : count_from set m st (to_size_t (State.size st)) 0 ≡ run_length set m st v =
        rw e (count_from_lem set m st (st.end - st.begin) 0 ∙ rw (zero-add, e')) in
      rw counted

module _ (set : List ℕ) (n : ℕ) where
  pub zero_or_more_chars-Refines : Refines (λ m v. v) n (zero_or_more_chars set) (run_grammar set)
  zero_or_more_chars-Refines = record {
    returns = λ m st v l.
        let (tail, left) = behind_run set m st v in
        (_, zero_or_more_chars_lem set m st v, (refl, refl, tail, left));
  }

  pub count_chars-Refines : Refines (λ m v. v) n (count_chars set) (count_grammar set)
  count_chars-Refines = record {
    returns = λ m st v l.
        let (tail, left) = behind_run set m st v in
        (_, count_chars_lem set m st v, (refl, refl, tail, left));
  }

-- Whatever the set of characters, on every valid state `zero_or_more_chars` and `count_chars`
-- leave the same state, a tail of the one given, and between the two stands the longest run of
-- characters of the set; `count_chars` returns the length of that run.
pub longest_run :
    (set : List ℕ) (m : Memory) (st : State)
    → IsValid st
    → (st' : State) × (run : List ℕ) × ((zero_or_more_chars set).parse m st
        ≡ some (record { state = st'; value = empty }))
      × ((count_chars set).parse m st ≡ some (record { state = st'; value = length run }))
      × IsTail st st'
      × IsLongestRun (one_of set) (view m st) run (view m st')
longest_run set m st v =
    let (tail, left) = behind_run set m st v in
    (
      State.remove_prefix st (run_length set m st v),
      take_while (one_of set) (view m st),
      zero_or_more_chars_lem set m st v,
      count_chars_lem set m st v,
      tail,
      rw left (take_while-IsLongestRun (one_of set) (view m st)),
    )
