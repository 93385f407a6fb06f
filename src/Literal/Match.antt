-- ===== src/Literal/Match.antt =====
-- The literals of include/noam/util/literal.hpp against the view of a state.
use native.Mathlib.Nat.{add-zero}
use noam.Base.{
  ℕ, ◌+◌, ◌-◌, ◌≤◌, ◌≡◌, refl, sym, inl, inr, Bool, true, false, List, [], ◌∷◌, length, drop,
  if◌then◌else◌, Bool-cases, arith, Option, some, none,
}
use noam.Literal.{
  Literal, string_literal, char_literal, empty_literal, size, check_and_update, check_any,
}
use noam.Parser.Refines.{IsTail}
use noam.State.{State, Memory, remove_prefix}
use noam.State.Prefix.{is_prefix, starts_with_array-is_prefix, starts_with_char-is_prefix}
use noam.State.Slice.{chars-drop}
use noam.State.View.{IsValid, view, length-chars}

abbrev pub text : Literal → List ℕ
text (string_literal str) = str
text (char_literal ch) = ch ∷ []
text empty_literal = []

-- The characters behind a literal.
abbrev pub strip : Literal → List ℕ → Option (List ℕ)
strip lit l = if is_prefix (text lit) l then some (drop (size lit) l) else none

-- What stands behind the first literal that is a prefix.
abbrev pub strip_any : List Literal → List ℕ → Option (List ℕ)
strip_any [] l = none
strip_any (lit ∷ lits) l =
    if is_prefix (text lit) l then some (drop (size lit) l) else strip_any lits l

pub is_prefix-length-le : (p l : List ℕ) → is_prefix p l ≡ true → length p ≤ length l
unfolding is_prefix
is_prefix-length-le [] l h = omega arith
is_prefix-length-le (x ∷ p) [] h = cc
is_prefix-length-le (x ∷ p) (y ∷ l) h = ground (arith, is_prefix-length-le p l)

pub remove_prefix-IsTail :
    (m : Memory) {st : State} (n : ℕ)
    → IsValid st
    → n ≤ length (view m st)
    → IsTail st (remove_prefix st n) × (view m (remove_prefix st n) ≡ drop n (view m st))
remove_prefix-IsTail m {st} n v h =
    let e = length-chars m st.begin (st.end - st.begin) in
    let e' : st.end - (st.begin + n) ≡ st.end - st.begin - n = omega arith in
    (
      record { from = omega arith; within = omega (arith, e); ends = refl },
      rw e' (sym (chars-drop m st.begin (st.end - st.begin) n)),
    )

-- A literal is found exactly if it is a prefix of the view, and then removed.
pub check_and_update_lem :
    (lit : Literal) (m : Memory) (st : State)
    → IsValid st
    → check_and_update lit m st ≡ (
        if is_prefix (text lit) (view m st)
        then (true, remove_prefix st (size lit))
        else (false, st))
unfolding check_and_update
check_and_update_lem (string_literal str) m st v =
    rw (starts_with_array-is_prefix m st str v.ordered)
check_and_update_lem (char_literal ch) m st v = rw (starts_with_char-is_prefix m st ch)
check_and_update_lem empty_literal m st v = unfold is_prefix in rw add-zero

-- The outcome of a test of literals, against the list of what is left.
abbrev pub Finds : Memory → State → Bool × State → Option (List ℕ) → Type 0
Finds m st (found, next) none = (found ≡ false) × (next ≡ st)
Finds m st (found, next) (some rest) = (found ≡ true) × IsTail st next × (view m next ≡ rest)

pub length-text : (lit : Literal) → length (text lit) ≡ size lit
length-text (string_literal str) = refl
length-text _ = refl

module _ (lit : Literal) (m : Memory) (st : State) (v : IsValid st) where
  -- Where the literal is found, the state behind it is a tail with the rest.
  pub remove-IsTail :
      is_prefix (text lit) (view m st) ≡ true
      → IsTail st (remove_prefix st (size lit))
        × (view m (remove_prefix st (size lit)) ≡ drop (size lit) (view m st))
  remove-IsTail h =
      remove_prefix-IsTail m (size lit) v
        (omega (arith, is_prefix-length-le (text lit) (view m st) h, length-text lit))

  pub check_and_update-Finds : Finds m st (check_and_update lit m st) (strip lit (view m st))
  check_and_update-Finds = elim (Bool-cases (is_prefix (text lit) (view m st))) [
    | inl h ↦
        let (tail, left) = remove-IsTail h in
        rw (check_and_update_lem lit m st v, h) (refl, tail, left)
    | inr h ↦ rw (check_and_update_lem lit m st v, h) (refl, refl)
  ]

-- On every valid state the tests for a choice of literals take the first one that the characters
-- of the state begin with, and stand behind it; where there is none they leave the state as it is.
pub check_any-Finds :
    (lits : List Literal) (m : Memory) (st : State)
    → IsValid st
    → Finds m st (check_any lits m st) (strip_any lits (view m st))
unfolding check_any
check_any-Finds [] m st v = (refl, refl)
check_any-Finds (lit ∷ lits) m st v = elim (Bool-cases (is_prefix (text lit) (view m st))) [
  | inl h ↦
      let (tail, left) = remove-IsTail lit m st v h in
      rw (check_and_update_lem lit m st v, h) (refl, tail, left)
  | inr h ↦ rw (check_and_update_lem lit m st v, h) (check_any-Finds lits m st v)
]
