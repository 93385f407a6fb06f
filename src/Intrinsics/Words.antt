-- ===== src/Intrinsics/Words.antt =====
-- The parsers of literals, of `bool` and of numbers of include/noam/util/intrinsic_types.hpp.
-- `std::from_chars` is a parameter of `charconv`.
use noam.Base.{
  ℕ, ◌≡◌, Bool, true, false, List, [], Option, some, none, if◌then◌else◌, Bool-cases, inl, inr,
  length, drop, codes, map, ◌>>=◌,
}
use noam.Literal.{Literal, char_literal, check_any}
use noam.Literal.Match.{
  Finds, is_prefix-length-le, remove_prefix-IsTail, strip_any, check_any-Finds,
}
use noam.Parser.{Parser}
use noam.Parser.Refines.{Grammar, Refines, Returns, Returns-ok, Returns-fail}
use noam.Result.{DefaultConstructible, Empty, Empty-default, null_result}
use noam.State
use noam.State.{State, Memory}
use noam.State.Prefix.{is_prefix, starts_with_array-is_prefix}
use noam.State.View.{IsValid, view}

module _ {ℓ} {A : Type ℓ} ⦃d : DefaultConstructible A⦄ where
  -- `literal_constant`, with its constant; `literal` and `literal_makes` return a default value.
  abbrev pub literal_constant : A → List Literal → Parser A
  literal_constant constant lits = record {
    always_good = false;
    parse = λ m st.
        let (found, next) = check_any lits m st in
        some (if found then record { state = next; value = constant } else null_result);
  }

  abbrev pub literal_makes : List Literal → Parser A
  literal_makes lits = literal_constant d.default lits

abbrev pub literal : List Literal → Parser Empty
literal lits = literal_makes lits

-- `match_ch`
abbrev pub match_ch : List ℕ → Parser Empty
match_ch [] = literal []
match_ch set = literal (map char_literal set)

instance abbrev pub Bool-default : DefaultConstructible Bool
Bool-default = record { default = false }

unfoldable pub bool_parser : Parser Bool
bool_parser = record {
  always_good = false;
  parse = λ m st. some (
      if State.starts_with_array m st (codes "true")
      then record { state = State.substr st 4; value = true }
      else if State.starts_with_array m st (codes "false")
      then record { state = State.substr st 5; value = false }
      else null_result);
}

-- `std::from_chars`: where it succeeds, the end of the characters that it read, and the value.
abbrev pub FromChars : Type 0 → Type 0
FromChars T = Memory → ℕ → ℕ → Option (ℕ × T)

module _ {T : Type 0} ⦃d : DefaultConstructible T⦄ (from_chars : FromChars T) where
  abbrev pub charconv : Parser T
  charconv = record {
    always_good = false;
    parse = λ m st. some (elim (from_chars m st.begin st.end) [
      | none ↦ null_result
      | some (ptr, value) ↦ record { state = record { begin = ptr; end = st.end }; value = value }
    ]);
  }

-- The grammar of a choice of literals with a constant value.
abbrev pub literal_grammar : {A : Type 0} → A → List Literal → Grammar A
literal_grammar constant lits l = do rest ← strip_any lits l; some (constant, rest)

-- The grammar of `bool_parser`.
abbrev pub bool_grammar : Grammar Bool
bool_grammar l =
    if is_prefix (codes "true") l
    then some (true, drop 4 l)
    else if is_prefix (codes "false") l
    then some (false, drop 5 l)
    else none

module _ {A : Type 0} ⦃d : DefaultConstructible A⦄ where
  -- `literal_constant` takes the first of its literals that the characters begin with, and has its
  -- constant for value; where there is none it fails.
  pub literal_constant-Refines :
      (constant : A) (lits : List Literal) (n : ℕ)
      → Refines (λ m v. v) n (literal_constant constant lits) (literal_grammar constant lits)
  literal_constant-Refines constant lits n = record {
    returns = λ m st v l.
        go m st v (check_any lits m st) (strip_any lits (view m st)) (check_any-Finds lits m st v);
  }
    where
      go :
          (m : Memory) (st : State)
          → IsValid st
          → (tested : Bool × State) (left : Option (List ℕ)) → Finds m st tested left
          → Returns
              (λ m (v : A). v)
              false
              m
              st
              (some
                (if tested.0 then record { state = tested.1; value = constant } else null_result))
              (left >>= λ rest. some (constant, rest))
      go m st v (found, next) none (e, e') = rw e (Returns-fail (λ m v. v) m st)
      go m st v (found, next) (some rest) (e, tail, left) =
          rw (e, ← left) (Returns-ok (λ m v. v) false m _ v tail)

-- `bool_parser` takes the word "true" or the word "false" at the beginning of the characters, with
-- its value, and fails where they begin with neither.
pub bool_parser-Refines : (n : ℕ) → Refines (λ m v. v) n bool_parser bool_grammar
unfolding bool_parser
bool_parser-Refines n = record {
  returns = λ m st v l.
      let word : (str : List ℕ) (value : Bool)
          → is_prefix str (view m st) ≡ true
          → Returns (λ m (v : Bool). v) false m st
              (some (record { state = State.substr st (length str); value = value }))
              (some (value, drop (length str) (view m st))) =
        λ str value h.
          let (tail, left) =
            remove_prefix-IsTail m (length str) v (is_prefix-length-le str (view m st) h) in
          rw (← left) (Returns-ok (λ m v. v) false m _ v tail) in
      rw
        (
          starts_with_array-is_prefix m st (codes "true") v.ordered,
          starts_with_array-is_prefix m st (codes "false") v.ordered,
        )
        (elim (Bool-cases (is_prefix (codes "true") (view m st))) [
          | inl h ↦ rw h (word (codes "true") true h)
          | inr h ↦ rw h (elim (Bool-cases (is_prefix (codes "false") (view m st))) [
            | inl k ↦ rw k (word (codes "false") false k)
            | inr k ↦ rw k (Returns-fail (λ m v. v) m st)
          ])
        ]);
}
