-- ===== src/State/Order.antt =====
-- `operator<=>` of include/noam/state.hpp against the lexical order of the views.
use native.Mathlib.Decide.{dec_lt}
use mathlib.Core.List.{append-nil}
use mathlib.Core.Path.{subst}
use noam.Base.{
  ℕ, zero, suc, ◌+◌, ◌-◌, ◌≤◌, ◌<◌, compare, Ordering, ◌≡◌, refl, sym, ◌∙◌, ◌↔◌, Bool, true, false,
  List, [], ◌∷◌, ◌++◌, ltb, lt→ltb, not_lt→ltb, if◌then◌else◌, arith,
}
use noam.Base.Int.{pos_part}
use noam.State.{Memory, State, size, at, char_rank, unless_eq, compare_chars, order, eq}
use noam.State.View.{chars, view, chars-append, chars-at_zero}
use noam.State.Prefix.{eq_iff}

-- The lexical order of two lists of characters, by the first position where they differ; where one
-- is the beginning of the other, the shorter one comes first.
unfoldable pub lexical : Bool → List ℕ → List ℕ → Ordering
lexical signed [] [] = Ordering.eq
lexical signed [] (y ∷ b) = Ordering.lt
lexical signed (x ∷ a) [] = Ordering.gt
lexical signed (x ∷ a) (y ∷ b) =
    let behind = lexical signed a b in
    if ltb (char_rank signed x) (char_rank signed y)
    then Ordering.lt
    else if ltb (char_rank signed y) (char_rank signed x)
    then Ordering.gt
    else behind

module _ (signed : Bool) where
  -- What the first pair of characters decides.
  unless_eq-ranks :
      (a b : ℕ) (o : Ordering)
      → unless_eq (compare a b) o
        ≡ (if ltb a b then Ordering.lt else if ltb b a then Ordering.gt else o)
  unfolding unless_eq
  unless_eq-ranks a b o = ground arith

  compare_chars-lexical :
      (f g : ℕ → ℕ) (i n : ℕ) (xs ys : List ℕ)
      → compare_chars signed f g i n (lexical signed xs ys)
        ≡ lexical signed (chars f i n ++ xs) (chars g i n ++ ys)
  unfolding compare_chars lexical chars
  compare_chars-lexical f g i zero xs ys = refl
  compare_chars-lexical f g i (suc n) xs ys =
      let e : i + 1 ≡ suc i = omega arith in
      rw (e, compare_chars-lexical f g (suc i) n xs ys)
        (unless_eq-ranks (char_rank signed (f i)) (char_rank signed (g i))
          (lexical signed (chars f (suc i) n ++ xs) (chars g (suc i) n ++ ys)))

  compare-lexical_left :
      (m : Memory) (a n k : ℕ) → compare n (n + k) ≡ lexical signed [] (chars m a k)
  unfolding lexical chars
  compare-lexical_left m a n zero = ground arith
  compare-lexical_left m a n (suc k) = ground arith

  compare-lexical_right :
      (m : Memory) (a n k : ℕ) → compare (n + k) n ≡ lexical signed (chars m a k) []
  unfolding lexical chars
  compare-lexical_right m a n zero = ground arith
  compare-lexical_right m a n (suc k) = ground arith

  shorter-lexical :
      (f g : ℕ → ℕ) (n k : ℕ)
      → compare_chars signed f g 0 n (compare n (n + k))
        ≡ lexical signed (chars f 0 n) (chars g 0 (n + k))
  shorter-lexical f g n k =
      rw (compare-lexical_left g (0 + n) n k)
        (compare_chars-lexical f g 0 n [] (chars g (0 + n) k) ∙ rw (append-nil, ← chars-append))

  longer-lexical :
      (f g : ℕ → ℕ) (n k : ℕ)
      → compare_chars signed f g 0 n (compare (n + k) n)
        ≡ lexical signed (chars f 0 (n + k)) (chars g 0 n)
  longer-lexical f g n k =
      rw (compare-lexical_right f (0 + n) n k)
        (compare_chars-lexical f g 0 n (chars f (0 + n) k) [] ∙ rw (append-nil, ← chars-append))

  -- The order of two runs of characters, as the code computes it.
  compare_sizes-lexical :
      (f g : ℕ → ℕ) (s1 s2 : ℕ)
      → compare_chars signed f g 0 (if ltb s1 s2 then s1 else s2) (compare s1 s2)
        ≡ lexical signed (chars f 0 s1) (chars g 0 s2)
  compare_sizes-lexical f g s1 s2 = elim (dec_lt s1 s2) [
    | yes less ↦
        let e : s2 ≡ s1 + (s2 - s1) = omega arith in
        rw (lt→ltb s1 s2 less) (
          subst
            (λ s.
              compare_chars signed f g 0 s1 (compare s1 s)
              ≡ lexical signed (chars f 0 s1) (chars g 0 s))
            (sym e) (shorter-lexical f g s1 (s2 - s1)))
    | no more ↦
        let e : s1 ≡ s2 + (s1 - s2) = omega arith in
        rw (not_lt→ltb s1 s2 more) (
          subst
            (λ s.
              compare_chars signed f g 0 s2 (compare s s2)
              ≡ lexical signed (chars f 0 s) (chars g 0 s2))
            (sym e) (longer-lexical f g s2 (s1 - s2)))
  ]

pos_part-size : (st : State) → pos_part (size st) ≡ st.end - st.begin
pos_part-size st = ground arith

-- `operator<=>` is the lexical order of the views, also where a size is negative.
pub order-lexical :
    (signed : Bool) (m : Memory) (st other : State)
    → order signed m st other ≡ lexical signed (view m st) (view m other)
unfolding order
order-lexical signed m st other =
    rw (pos_part-size st, pos_part-size other)
      (compare_sizes-lexical signed (at m st) (at m other) (st.end - st.begin)
          (other.end - other.begin)
        ∙ rw (chars-at_zero m st, chars-at_zero m other))

abbrev pub flip : Ordering → Ordering
flip Ordering.lt = Ordering.gt
flip Ordering.gt = Ordering.lt
flip Ordering.eq = Ordering.eq

flip-compare : (x y : ℕ) → flip (compare x y) ≡ compare y x
flip-compare x y = ground arith

lexical-flip : (signed : Bool) (a b : List ℕ) → flip (lexical signed a b) ≡ lexical signed b a
unfolding lexical
lexical-flip signed [] [] = refl
lexical-flip signed [] (y ∷ b) = refl
lexical-flip signed (x ∷ a) [] = refl
lexical-flip signed (x ∷ a) (y ∷ b) = ground (arith, lexical-flip signed a b)

lexical-lt_trans :
    (signed : Bool) (a b c : List ℕ)
    → lexical signed a b ≡ Ordering.lt
    → lexical signed b c ≡ Ordering.lt
    → lexical signed a c ≡ Ordering.lt
unfolding lexical
lexical-lt_trans signed [] [] [] h k = h
lexical-lt_trans signed [] (y ∷ b) [] h k = cc
lexical-lt_trans signed [] b (z ∷ c) h k = refl
lexical-lt_trans signed (x ∷ a) [] c h k = cc
lexical-lt_trans signed (x ∷ a) (y ∷ b) [] h k = cc
lexical-lt_trans signed (x ∷ a) (y ∷ b) (z ∷ c) h k = ground (arith, lexical-lt_trans signed a b c)

-- Bytes have distinct ranks, whatever the signedness of `char`.
char_rank-injective :
    (signed : Bool) (x y : ℕ) → x < 256 → y < 256 → char_rank signed x ≡ char_rank signed y → x ≡ y
char_rank-injective true x y h k e = omega arith
char_rank-injective false x y h k e = e

-- A memory of bytes.
abbrev pub HoldsBytes : Memory → Type 0
HoldsBytes m = (a : ℕ) → m a < 256

lexical-chars-eq :
    (signed : Bool) (m : Memory) (a b n k : ℕ)
    → HoldsBytes m
    → lexical signed (chars m a n) (chars m b k) ≡ Ordering.eq
    → chars m a n ≡ chars m b k
unfolding lexical chars
lexical-chars-eq signed m a b zero zero w h = refl
lexical-chars-eq signed m a b zero (suc k) w h = cc
lexical-chars-eq signed m a b (suc n) zero w h = cc
lexical-chars-eq signed m a b (suc n) (suc k) w h = ground (
  arith,
  lexical-chars-eq signed m (suc a) (suc b) n k w,
  char_rank-injective signed (m a) (m b) (w a) (w b),
)

lexical_self : (signed : Bool) (a : List ℕ) → lexical signed a a ≡ Ordering.eq
unfolding lexical
lexical_self signed [] = refl
lexical_self signed (x ∷ a) = ground (arith, lexical_self signed a)

-- Two states in order compare as equivalent under `operator<=>` exactly if `operator==` holds of
-- them, in a memory of bytes.
pub order-eq_iff :
    (signed : Bool) (m : Memory) (st other : State)
    → HoldsBytes m
    → st.begin ≤ st.end
    → other.begin ≤ other.end
    → (order signed m st other ≡ Ordering.eq) ↔ (eq m st other ≡ true)
order-eq_iff signed m st other w h k =
    let (same, back) = eq_iff m st other h k in
    rw (order-lexical signed m st other) (
      λ e. back (lexical-chars-eq signed m st.begin other.begin _ _ w e),
      λ e. rw (same e) (lexical_self signed (view m other)),
    )

-- Exchanging the arguments of `operator<=>` exchanges less and greater in its result.
order-flip :
    (signed : Bool) (m : Memory) (st other : State)
    → flip (order signed m st other) ≡ order signed m other st
order-flip signed m st other =
    rw (order-lexical signed m st other, order-lexical signed m other st)
      (lexical-flip signed (view m st) (view m other))

-- Less than, by `operator<=>`, is transitive.
order-lt_trans :
    (signed : Bool) (m : Memory) (a b c : State)
    → order signed m a b ≡ Ordering.lt
    → order signed m b c ≡ Ordering.lt
    → order signed m a c ≡ Ordering.lt
order-lt_trans signed m a b c h k =
    order-lexical signed m a c
    ∙ lexical-lt_trans signed (view m a) (view m b) (view m c)
        (sym (order-lexical signed m a b) ∙ h) (sym (order-lexical signed m b c) ∙ k)
