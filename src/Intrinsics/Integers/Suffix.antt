-- ===== src/Intrinsics/Integers/Suffix.antt =====
-- What `std::from_chars` reads of integers stands at the beginning of the range.
use noam.Base.{
  ℕ, ◌+◌, ◌-◌, ◌*◌, ◌≤◌, ◌≡◌, refl, ap, sym, ◌∙◌, List, [], ◌∷◌, ◌++◌, length, length-append,
  Option, none, some, leb, ◌==◌, ◌&&◌, Bool-cases, inl, inr, arith,
}
use noam.Base.Int.{ℤ, pos}
use noam.Intrinsics.Integers.{
  IntegerType, is_digit, scan, magnitude, negate, greatest, least, positive, negative,
  integer_grammar, from_chars,
}
use noam.Intrinsics.Numbers.{ReadsNumbers}
use noam.State.View.{view, chars-skip, length-chars}

-- The rest is what stands behind some characters, of which there are `least` at least.
abbrev pub Behind : ℕ → List ℕ → List ℕ → Type 0
Behind n l rest = (front : List ℕ) × (l ≡ front ++ rest) × (n ≤ length front)

scan-Behind : (l : List ℕ) (n : ℕ) → Behind 0 l (scan l n).1
unfolding scan
scan-Behind [] n = ([], refl, omega arith)
scan-Behind (c ∷ l) n = elim (Bool-cases (is_digit c)) [
  | inl h ↦
      let (front, e, _) = scan-Behind l (n * 10 + (c - 48)) in
      rw h (c ∷ front, ap (◌∷◌ c) e, omega arith)
  | inr h ↦ rw h ([], refl, omega arith)
]

magnitude-Behind :
    (l : List ℕ) (n : ℕ) (rest : List ℕ) → magnitude l ≡ some (n, rest) → Behind 1 l rest
unfolding magnitude scan
magnitude-Behind [] n rest h = cc
magnitude-Behind (c ∷ l) n rest h = elim (Bool-cases (is_digit c)) [
  | inl d ↦
      let (front, e, _) = scan-Behind l (0 * 10 + (c - 48)) in
      let same : (scan l (0 * 10 + (c - 48))).1 ≡ rest = cc (rw d at h) in
      (c ∷ front, ap (◌∷◌ c) (rw same at e), omega arith)
  | inr d ↦ cc (rw d at h)
]

-- What a positive and a negative number are.
pub positive-some :
    (t : IntegerType) (found : Option (ℕ × List ℕ)) (v : ℤ) (rest : List ℕ)
    → positive t found ≡ some (v, rest)
    → (n : ℕ) × (found ≡ some (n, rest)) × (pos n ≡ v) × (n ≤ greatest t)
positive-some t none v rest h = cc
positive-some t (some (n, rest')) v rest h = elim (Bool-cases (leb n (greatest t))) [
  | inl fits ↦ let e = rw fits at h in (n, cc, cc, ground (arith, fits))
  | inr large ↦ cc (rw large at h)
]

pub negative-some :
    (t : IntegerType) (found : Option (ℕ × List ℕ)) (v : ℤ) (rest : List ℕ)
    → negative t found ≡ some (v, rest)
    → (n : ℕ) × (found ≡ some (n, rest)) × (negate n ≡ v) × (n ≤ least t)
negative-some t none v rest h = cc
negative-some t (some (n, rest')) v rest h = elim (Bool-cases (leb n (least t))) [
  | inl fits ↦ let e = rw fits at h in (n, cc, cc, ground (arith, fits))
  | inr large ↦ cc (rw large at h)
]

pub integer_grammar-Behind :
    (t : IntegerType) (l : List ℕ) (v : ℤ) (rest : List ℕ)
    → integer_grammar t l ≡ some (v, rest)
    → Behind 1 l rest
unfolding integer_grammar
integer_grammar-Behind t [] v rest h = cc
integer_grammar-Behind t (c ∷ l) v rest h = elim (Bool-cases (t.signed && c == b'-')) [
  | inl s ↦
      let (n, e, _, _) = negative-some t (magnitude l) v rest (rw s at h) in
      let (front, split, _) = magnitude-Behind l n rest e in
      (c ∷ front, ap (◌∷◌ c) split, omega arith)
  | inr s ↦
      let (n, e, _, _) = positive-some t (magnitude (c ∷ l)) v rest (rw s at h) in
      magnitude-Behind (c ∷ l) n rest e
]

pub from_chars-ReadsNumbers : (t : IntegerType) → ReadsNumbers (from_chars t) (integer_grammar t)
unfolding from_chars
from_chars-ReadsNumbers t = record {
  fails = λ m st v h. rw h refl;
  reads = λ m st x rest v h.
      let (front, split, _) = integer_grammar-Behind t (view m st) x rest h in
      let (k, size, left) = chars-skip m front rest st.begin (st.end - st.begin) split in
      let same : length rest ≡ k =
        ap length (sym left) ∙ length-chars m (st.begin + length front) k in
      let start : st.end - length rest ≡ st.begin + length front = omega (arith, same, size) in
      let room : st.end - (st.begin + length front) ≡ k = omega (arith, size) in
      (
        st.begin + length front,
        rw (h, start) refl,
        omega arith,
        omega (arith, size, v.ordered),
        rw room left,
      );
  takes = λ l x rest h.
      let (front, split, size) = integer_grammar-Behind t l x rest h in
      let e = length-append front rest in rw split (omega (arith, e, size));
}
