-- ===== src/State/Prefix.antt =====
-- `starts_with` and `operator==` of include/noam/state.hpp against the views.
use noam.Base.{
  ℕ, zero, suc, ◌+◌, ◌-◌, ◌≤◌, ◌<◌, ◌≡◌, refl, sym, ap, ◌∙◌, ◌↔◌, Bool, true, false, ◌&&◌, List, [],
  ◌∷◌, ◌++◌, length, ◌==◌, ==_iff, ltb, lt→ltb, not_lt→ltb, le→leb, get_or, arith, if◌then◌else◌,
  Bool-cases, inl, inr,
}
use native.Mathlib.Decide.{dec_lt}
use native.Mathlib.Nat.{add-zero}
use noam.Base.Int.{pos}
use noam.State.{
  Memory, State, size, at, same_chars, starts_with, starts_with_array, starts_with_char, eq,
}
use noam.State.View.{chars, view, length-chars, chars-at_zero, chars-get_or}

unfoldable pub is_prefix : List ℕ → List ℕ → Bool
is_prefix [] l = true
is_prefix (x ∷ p) [] = false
is_prefix (x ∷ p) (y ∷ l) = x == y && is_prefix p l

same_chars-is_prefix :
    (f g : ℕ → ℕ) (i n k : ℕ) → same_chars f g i n ≡ is_prefix (chars f i n) (chars g i (n + k))
unfolding same_chars is_prefix chars
same_chars-is_prefix f g i zero k = refl
same_chars-is_prefix f g i (suc n) k =
    let e : suc n + k ≡ suc (n + k) = omega arith in
    let e' : i + 1 ≡ suc i = omega arith in
    rw (e, e') (ground (arith, same_chars-is_prefix f g (suc i) n k))

is_prefix_longer : (p l : List ℕ) → length l < length p → is_prefix p l ≡ false
unfolding is_prefix
is_prefix_longer [] l h = elim h [ ]
is_prefix_longer (x ∷ p) [] h = refl
is_prefix_longer (x ∷ p) (y ∷ l) h = ground (arith, is_prefix_longer p l)

pub is_prefix_iff : (p l : List ℕ) → (is_prefix p l ≡ true) ↔ ((rest : List ℕ) × (l ≡ p ++ rest))
unfolding is_prefix
is_prefix_iff [] l = (λ _. (l, refl), λ _. refl)
is_prefix_iff (x ∷ p) [] = (λ h. cc, λ (rest, h). cc)
is_prefix_iff (x ∷ p) (y ∷ l) = elim (Bool-cases (x == y)) [
  | inl same ↦ rw same (
    λ h. let (rest, e) = (is_prefix_iff p l).0 h in (rest, ground (arith, e, same)),
    λ (rest, h). (is_prefix_iff p l).1 (rest, ground arith),
  )
  | inr other ↦ rw other (λ h. cc, λ (rest, h). ground (arith))
]

-- The size test and the loop of both overloads, on `n` and `s` characters.
tests-is_prefix :
    (f g : ℕ → ℕ) (n s : ℕ)
    → (if ltb s n then false else same_chars f g 0 n) ≡ is_prefix (chars f 0 n) (chars g 0 s)
tests-is_prefix f g n s = elim (dec_lt s n) [
  | yes short ↦
      let e = length-chars f 0 n in
      let e' = length-chars g 0 s in
      rw (lt→ltb s n short)
        (sym (is_prefix_longer (chars f 0 n) (chars g 0 s) (omega (arith, e, e'))))
  | no long ↦
      let e : s ≡ n + (s - n) = omega arith in
      rw (not_lt→ltb s n long, same_chars-is_prefix f g 0 n (s - n), ← e)
]

size_ordered : (st : State) → st.begin ≤ st.end → size st ≡ pos (st.end - st.begin)
size_ordered st h = ground arith

-- `starts_with` tests whether the view of the argument is a prefix of the view of the state.
pub starts_with-is_prefix :
    (m : Memory) (st prefix : State)
    → st.begin ≤ st.end
    → prefix.begin ≤ prefix.end
    → starts_with m st prefix ≡ is_prefix (view m prefix) (view m st)
unfolding starts_with
starts_with-is_prefix m st prefix h k =
    simp (le→leb _ _ h, le→leb _ _ k, add-zero)
      (tests-is_prefix (at m prefix) (at m st) (prefix.end - prefix.begin) (st.end - st.begin)
        ∙ rw (chars-at_zero m prefix, chars-at_zero m st))

pub starts_with_array-is_prefix :
    (m : Memory) (st : State) (prefix : List ℕ)
    → st.begin ≤ st.end
    → starts_with_array m st prefix ≡ is_prefix prefix (view m st)
unfolding starts_with_array
starts_with_array-is_prefix m st prefix h =
    simp (le→leb _ _ h, add-zero)
      (tests-is_prefix (λ i. get_or prefix i 0) (at m st) (length prefix) (st.end - st.begin)
        ∙ rw (chars-at_zero m st, chars-get_or prefix))

pub starts_with_char-is_prefix :
    (m : Memory) (st : State) (ch : ℕ) → starts_with_char m st ch ≡ is_prefix (ch ∷ []) (view m st)
unfolding is_prefix
starts_with_char-is_prefix m st ch = elim (dec_lt st.begin st.end) [
  | yes h ↦
      let e : st.end - st.begin ≡ suc (st.end - suc st.begin) = omega arith in
      rw e (unfold chars in ground arith)
  | no h ↦ let e : st.end - st.begin ≡ 0 = omega arith in rw e (unfold chars in ground arith)
]

same_chars_iff : (f g : ℕ → ℕ) (i n : ℕ) → (same_chars f g i n ≡ true) ↔ (chars f i n ≡ chars g i n)
unfolding same_chars chars
same_chars_iff f g i zero = (λ h. refl, λ h. refl)
same_chars_iff f g i (suc n) =
    let e' : i + 1 ≡ suc i = omega arith in rw e' (ground (arith, same_chars_iff f g (suc i) n))

-- `operator==` holds of two states exactly if their views are the same.
pub eq_iff :
    (m : Memory) (st other : State)
    → st.begin ≤ st.end
    → other.begin ≤ other.end
    → (eq m st other ≡ true) ↔ (view m st ≡ view m other)
unfolding eq
eq_iff m st other h k =
    let sizes : (s : State) → length (view m s) ≡ s.end - s.begin =
      λ s. length-chars m s.begin (s.end - s.begin) in
    simp (le→leb _ _ h, le→leb _ _ k, add-zero)
      (elim (Bool-cases (other.end - other.begin == st.end - st.begin)) [
        | inl same ↦
            let e = (==_iff _ _).0 same in
            let (there, back) = same_chars_iff (at m other) (at m st) 0 (other.end - other.begin) in
            let e1 = chars-at_zero m other (other.end - other.begin) in
            let e2 = chars-at_zero m st (other.end - other.begin) ∙ ap (chars m st.begin) e in
            rw same (λ q. sym (sym e1 ∙ there q ∙ e2), λ q. back (e1 ∙ sym q ∙ sym e2))
        | inr differ ↦ rw differ (
          λ h. cc,
          λ q.
              let e = sym (sizes other) ∙ ap length (sym q) ∙ sizes st in
              cc ((==_iff _ _).1 e, differ),
        )
      ])
