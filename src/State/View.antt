-- ===== src/State/View.antt =====
-- The abstract content of a state of include/noam/state.hpp: the list of its characters.
use noam.Base.{
  ℕ, zero, suc, ◌+◌, ◌-◌, ◌^◌, ◌≤◌, ◌<◌, ◌≡◌, refl, ap, ◌∙◌, List, [], ◌∷◌, ◌++◌, length, get_or,
  arith,
}
use noam.State.{Memory, State, at}

-- The characters at `n` addresses, from `a` on.
unfoldable pub chars : Memory → ℕ → ℕ → List ℕ
chars m a zero = []
chars m a (suc n) = m a ∷ chars m (suc a) n

-- Nothing where the end stands before the beginning.
abbrev pub view : Memory → State → List ℕ
view m st = chars m st.begin (st.end - st.begin)

-- A state that points to a range of characters: not null, in order, of a size that fits.
pub record IsValid (st : State) : Type 0 where
  pub nonnull : 0 < st.begin
  pub ordered : st.begin ≤ st.end
  pub fits : st.end < 2 ^ 63

pub length-chars : (m : Memory) (a n : ℕ) → length (chars m a n) ≡ n
unfolding chars
length-chars m a zero = refl
length-chars m a (suc n) = ap suc (length-chars m (suc a) n)

pub chars-at : (m : Memory) (st : State) (i n : ℕ) → chars (at m st) i n ≡ chars m (st.begin + i) n
unfolding chars
chars-at m st i zero = refl
chars-at m st i (suc n) =
    let e : st.begin + suc i ≡ suc (st.begin + i) = omega arith in rw (chars-at m st (suc i) n, e)

pub chars-at_zero : (m : Memory) (st : State) (n : ℕ) → chars (at m st) 0 n ≡ chars m st.begin n
chars-at_zero m st n = let e : st.begin + 0 ≡ st.begin = omega arith in chars-at m st 0 n ∙ rw e

chars-suc : (f : ℕ → ℕ) (i n : ℕ) → chars f (suc i) n ≡ chars (λ j. f (suc j)) i n
unfolding chars
chars-suc f i zero = refl
chars-suc f i (suc n) = rw (chars-suc f (suc i) n)

pub chars-get_or : (xs : List ℕ) → chars (λ j. get_or xs j 0) 0 (length xs) ≡ xs
unfolding chars
chars-get_or [] = refl
chars-get_or (x ∷ xs) =
    ap (◌∷◌ x) (chars-suc (λ j. get_or (x ∷ xs) j 0) 0 (length xs) ∙ chars-get_or xs)

pub chars-append : (m : Memory) (a n k : ℕ) → chars m a (n + k) ≡ chars m a n ++ chars m (a + n) k
unfolding chars
chars-append m a zero k =
    let e : zero + k ≡ k = omega arith in let e' : a + zero ≡ a = omega arith in rw (e, e')
chars-append m a (suc n) k =
    let e : suc n + k ≡ suc (n + k) = omega arith in
    let e' : a + suc n ≡ suc a + n = omega arith in rw (e, e', chars-append m (suc a) n k)

-- The parts of a list of characters, by the memory.
pub chars-cons :
    (m : Memory) (a n c : ℕ) (l : List ℕ)
    → chars m a n ≡ c ∷ l
    → (k : ℕ) × (n ≡ suc k) × (m a ≡ c) × (chars m (suc a) k ≡ l)
unfolding chars
chars-cons m a zero c l h = cc
chars-cons m a (suc k) c l h = (k, refl, cc, cc)

pub chars-skip :
    (m : Memory) (xs tail : List ℕ) (a n : ℕ)
    → chars m a n ≡ xs ++ tail
    → (k : ℕ) × (n ≡ length xs + k) × (chars m (a + length xs) k ≡ tail)
chars-skip m [] tail a n h = let e : a + 0 ≡ a = omega arith in (n, omega arith, rw e h)
chars-skip m (x ∷ xs) tail a n h =
    let (n', e1, e2, e3) = chars-cons m a n x (xs ++ tail) h in
    let (k, e4, e5) = chars-skip m xs tail (suc a) n' e3 in
    let e6 : a + suc (length xs) ≡ suc a + length xs = omega arith in (k, omega arith, rw e6 e5)
