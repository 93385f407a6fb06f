-- ===== src/Formatting/Finds.antt =====
-- Where `find_first` and `find_last` find a token.
use noam.Base.{
  ℕ, ◌≡◌, refl, Bool, true, false, ◌||◌, List, [], ◌∷◌, ◌++◌, length, none, some, arith,
}
use noam.Formatting.{find_first, find_last}
use noam.State.Prefix.{is_prefix, is_prefix_iff}

-- Whether the token stands at some place.
abbrev pub occurs : List ℕ → List ℕ → Bool
occurs token [] = is_prefix token []
occurs token (c ∷ l) = is_prefix token (c ∷ l) || occurs token l

-- Whether the token stands in `before ++ rest` at a place in `before`.
abbrev pub occurs_before : List ℕ → List ℕ → List ℕ → Bool
occurs_before token [] rest = false
occurs_before token (c ∷ before) rest =
    is_prefix token (c ∷ (before ++ rest)) || occurs_before token before rest

find_first-prefix : (token l : List ℕ) → is_prefix token l ≡ true → find_first token l ≡ some 0
unfolding find_first
find_first-prefix token [] h = rw h refl
find_first-prefix token (c ∷ l) h = rw h refl

pub find_first-token :
    (token before rest : List ℕ)
    → occurs_before token before (token ++ rest) ≡ false
    → find_first token (before ++ (token ++ rest)) ≡ some (length before)
unfolding find_first
find_first-token token [] rest h =
    find_first-prefix token (token ++ rest) ((is_prefix_iff token (token ++ rest)).1 (rest, refl))
find_first-token token (c ∷ before) rest h =
    let here : is_prefix token (c ∷ (before ++ (token ++ rest))) ≡ false = ground (arith, h) in
    let behind : occurs_before token before (token ++ rest) ≡ false = ground (arith, h) in
    rw (here, find_first-token token before rest behind) refl

find_last-absent : (token l : List ℕ) → occurs token l ≡ false → find_last token l ≡ none
unfolding find_last
find_last-absent token [] h = rw h refl
find_last-absent token (c ∷ l) h =
    let here : is_prefix token (c ∷ l) ≡ false = ground (arith, h) in
    let behind : occurs token l ≡ false = ground (arith, h) in
    rw (find_last-absent token l behind, here) refl

pub find_last-token :
    (t : ℕ) (token front after : List ℕ)
    → occurs (t ∷ token) (token ++ after) ≡ false
    → find_last (t ∷ token) (front ++ (t ∷ (token ++ after))) ≡ some (length front)
unfolding find_last
find_last-token t token [] after h =
    let here = (is_prefix_iff (t ∷ token) (t ∷ (token ++ after))).1 (after, refl) in
    rw (find_last-absent (t ∷ token) (token ++ after) h, here) refl
find_last-token t token (c ∷ front) after h = rw (find_last-token t token front after h) refl
