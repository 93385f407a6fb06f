-- ===== src/Types/Packs.antt =====
-- `prepend_t`, `all_but_last_t` and `last_t` of include/noam/util/helpers.hpp. Where there is no
-- specialisation, the program is not compiled, which is `none`.
use noam.Base.{◌≡◌, refl, ap, List, [], ◌∷◌, ◌++◌, Option, none, some, ◌>>=◌}

module _ {A : Type 0} where
  abbrev pub prepend : A → List A → List A
  prepend t list = t ∷ list

  unfoldable pub all_but_last : List A → Option (List A)
  all_but_last [] = none
  all_but_last (a ∷ []) = some []
  all_but_last (a ∷ b ∷ others) = do front ← all_but_last (b ∷ others); some (prepend a front)

  unfoldable pub last : List A → Option A
  last [] = none
  last (a ∷ []) = some a
  last (a ∷ b ∷ others) = last (b ∷ others)

  -- Of a list of types that is not empty, `all_but_last_t` and `last_t` are defined, and the list
  -- is that of all but the last with the last behind them.
  pub all_but_last-last :
      (a : A) (others : List A)
      → (front : List A) × (z : A) × (all_but_last (a ∷ others) ≡ some front)
        × (last (a ∷ others) ≡ some z)
        × (front ++ z ∷ [] ≡ a ∷ others)
  unfolding all_but_last last
  all_but_last-last a [] = ([], a, refl, refl, refl)
  all_but_last-last a (b ∷ others) =
      let (front, z, e, e', split) = all_but_last-last b others in
      (a ∷ front, z, rw e refl, e', ap (◌∷◌ a) split)
