-- ===== src/Combinators/Recurse.antt =====
-- `recurse` of include/noam/combinators.hpp and include/noam/util/combinator_types.hpp: a parser that
-- is made of itself. `fuel` bounds the depth of the calls of the parser to itself.
pub mod Depth
use noam.Base.{ℕ, zero, suc, false, none}
use noam.Parser.{Parser}

-- `func(ref_self {*this})`, called anew by each call of the parser.
unfoldable pub recurse {ℓ} : {T : Type ℓ} → ℕ → (Parser T → Parser T) → Parser T
recurse zero func = record { always_good = false; parse = λ m st. none }
recurse (suc fuel) func = record {
  always_good = false;
  parse = λ m st. (func (recurse fuel func)).parse m st;
}
