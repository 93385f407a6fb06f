-- ===== src/Combinators/Basic.antt =====
-- `pure`, `map`, `enclose` and `operator>>` of include/noam/util/combinator_types.hpp,
-- include/noam/combinators.hpp and include/noam/operators.hpp.
pub mod Grammars
use noam.Base.{Bool, true, false, Option, none, some, if◌then◌else◌, ◌>>=◌}
use noam.Intrinsics.Chars.{whitespace}
use noam.Parser.{Parser, attempt}
use noam.Result.{Result, DefaultConstructible, null_result}

pub pure {ℓ} : {A : Type ℓ} → A → Parser A
pure value = record {
  always_good = true;
  parse = λ m st. some (record { state = st; value = value });
}

-- The result type is pure where that of the parser is.
unfoldable pub map {ℓ κ} :
    {A : Type ℓ} {B : Type κ} ⦃d : DefaultConstructible B⦄ → (A → B) → Parser A → Parser B
map func parser = record {
  always_good = parser.always_good;
  parse = λ m st.
      if parser.always_good
      then (do r ← parser.parse m st; some (record { state = r.state; value = func r.value }))
      else attempt parser m st (λ r. some (record { state = r.state; value = func r.value }))
          (some null_result);
}

unfoldable pub enclose {ℓ} :
    {A P Q : Type ℓ} ⦃d : DefaultConstructible A⦄ → Parser P → Parser A → Parser Q → Parser A
enclose prefix parser postfix = record {
  always_good = false;
  parse = λ m st.
      attempt prefix m st
        (λ pre.
          attempt parser m pre.state
            (λ value.
              attempt postfix m value.state
                (λ post. some (record { state = post.state; value = value.value }))
                (some null_result))
            (some null_result))
        (some null_result);
}

unfoldable pub whitespace_enclose : {A : Type 0} ⦃d : DefaultConstructible A⦄ → Parser A → Parser A
unfolding enclose
whitespace_enclose p = enclose whitespace p whitespace

-- `p1 >> p2`
infixl 5 ◌>>◌
unfoldable pub ◌>>◌ {ℓ} :
    {A B : Type ℓ} ⦃d : DefaultConstructible B⦄ → Parser A → Parser B → Parser B
p1 >> p2 = record {
  always_good = false;
  parse = λ m st.
      attempt p1 m st
        (λ r1.
          attempt p2 m r1.state (λ r2. some (record { state = r2.state; value = r2.value }))
            (some null_result))
        (some null_result);
}
