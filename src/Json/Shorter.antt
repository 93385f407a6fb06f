-- ===== src/Json/Shorter.antt =====
-- The grammar of values takes at least one character of each value.
use noam.Base.{ℕ, zero, suc, List, arith}
use noam.Combinators.Consumption.{
  Consumes, AllConsume, map_grammar-Consumes, literal_grammar-Consumes, either_grammar-Consumes,
  Consumes-Keeps,
}
use noam.Combinators.Maps.Grammars.{entry_grammar, entry_grammar-Consumes}
use noam.Combinators.Sequence.Grammars.{delimited_grammar-Consumes}
use noam.Intrinsics.Views.Quoted.{quoted}
use noam.Json.{null_literal}
use noam.Json.Grammars.{value_grammars, value_grammar}
use noam.Parser.Refines.{Grammar}
use noam.Result.{empty}
use noam.Json.Value.{JsonValue}
use noam.Literal.{char_literal}
use noam.Intrinsics.Shorter.{quoted-Consumes, bool_grammar-Consumes}

value_grammars-Consume :
    {N : Type 0} (number : Grammar N) (inner : Grammar (JsonValue (List ℕ) N))
    → Consumes number
    → Consumes inner
    → AllConsume (value_grammars number inner)
value_grammars-Consume number inner takes c =
    (AllConsume.cons
      (map_grammar-Consumes _ _ (literal_grammar-Consumes empty null_literal (omega arith)))
      (AllConsume.cons (map_grammar-Consumes _ _ bool_grammar-Consumes) (
        AllConsume.cons (map_grammar-Consumes _ _ takes) (
          AllConsume.cons (map_grammar-Consumes _ _ quoted-Consumes) (
            AllConsume.cons
              (map_grammar-Consumes _ _ (
                delimited_grammar-Consumes (char_literal b'[') (char_literal b',')
                  (char_literal b']') inner c (omega arith)))
              (AllConsume.cons
                (map_grammar-Consumes _ _ (
                  map_grammar-Consumes _ _ (
                    delimited_grammar-Consumes (char_literal b'{') (char_literal b',')
                      (char_literal b'}') (entry_grammar (char_literal b':') quoted inner)
                      (entry_grammar-Consumes (char_literal b':') quoted inner quoted-Consumes
                        (Consumes-Keeps inner c))
                      (omega arith))))
                AllConsume.nil))))))

pub value_grammar-Consumes :
    {N : Type 0} (number : Grammar N)
    → Consumes number
    → (depth : ℕ) → Consumes (value_grammar number depth)
value_grammar-Consumes number takes zero l b rest h = cc
value_grammar-Consumes number takes (suc depth) l b rest h =
    either_grammar-Consumes
      (value_grammars-Consume number (value_grammar number depth) takes
        (value_grammar-Consumes number takes depth))
      l b rest h
