-- ===== src/Hello/Success.antt =====
-- What the program of src/hello.cpp writes.
use noam.Base.{ℕ, ◌-◌, ◌<◌, ◌≡◌, refl, ap, some, List, [], ◌∷◌, ◌++◌, map, codes, arith}
use noam.Base.Int.{ℤ}
use noam.Combinators.Sequence.{sequence}
use noam.Combinators.Sequence.Delimited.{separator-Refines}
use noam.Combinators.Sequence.Separated.{Separated, sequence-Separated}
use noam.Combinators.Sequence.Words.{separator_grammar}
use noam.Combinators.Match.{separator}
use noam.Hello.{greet}
use noam.Intrinsics.Numbers.{ReadsNumbers, charconv-Refines}
use noam.Intrinsics.Words.{FromChars}
use noam.Literal.{string_literal}
use noam.Parser.Refines.{Grammar}
use noam.State.{State, Memory}
use noam.State.View.{IsValid, view}
use noam.Sums.{parse_int, ℤ-default}

map-same : (l : List ℤ) → map (λ v. v) l ≡ l
map-same [] = refl
map-same (x ∷ l) = ap (◌∷◌ x) (map-same l)

-- The program writes that it succeeded for every text: on a valid state of fewer characters than
-- its fuel, where `std::from_chars` reads numbers by a grammar, it returns, and writes the numbers
-- that stand at the beginning with commas between them, as many as there are, and what follows the
-- last of them.
greet-Separated :
    (int_from_chars : FromChars ℤ) (number : Grammar ℤ) (format_values : List ℤ → List ℕ) (fuel : ℕ)
    (m : Memory) (st : State)
    → ReadsNumbers int_from_chars number
    → IsValid st
    → st.end - st.begin < fuel
    → (ns : List ℤ) × (rest : List ℕ) × Separated number
        (separator_grammar (string_literal (codes ",")))
        (view m st)
        ns
        rest
      × (greet int_from_chars format_values fuel m st
          ≡ some (
              codes "Success\n"
              ++ codes "Success\n"
              ++ (codes "State: '" ++ rest ++ codes "'\n")
              ++ (codes "Value: " ++ format_values ns ++ codes "\n")))
unfolding greet sequence
greet-Separated int_from_chars number format_values fuel m st reads valid fits =
    let (r, e, separated, _) =
      sequence-Separated (parse_int int_from_chars) (separator (string_literal (codes ",") ∷ []))
        number (separator_grammar (string_literal (codes ",")))
        (charconv-Refines int_from_chars number fuel reads)
        (separator-Refines fuel (string_literal (codes ","))) reads.takes fuel m st (omega arith)
        valid fits in
    (r.value, view m r.state, rw (map-same r.value) at separated, rw e refl)
