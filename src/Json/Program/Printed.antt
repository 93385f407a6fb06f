-- ===== src/Json/Program/Printed.antt =====
-- What `parse_n_print` of src/json-example.cpp prints.
use noam.Base.{
  ℕ, ◌-◌, ◌<◌, ◌≡◌, ◌⊎◌, refl, ap, ◌∙◌, true, Option, none, some, List, [], ◌++◌, codes,
  Option-cases, inl, inr,
}
use noam.Combinators.Basic.{whitespace_enclose, enclose}
use noam.Intrinsics.Chars.{one_of}
use noam.Intrinsics.Numbers.{ReadsNumbers}
use noam.Intrinsics.Words.{FromChars}
use noam.Json.Format.{format}
use noam.Json.Format.Text.{text}
use noam.Json.Grammars.{json_grammar}
use noam.Json.Parsed.Values.{json_grammar-IsReadable}
use noam.Json.Parses.{parse_json-Refines}
use noam.Json.Program.{parse_n_print}
use noam.Json.Program.EmptyObjects.{written, text-written, written-IsPrintable}
use noam.Json.RoundTrip.Formatted.{any_value_grammar-text, format-text}
use noam.Json.RoundTrip.Printable.{IsReadable, IsPrintable}
use noam.Json.RoundTrip.Texts.{text-starts}
use noam.Json.RoundTrip.Values.{PrintsNumbers}
use noam.Json.Value.{JsonValue, JsonValue-default}
use noam.Parser.Refines.{Grammar}
use noam.Result.{DefaultConstructible}
use noam.State.{State, Memory}
use noam.State.View.{IsValid, view}

-- What is printed for what the grammar says of a text.
abbrev pub printed : {N : Type 0} → (N → List ℕ) → Option (JsonValue (List ℕ) N × List ℕ) → List ℕ
printed print none = codes "failed"
printed print (some (v, rest)) = format print v ++ codes "\n"

module _ {N : Type 0} ⦃d : DefaultConstructible N⦄ (from_chars : FromChars N) (print : N → List ℕ)
    (number : Grammar N) (fuel : ℕ) where
  -- `parse_n_print` returns, on a valid state of fewer characters than its fuel, where
  -- `std::from_chars` reads numbers by a grammar. It prints the format of the value that the
  -- grammar of nested values reads, and a newline, or `failed` where that grammar refuses the
  -- characters.
  pub parse_n_print-printed :
      (m : Memory) (sv : State)
      → ReadsNumbers from_chars number
      → IsValid sv
      → sv.end - sv.begin < fuel
      → parse_n_print from_chars print fuel m sv
        ≡ some (printed print (json_grammar number (view m sv)))
  unfolding parse_n_print whitespace_enclose enclose
  parse_n_print-printed m sv reads valid fits =
      let (r, e, a) = (parse_json-Refines from_chars number reads fuel).returns m sv valid fits in
      elim (Option-cases (json_grammar number (view m sv))) [
        | inl e' ↦ let bad = rw e' at a in rw (e, e', bad) refl
        | inr ((v, rest), e') ↦ let (ok, value, _, _) = rw e' at a in rw (e, e', ok, value) refl
      ]

module _ {N : Type 0} {print : N → List ℕ} {number : Grammar N} (h : PrintsNumbers print number)
    {v : JsonValue (List ℕ) N} where
  json_grammar-line :
      IsPrintable v → json_grammar number (text print 0 v ++ codes "\n") ≡ some (v, [])
  unfolding one_of
  json_grammar-line p =
      let starts = text-starts print number h v 0 (codes "\n") in
      rw (starts, any_value_grammar-text h p (codes "\n") refl) refl

module _ {N : Type 0} {print : N → List ℕ} {number : Grammar N}
    (h : PrintsNumbers print number) where
  -- An empty object is printed as an empty array, which is printed so again.
  printed-line :
      (v : JsonValue (List ℕ) N)
      → IsReadable true v
      → printed print (json_grammar number (format print v ++ codes "\n"))
        ≡ format print v ++ codes "\n"
  printed-line v p =
      let e = format-text print v in
      let same = text-written print 0 v in
      let line = rw same at (json_grammar-line h (written-IsPrintable v p)) in
      rw (e, line, format-text print (written v), same) refl

  printed_twice :
      (l : List ℕ)
      → (printed print (json_grammar number l) ≡ codes "failed")
        ⊎ (printed print (json_grammar number (printed print (json_grammar number l)))
            ≡ printed print (json_grammar number l))
  printed_twice l = elim (Option-cases (json_grammar number l)) [
    | inl e ↦ inl (rw e refl)
    | inr ((v, rest), e) ↦ inr (rw e (printed-line v (json_grammar-IsReadable number l rest v e)))
  ]

-- What `parse_n_print` prints on a valid state is `failed`, or it is printed again as it is, from a
-- valid state that has it as its characters. Both states have fewer characters than the fuel.
-- `std::from_chars` reads numbers by a grammar that reads back what is written for a number, in
-- front of what follows a number in a text of `format`.
pub parse_n_print-idempotent :
    {N : Type 0} ⦃d : DefaultConstructible N⦄ (from_chars : FromChars N) (print : N → List ℕ)
    (number : Grammar N) (fuel : ℕ) (m : Memory) (sv : State) (m' : Memory) (sv' : State)
    (out : List ℕ)
    → ReadsNumbers from_chars number
    → PrintsNumbers print number
    → IsValid sv
    → sv.end - sv.begin < fuel
    → parse_n_print from_chars print fuel m sv ≡ some out
    → IsValid sv'
    → sv'.end - sv'.begin < fuel
    → view m' sv' ≡ out
    → (out ≡ codes "failed") ⊎ (parse_n_print from_chars print fuel m' sv' ≡ some out)
parse_n_print-idempotent from_chars print number fuel m sv m' sv' out reads prints valid fits e
      valid' fits' e' =
    let first = parse_n_print-printed from_chars print number fuel m sv reads valid fits in
    let second = parse_n_print-printed from_chars print number fuel m' sv' reads valid' fits' in
    let same : printed print (json_grammar number (view m sv)) ≡ out = cc (first, e) in
    elim (printed_twice prints (view m sv)) [
      | inl failed ↦ inl (rw same at failed)
      | inr again ↦ inr (rw e' at second ∙ ap some (rw same at again))
    ]
