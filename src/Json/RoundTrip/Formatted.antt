-- ===== src/Json/RoundTrip/Formatted.antt =====
-- `parse_json` of src/json-example.cpp reads what `format` of src/include/json_value.hpp puts out.
use noam.Base.{
  ℕ, suc, ◌+◌, ◌-◌, ◌<◌, ◌≡◌, refl, ap, ◌∙◌, sym, true, List, [], ◌++◌, append_nil, length, some,
  arith,
}
use noam.Combinators.Basic.{whitespace_enclose, enclose}
use noam.Intrinsics.Numbers.{ReadsNumbers}
use noam.Intrinsics.Words.{FromChars}
use noam.Json.{parse_json}
use noam.Json.Depth.{value_grammar-depth}
use noam.Json.Format.{format}
use noam.Json.Format.Text.{text, format_value_lem}
use noam.Json.Grammars.{any_value_grammar, json_grammar}
use noam.Json.Parses.{read, parse_json-Refines}
use noam.Json.RoundTrip.Printable.{IsPrintable, depth_value}
use noam.Json.RoundTrip.Reads.{value-text}
use noam.Json.RoundTrip.Texts.{text-starts}
use noam.Json.RoundTrip.Values.{ends, PrintsNumbers}
use noam.Json.Value.{JsonValue}
use noam.Parser.Refines.{Grammar}
use noam.Result.{Result, DefaultConstructible}
use noam.State
use noam.State.{State, Memory}
use noam.State.View.{IsValid, view}

pub format-text :
    {N : Type 0} (print : N → List ℕ) (v : JsonValue (List ℕ) N) → format print v ≡ text print 0 v
format-text print v = ap (λ done. done.1) (format_value_lem print 0 v [])

module _ {N : Type 0} {print : N → List ℕ} {number : Grammar N} (h : PrintsNumbers print number)
    {v : JsonValue (List ℕ) N} (p : IsPrintable v) where
  pub any_value_grammar-text :
      (rest : List ℕ)
      → ends rest ≡ true
      → any_value_grammar number (text print 0 v ++ rest) ≡ some (v, rest)
  any_value_grammar-text rest e =
      let l = text print 0 v ++ rest in
      let depth = suc (length l + depth_value v) in
      value_grammar-depth number h.takes (suc (length l)) depth l (omega arith) (omega arith)
      ∙ value-text print number h p depth 0 rest (omega arith) e

  json_grammar-format : json_grammar number (format print v) ≡ some (v, [])
  json_grammar-format =
      let e : format print v ≡ text print 0 v ++ [] =
        format-text print v ∙ sym (append_nil (text print 0 v)) in
      rw (e, text-starts print number h v 0 [], any_value_grammar-text [] refl) refl

-- What `format` puts out for a value is read back as that value by `parse_json`, which returns and
-- leaves nothing, on a valid state of these characters and of fewer than its fuel. The value has no object without
-- entries, since `format` writes such an object as an empty array; the entries of its objects are
-- sorted by their keys, as in a map; in its strings, which are written without escape codes, a
-- backslash stands before each quote and none of its own at the end. `std::from_chars` reads
-- numbers by a grammar that reads back what is written for a number, in front of what follows a
-- number in a text of `format`.
pub parse_json-format :
    {N : Type 0} ⦃d : DefaultConstructible N⦄ (from_chars : FromChars N) (print : N → List ℕ)
    (number : Grammar N) (fuel : ℕ) (v : JsonValue (List ℕ) N) (m : Memory) (st : State)
    → ReadsNumbers from_chars number
    → PrintsNumbers print number
    → IsPrintable v
    → IsValid st
    → view m st ≡ format print v
    → st.end - st.begin < fuel
    → (r : Result (JsonValue State N)) × ((parse_json from_chars fuel).parse m st ≡ some r)
      × (State.good r.state ≡ true)
      × (read m r.value ≡ v)
      × (view m r.state ≡ [])
unfolding whitespace_enclose enclose
parse_json-format {N} from_chars print number fuel v m st reads prints p valid e fits =
    let (r, e', a) = (parse_json-Refines from_chars number reads fuel).returns m st valid fits in
    let (ok, value, _, left) = rw (e, json_grammar-format prints p) at a in (r, e', ok, value, left)
