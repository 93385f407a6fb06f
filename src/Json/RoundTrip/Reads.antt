-- ===== src/Json/RoundTrip/Reads.antt =====
-- What `format` puts out is read back.
use noam.Base.{false, ℕ, zero, suc, ◌<◌, ◌≡◌, refl, true, List, ◌∷◌, ◌++◌, some, arith}
use noam.Combinators.Sequence.Separated.{Following}
use noam.Combinators.Sequence.Words.{separator_grammar}
use noam.Intrinsics.Chars.{one_of}
use noam.Json.Format.Text.{text, more_values, more_entries, spaces, indent}
use noam.Json.Grammars.{value_grammar}
use noam.Json.RoundTrip.Blanks.{skip_blanks-spaces, comma_text, no_comma}
use noam.Json.RoundTrip.Printable.{
  IsReadable, AreReadable, AreSorted, depth_value, depth_values, depth_entries, list_of, pairs_of,
}
use noam.Json.RoundTrip.Values.{ends, PrintsNumbers, null_text, bool_text, number_text, string_text}
use noam.Json.Value.{JsonValue, Values, Entries}
use noam.Literal.{char_literal}
use noam.Parser.Refines.{Grammar}
use noam.State.Prefix.{is_prefix}
use noam.Json.RoundTrip.Texts.{
  text-starts, ends-more_values, ends-more_entries, entry_grammar-text, more_values-tail,
  more_entries-tail, entry_line,
}
use noam.Json.RoundTrip.Nested.{entries_of, array_of-text, object_of-text, no_array-text}

mutual
  unfolding depth_value depth_values depth_entries is_prefix one_of text more_values more_entries

  pub value-text :
      {N : Type 0} (print : N → List ℕ) (number : Grammar N) (h : PrintsNumbers print number)
      {v : JsonValue (List ℕ) N} (p : IsReadable false v) (k n : ℕ) (rest : List ℕ)
      → depth_value v < k
      → ends rest ≡ true
      → value_grammar number k (text print n v ++ rest) ≡ some (v, rest)
  value-text print number h p zero n rest fits e = absurd (omega arith)
  value-text print number h IsReadable.null (suc k) n rest fits e =
      null_text print number h (value_grammar number k) rest
  value-text print number h (IsReadable.boolean {b}) (suc k) n rest fits e =
      bool_text print number h (value_grammar number k) b n rest
  value-text print number h (IsReadable.number {x}) (suc k) n rest fits e =
      number_text print number h (value_grammar number k) x rest e
  value-text print number h (IsReadable.string {s} q) (suc k) n rest fits e =
      string_text print number h (value_grammar number k) s rest q
  value-text print number h (IsReadable.array {vs} ps) (suc k) n rest fits e =
      array-text print number h ps k n rest (omega (arith, fits))
  value-text print number h (IsReadable.empty_object e') (suc k) n rest fits e = cc
  value-text print number h (IsReadable.object {key} {val} {behind} s) (suc k) n rest fits e =
      object-text print number h s k n rest (omega (arith, fits)) refl

  array-text :
      {N : Type 0} (print : N → List ℕ) (number : Grammar N) (h : PrintsNumbers print number)
      {vs : Values (List ℕ) N} (ps : AreReadable false vs) (k n : ℕ) (rest : List ℕ)
      → depth_values vs < k
      → value_grammar number (suc k) (text print n (JsonValue.array vs) ++ rest)
        ≡ some (JsonValue.array vs, rest)
  array-text print number h AreReadable.no_values k n rest fits =
      no_array-text print number h k n rest
  array-text print number h (AreReadable.value_of {v} {vs} p ps) k n rest fits =
      array_of-text print number h k n v vs rest
        (value-text print number h p k n (more_values print n vs ++ b']' ∷ rest)
          (omega (arith, fits)) (ends-more_values print vs n rest))
        (values-text print number h ps k n rest (omega (arith, fits)))

  values-text :
      {N : Type 0} (print : N → List ℕ) (number : Grammar N) (h : PrintsNumbers print number)
      {vs : Values (List ℕ) N} (ps : AreReadable false vs) (k n : ℕ) (rest : List ℕ)
      → depth_values vs < k
      → Following
          (value_grammar number k)
          (separator_grammar (char_literal b','))
          (more_values print n vs ++ b']' ∷ rest)
          (list_of vs)
          (b']' ∷ rest)
  values-text print number h AreReadable.no_values k n rest fits =
      Following.no_separator (no_comma (b']' ∷ rest) (b']' ∷ rest) refl refl)
  values-text print number h (AreReadable.value_of {v} {vs} p ps) k n rest fits =
      let behind = more_values print n vs ++ b']' ∷ rest in
      rw (more_values-tail print number h n v vs (b']' ∷ rest)) (
        Following.another
          (comma_text (b' ' ∷ (text print n v ++ behind)) (text print n v ++ behind)
            (text-starts print number h v n behind))
          (value-text print number h p k n behind (omega (arith, fits))
            (ends-more_values print vs n rest))
          (values-text print number h ps k n rest (omega (arith, fits))))

  object-text :
      {N : Type 0} (print : N → List ℕ) (number : Grammar N) (h : PrintsNumbers print number)
      {es : Entries (List ℕ) N} (s : AreSorted false es) {key : List ℕ} {val : JsonValue (List ℕ) N}
      {behind : Entries (List ℕ) N} (k n : ℕ) (rest : List ℕ)
      → depth_entries es < k
      → es ≡ Entries.entry_of key val behind
      → value_grammar number (suc k) (text print n (JsonValue.object es) ++ rest)
        ≡ some (JsonValue.object es, rest)
  object-text print number h AreSorted.no_entries k n rest fits e = cc
  object-text print number h (AreSorted.entry_of {key} {val} {behind} q f p s) k n rest fits e =
      let tail = spaces n ++ b'}' ∷ rest in
      object_of-text print number h k n key val behind rest (AreSorted.entry_of q f p s) q
        (value-text print number h p k (indent n)
          (more_entries print (indent n) behind ++ b'\n' ∷ tail) (omega (arith, fits))
          (ends-more_entries print behind (indent n) tail))
        (entries-text print number h s k (indent n) n rest (omega (arith, fits)))

  entries-text :
      {N : Type 0} (print : N → List ℕ) (number : Grammar N) (h : PrintsNumbers print number)
      {es : Entries (List ℕ) N} (s : AreSorted false es) (k n n' : ℕ) (rest : List ℕ)
      → depth_entries es < k
      → Following
          (entries_of print number h k)
          (separator_grammar (char_literal b','))
          (more_entries print n es ++ b'\n' ∷ (spaces n' ++ b'}' ∷ rest))
          (pairs_of es)
          (b'\n' ∷ (spaces n' ++ b'}' ∷ rest))
  entries-text print number h AreSorted.no_entries k n n' rest fits = Following.no_separator (
      no_comma (b'\n' ∷ (spaces n' ++ b'}' ∷ rest)) (b'}' ∷ rest)
        (skip_blanks-spaces n' (b'}' ∷ rest)) refl)
  entries-text print number h (AreSorted.entry_of {key} {val} {behind} q f p s) k n n' rest fits =
      let tail = b'\n' ∷ (spaces n' ++ b'}' ∷ rest) in
      let inner = value_grammar number k in
      rw (more_entries-tail print number h n key val behind tail) (
        Following.another
          (comma_text (b'\n' ∷ entry_line print number h n key val behind tail) _
            (skip_blanks-spaces n _))
          (entry_grammar-text print number h inner key val n (more_entries print n behind ++ tail) q
            (value-text print number h p k n (more_entries print n behind ++ tail)
              (omega (arith, fits)) (ends-more_entries print behind n (spaces n' ++ b'}' ∷ rest))))
          (entries-text print number h s k n n' rest (omega (arith, fits))))
