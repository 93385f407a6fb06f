-- ===== src/Json/RoundTrip/Nested.antt =====
-- Values in values are read back from their texts.
use noam.Base.{false, ℕ, suc, ◌≡◌, refl, ap, ◌∙◌, true, List, [], ◌∷◌, ◌++◌, some}
use noam.Combinators.Consumption.{Consumes, Consumes-Keeps}
use noam.Combinators.Maps.Grammars.{entry_grammar, entry_grammar-Consumes}
use noam.Combinators.Sequence.Grammars.{delimited_grammar-closed}
use noam.Combinators.Sequence.Separated.{Following, Separated}
use noam.Combinators.Sequence.Words.{separator_grammar}
use noam.Intrinsics.Chars.{one_of}
use noam.Intrinsics.Shorter.{quoted-Consumes}
use noam.Intrinsics.Views.Quoted.{quoted}
use noam.Json.Format.Text.{text, more_values, more_entries, spaces, indent}
use noam.Json.Grammars.{elements_grammar, entries_grammar, value_grammar}
use noam.Json.RoundTrip.Blanks.{skip_blanks-spaces, open_bracket, open_brace, close_text}
use noam.Json.RoundTrip.Printable.{AreSorted, list_of, values-list_of, pairs_of, emplaced-pairs_of}
use noam.Json.RoundTrip.Strings.{quotable}
use noam.Json.RoundTrip.Values.{PrintsNumbers, array_text, object_text}
use noam.Json.Shorter.{value_grammar-Consumes}
use noam.Json.Value.{JsonValue, Values, Entries}
use noam.Literal.{char_literal}
use noam.Parser.Refines.{Grammar}
use noam.State.Prefix.{is_prefix}
use noam.Json.RoundTrip.Texts.{
  text-starts, entry_grammar-text, no_value_bracket, array_tail, object_tail, entry_line,
}

module _ {N : Type 0} (print : N → List ℕ) (number : Grammar N)
    (h : PrintsNumbers print number) where
  abbrev pub entries_of : ℕ → Grammar (List ℕ × JsonValue (List ℕ) N)
  entries_of k = entry_grammar (char_literal b':') quoted (value_grammar number k)

  entries_of-Consumes : (k : ℕ) → Consumes (entries_of k)
  entries_of-Consumes k =
      let c = value_grammar-Consumes number h.takes k in
      entry_grammar-Consumes (char_literal b':') quoted (value_grammar number k) quoted-Consumes
        (Consumes-Keeps (value_grammar number k) c)

  -- An array is read back where its elements are.
  pub array_of-text :
      (k n : ℕ) (v : JsonValue (List ℕ) N) (vs : Values (List ℕ) N) (rest : List ℕ)
      → value_grammar number k (text print n v ++ (more_values print n vs ++ b']' ∷ rest))
        ≡ some (v, more_values print n vs ++ b']' ∷ rest)
      → Following
          (value_grammar number k)
          (separator_grammar (char_literal b','))
          (more_values print n vs ++ b']' ∷ rest)
          (list_of vs)
          (b']' ∷ rest)
      → value_grammar number (suc k) (text print n (JsonValue.array (Values.value_of v vs)) ++ rest)
        ≡ some (JsonValue.array (Values.value_of v vs), rest)
  unfolding is_prefix one_of
  array_of-text k n v vs rest e following =
      let l = text print n v ++ (more_values print n vs ++ b']' ∷ rest) in
      let c = value_grammar-Consumes number h.takes k in
      let elements : elements_grammar (value_grammar number k) (b'[' ∷ l)
          ≡ some (v ∷ list_of vs, rest) =
        delimited_grammar-closed (char_literal b'[') (char_literal b',') (char_literal b']')
          (value_grammar number k) c (b'[' ∷ l)
          (open_bracket l l (text-starts print number h v n _)) (Separated.elements e following)
          (close_text (char_literal b']') (b']' ∷ rest) (b']' ∷ rest) rest refl refl) in
      ap (value_grammar number (suc k)) (array_tail print number h n v vs rest)
      ∙ array_text print number h (value_grammar number k) (v ∷ list_of vs) l rest elements
      ∙ ap (λ vs'. some (JsonValue.array (Values.value_of v vs'), rest)) (values-list_of vs)

  -- An object is read back where its entries are.
  pub object_of-text :
      (k n : ℕ) (key : List ℕ) (val : JsonValue (List ℕ) N) (es : Entries (List ℕ) N)
      (rest : List ℕ)
      → AreSorted false (Entries.entry_of key val es)
      → quotable key ≡ true
      → value_grammar number k (
          text print (indent n) val
          ++ (more_entries print (indent n) es ++ b'\n' ∷ (spaces n ++ b'}' ∷ rest)))
        ≡ some (val, more_entries print (indent n) es ++ b'\n' ∷ (spaces n ++ b'}' ∷ rest))
      → Following
          (entries_of k)
          (separator_grammar (char_literal b','))
          (more_entries print (indent n) es ++ b'\n' ∷ (spaces n ++ b'}' ∷ rest))
          (pairs_of es)
          (b'\n' ∷ (spaces n ++ b'}' ∷ rest))
      → value_grammar number
          (suc k)
          (text print n (JsonValue.object (Entries.entry_of key val es)) ++ rest)
        ≡ some (JsonValue.object (Entries.entry_of key val es), rest)
  unfolding is_prefix one_of
  object_of-text k n key val es rest sorted q e following =
      let tail = b'\n' ∷ (spaces n ++ b'}' ∷ rest) in
      let line = entry_line print number h (indent n) key val es tail in
      let inner = value_grammar number k in
      let first =
        entry_grammar-text print number h inner key val (indent n)
          (more_entries print (indent n) es ++ tail) q e in
      let entries : entries_grammar inner (b'{' ∷ b'\n' ∷ line)
          ≡ some ((key, val) ∷ pairs_of es, rest) =
        delimited_grammar-closed (char_literal b'{') (char_literal b',') (char_literal b'}')
          (entries_of k) (entries_of-Consumes k) (b'{' ∷ b'\n' ∷ line)
          (open_brace (b'\n' ∷ line) _ (skip_blanks-spaces (indent n) _))
          (Separated.elements first following)
          (close_text (char_literal b'}') tail (b'}' ∷ rest) rest
            (skip_blanks-spaces n (b'}' ∷ rest)) refl) in
      ap (value_grammar number (suc k)) (object_tail print number h n key val es rest)
      ∙ object_text print number h inner ((key, val) ∷ pairs_of es) (b'\n' ∷ line) rest entries
      ∙ ap (λ es'. some (JsonValue.object es', rest))
          (emplaced-pairs_of (Entries.entry_of key val es) sorted)

  pub no_array-text :
      (k n : ℕ) (rest : List ℕ)
      → value_grammar number (suc k) (text print n (JsonValue.array Values.no_values) ++ rest)
        ≡ some (JsonValue.array Values.no_values, rest)
  unfolding is_prefix one_of text
  no_array-text k n rest =
      array_text print number h (value_grammar number k) [] (b']' ∷ rest) rest (
        delimited_grammar-closed (char_literal b'[') (char_literal b',') (char_literal b']')
          (value_grammar number k) (value_grammar-Consumes number h.takes k) (b'[' ∷ b']' ∷ rest)
          (open_bracket (b']' ∷ rest) (b']' ∷ rest) refl)
          (Separated.nothing (no_value_bracket print number h k rest))
          (close_text (char_literal b']') (b']' ∷ rest) (b']' ∷ rest) rest refl refl))
