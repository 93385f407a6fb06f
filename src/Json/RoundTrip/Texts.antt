-- ===== src/Json/RoundTrip/Texts.antt =====
-- The text of a value is read back as that value.
use noam.Base.{ℕ, zero, suc, ◌≡◌, refl, true, false, List, ◌∷◌, ◌++◌, append_assoc, none, some}
use noam.Combinators.Maps.Grammars.{entry_grammar}
use noam.Intrinsics.Chars.{one_of}
use noam.Intrinsics.Views.Quoted.{quoted, quote}
use noam.Json.Format.Text.{text, more_values, more_entries, spaces, indent}
use noam.Json.Grammars.{value_grammar}
use noam.Json.RoundTrip.Blanks.{skip_blanks, colon_text, entry_text}
use noam.Json.RoundTrip.Strings.{quotable, body-quotable}
use noam.Json.RoundTrip.Values.{ends, PrintsNumbers}
use noam.Json.Value.{JsonValue, Values, Entries}
use noam.Literal.{char_literal}
use noam.Parser.Refines.{Grammar}
use noam.State.Prefix.{is_prefix}

module _ {N : Type 0} (print : N → List ℕ) where
  pub text-starts :
      (number : Grammar N) (h : PrintsNumbers print number) (v : JsonValue (List ℕ) N) (n : ℕ)
      (rest : List ℕ)
      → skip_blanks (text print n v ++ rest) ≡ text print n v ++ rest
  unfolding one_of text
  text-starts number h JsonValue.null n rest = refl
  text-starts number h (JsonValue.string s) n rest = refl
  text-starts number h (JsonValue.number x) n rest = h.no_blank x rest
  text-starts number h (JsonValue.boolean true) n rest = refl
  text-starts number h (JsonValue.boolean false) n rest = refl
  text-starts number h (JsonValue.array Values.no_values) n rest = refl
  text-starts number h (JsonValue.array (Values.value_of v vs)) n rest = refl
  text-starts number h (JsonValue.object Entries.no_entries) n rest = refl
  text-starts number h (JsonValue.object (Entries.entry_of key val behind)) n rest = refl

  pub ends-more_values :
      (vs : Values (List ℕ) N) (n : ℕ) (rest : List ℕ)
      → ends (more_values print n vs ++ b']' ∷ rest) ≡ true
  unfolding one_of more_values
  ends-more_values Values.no_values n rest = refl
  ends-more_values (Values.value_of v vs) n rest = refl

  pub ends-more_entries :
      (es : Entries (List ℕ) N) (n : ℕ) (rest : List ℕ)
      → ends (more_entries print n es ++ b'\n' ∷ rest) ≡ true
  unfolding one_of more_entries
  ends-more_entries Entries.no_entries n rest = refl
  ends-more_entries (Entries.entry_of key val es) n rest = refl

  module _ (number : Grammar N) (h : PrintsNumbers print number) where
    pub entry_grammar-text :
        (inner : Grammar (JsonValue (List ℕ) N)) (key : List ℕ) (val : JsonValue (List ℕ) N) (n : ℕ)
        (rest : List ℕ)
        → quotable key ≡ true
        → inner (text print n val ++ rest) ≡ some (val, rest)
        → entry_grammar
            (char_literal b':')
            quoted
            inner
            (quote ∷ (key ++ quote ∷ b':' ∷ b' ' ∷ (text print n val ++ rest)))
          ≡ some ((key, val), rest)
    unfolding one_of
    entry_grammar-text inner key val n rest q e =
        let l2 = text print n val ++ rest in
        let l1 = b':' ∷ b' ' ∷ l2 in
        entry_text quoted inner key val (quote ∷ (key ++ quote ∷ l1)) l1 l2 rest
          (body-quotable key l1 q) (colon_text (b' ' ∷ l2) l2 (text-starts number h val n rest)) e

    pub no_value_bracket : (k : ℕ) (rest : List ℕ) → value_grammar number k (b']' ∷ rest) ≡ none
    unfolding is_prefix one_of
    no_value_bracket zero rest = refl
    no_value_bracket (suc k) rest = rw (h.no_number b']' rest refl) refl

    -- The text of an array, and of an object, behind its delimiter.
    pub array_tail :
        (n : ℕ) (v : JsonValue (List ℕ) N) (vs : Values (List ℕ) N) (rest : List ℕ)
        → text print n (JsonValue.array (Values.value_of v vs)) ++ rest
          ≡ b'[' ∷ (text print n v ++ (more_values print n vs ++ b']' ∷ rest))
    unfolding text
    array_tail n v vs rest = simp append_assoc

    pub more_values-tail :
        (n : ℕ) (v : JsonValue (List ℕ) N) (vs : Values (List ℕ) N) (rest : List ℕ)
        → more_values print n (Values.value_of v vs) ++ rest
          ≡ b',' ∷ b' ' ∷ (text print n v ++ (more_values print n vs ++ rest))
    unfolding more_values
    more_values-tail n v vs rest = simp append_assoc

    -- An entry with its indentation, in front of what follows it.
    abbrev pub entry_line : ℕ → List ℕ → JsonValue (List ℕ) N → Entries (List ℕ) N → List ℕ → List ℕ
    entry_line n key val es rest =
        spaces n
        ++ quote
          ∷ (key ++ quote ∷ b':' ∷ b' ' ∷ (text print n val ++ (more_entries print n es ++ rest)))

    pub object_tail :
        (n : ℕ) (key : List ℕ) (val : JsonValue (List ℕ) N) (es : Entries (List ℕ) N)
        (rest : List ℕ)
        → text print n (JsonValue.object (Entries.entry_of key val es)) ++ rest
          ≡ b'{' ∷ b'\n' ∷ entry_line (indent n) key val es (b'\n' ∷ (spaces n ++ b'}' ∷ rest))
    unfolding text
    object_tail n key val es rest = simp append_assoc

    pub more_entries-tail :
        (n : ℕ) (key : List ℕ) (val : JsonValue (List ℕ) N) (es : Entries (List ℕ) N)
        (rest : List ℕ)
        → more_entries print n (Entries.entry_of key val es) ++ rest
          ≡ b',' ∷ b'\n' ∷ entry_line n key val es rest
    unfolding more_entries
    more_entries-tail n key val es rest = simp append_assoc
