-- ===== src/Json/RoundTrip/Values.antt =====
-- Each kind of value is read back from its text, where the values in it are.
use noam.Base.{
  ℕ, ◌≡◌, refl, ap, ◌∙◌, Bool, true, false, List, [], ◌∷◌, ◌++◌, append_assoc, none, some, codes,
}
use noam.Combinators.Basic.Grammars.{map_grammar}
use noam.Combinators.Consumption.{Consumes}
use noam.Combinators.Either.Grammars.{either_grammar}
use noam.Intrinsics.Chars.{one_of}
use noam.Intrinsics.Views.Quoted.{quoted, body, quote}
use noam.Json.Format.Text.{text, quote_text}
use noam.Json.Grammars.{elements_grammar, entries_grammar, emplaced, value_grammars}
use noam.Json.RoundTrip.Blanks.{skip_blanks}
use noam.Json.RoundTrip.Strings.{quotable, body-quotable}
use noam.Json.Value.{JsonValue, values}
use noam.Parser.Refines.{Grammar}
use noam.State.Prefix.{is_prefix}

-- What stands behind a number: nothing, or the end of a value in an array or in an object.
abbrev pub ends : List ℕ → Bool
ends [] = true
ends (c ∷ l) = one_of (b',' ∷ b']' ∷ b'\n' ∷ []) c

-- What is promised of the text of a number: that it is read back before the end of a value, and
-- that it begins with none of the words that are tried before, and with no whitespace; and of the
-- reader of numbers, that none begins with a quote, a bracket or an opening brace.
pub record PrintsNumbers {N : Type 0} (print : N → List ℕ) (number : Grammar N) : Type 0 where
  pub takes : Consumes number
  pub no_blank : (x : N) (rest : List ℕ) → skip_blanks (print x ++ rest) ≡ print x ++ rest
  pub no_word :
      (x : N) (rest : List ℕ)
      → (is_prefix (codes "null") (print x ++ rest) ≡ false)
        × (is_prefix (codes "true") (print x ++ rest) ≡ false)
        × (is_prefix (codes "false") (print x ++ rest) ≡ false)
  pub read_back :
      (x : N) (rest : List ℕ) → ends rest ≡ true → number (print x ++ rest) ≡ some (x, rest)
  pub no_number :
      (c : ℕ) (l : List ℕ)
      → one_of (quote ∷ b'[' ∷ b']' ∷ b'{' ∷ []) c ≡ true
      → number (c ∷ l) ≡ none

-- The first grammar that does not fail.
data Chooses {B : Type 0} (l : List ℕ) (r : B × List ℕ) : List (Grammar B) → Type 0 where
  here : {g : Grammar B} {gs : List (Grammar B)} → g l ≡ some r → Chooses l r (g ∷ gs)
  later :
      {g : Grammar B} {gs : List (Grammar B)} → g l ≡ none → Chooses l r gs → Chooses l r (g ∷ gs)

either_grammar-Chooses :
    {B : Type 0} {l : List ℕ} {r : B × List ℕ} {gs : List (Grammar B)}
    → Chooses l r gs
    → either_grammar gs l ≡ some r
either_grammar-Chooses (Chooses.here e) = rw e
either_grammar-Chooses (Chooses.later e c) = rw e (either_grammar-Chooses c)

map_grammar-none :
    {A B : Type 0} (f : A → B) (g : Grammar A) (l : List ℕ) → g l ≡ none → map_grammar f g l ≡ none
map_grammar-none f g l e = rw e

map_grammar-some :
    {A B : Type 0} (f : A → B) (g : Grammar A) (l rest : List ℕ) (a : A)
    → g l ≡ some (a, rest)
    → map_grammar f g l ≡ some (f a, rest)
map_grammar-some f g l rest a e = rw e

module _ {N : Type 0} (print : N → List ℕ) (number : Grammar N) (h : PrintsNumbers print number)
    (inner : Grammar (JsonValue (List ℕ) N)) where
  abbrev read_value : Grammar (JsonValue (List ℕ) N)
  read_value = either_grammar (value_grammars number inner)

  chosen :
      (l rest : List ℕ) (v : JsonValue (List ℕ) N)
      → Chooses l (v, rest) (value_grammars number inner)
      → read_value l ≡ some (v, rest)
  chosen l rest v c = either_grammar-Chooses c

  pub null_text : (rest : List ℕ) → read_value (codes "null" ++ rest) ≡ some (JsonValue.null, rest)
  unfolding is_prefix
  null_text rest = refl

  pub bool_text :
      (b : Bool) (n : ℕ) (rest : List ℕ)
      → read_value (text print n (JsonValue.boolean b) ++ rest) ≡ some (JsonValue.boolean b, rest)
  unfolding is_prefix text
  bool_text true n rest = refl
  bool_text false n rest = refl

  pub number_text :
      (x : N) (rest : List ℕ)
      → ends rest ≡ true
      → read_value (print x ++ rest) ≡ some (JsonValue.number x, rest)
  number_text x rest e =
      let (e1, e2, e3) = h.no_word x rest in
      chosen (print x ++ rest) rest (JsonValue.number x) (
        Chooses.later (rw e1 refl) (
          Chooses.later (rw (e2, e3) refl) (
            Chooses.here
              (map_grammar-some JsonValue.number number _ rest x (h.read_back x rest e)))))

  pub string_text :
      (s rest : List ℕ)
      → quotable s ≡ true
      → read_value (quote_text s ++ rest) ≡ some (JsonValue.string s, rest)
  unfolding is_prefix one_of
  string_text s rest e =
      let l = s ++ codes "\"" ++ rest in
      let e' : body l ≡ some (s, rest) =
        ap body (append_assoc s (codes "\"") rest) ∙ body-quotable s rest e in
      chosen (quote ∷ l) rest (JsonValue.string s) (
        Chooses.later refl (
          Chooses.later refl (
            Chooses.later
              (map_grammar-none JsonValue.number number (quote ∷ l) (h.no_number quote l refl))
              (Chooses.here (map_grammar-some JsonValue.string quoted (quote ∷ l) rest s e')))))

  pub array_text :
      (bs : List (JsonValue (List ℕ) N)) (l rest : List ℕ)
      → elements_grammar inner (b'[' ∷ l) ≡ some (bs, rest)
      → read_value (b'[' ∷ l) ≡ some (JsonValue.array (values bs), rest)
  unfolding is_prefix one_of
  array_text bs l rest e = chosen (b'[' ∷ l) rest (JsonValue.array (values bs)) (
      Chooses.later refl (
        Chooses.later refl (
          Chooses.later
            (map_grammar-none JsonValue.number number (b'[' ∷ l) (h.no_number b'[' l refl))
            (Chooses.later refl (
              Chooses.here (
                map_grammar-some (λ vs. JsonValue.array (values vs)) (elements_grammar inner)
                  (b'[' ∷ l) rest bs e))))))

  pub object_text :
      (bs : List (List ℕ × JsonValue (List ℕ) N)) (l rest : List ℕ)
      → entries_grammar inner (b'{' ∷ l) ≡ some (bs, rest)
      → read_value (b'{' ∷ l) ≡ some (JsonValue.object (emplaced bs), rest)
  unfolding is_prefix one_of
  object_text bs l rest e = chosen (b'{' ∷ l) rest (JsonValue.object (emplaced bs)) (
      Chooses.later refl (
        Chooses.later refl (
          Chooses.later
            (map_grammar-none JsonValue.number number (b'{' ∷ l) (h.no_number b'{' l refl))
            (Chooses.later refl (
              Chooses.later refl (
                Chooses.here (
                  map_grammar-some JsonValue.object (map_grammar emplaced (entries_grammar inner))
                    (b'{' ∷ l) rest (emplaced bs)
                    (map_grammar-some emplaced (entries_grammar inner) (b'{' ∷ l) rest bs e))))))))
