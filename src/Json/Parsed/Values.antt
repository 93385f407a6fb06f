-- ===== src/Json/Parsed/Values.antt =====
-- What `parse_json` of src/json-example.cpp reads can be read.
use noam.Base.{
  ℕ, zero, suc, ◌≡◌, refl, true, List, [], ◌∷◌, length, some, ◌>>=◌, Option-cases, inl, inr,
}
use noam.Combinators.Basic.Grammars.{map_grammar}
use noam.Combinators.Consumption.{bind-some}
use noam.Combinators.Either.Grammars.{either_grammar}
use noam.Combinators.Maps.Grammars.{entry_grammar}
use noam.Combinators.Match.Grammars.{join_grammar, match_grammar}
use noam.Combinators.Sequence.All.{All, delimited_grammar-All}
use noam.Combinators.Sequence.Words.{separator_grammar, whitespace_grammar}
use noam.Intrinsics.Views.Quoted.{quoted}
use noam.Intrinsics.Words.{literal_grammar, bool_grammar}
use noam.Json.{null_literal}
use noam.Json.Grammars.{
  elements_grammar, entries_grammar, emplaced, value_grammars, value_grammar, any_value_grammar,
  json_grammar,
}
use noam.Json.Parsed.Keys.{emplace_all-AreSorted}
use noam.Json.Parsed.Quotes.{quoted-IsQuotable}
use noam.Json.RoundTrip.Printable.{IsReadable, AreReadable, AreSorted}
use noam.Json.RoundTrip.Strings.{quotable}
use noam.Json.Value.{JsonValue, Entries, values}
use noam.Literal.{Literal, char_literal}
use noam.Parser.Refines.{Grammar}
use noam.Result.{Empty, empty}

-- All that the grammar has for values have the property.
abbrev Has : {B : Type 0} → (B → Type 0) → Grammar B → Type 0
Has {B} P g = (l rest : List ℕ) (b : B) → g l ≡ some (b, rest) → P b

data AllHave {B : Type 0} (P : B → Type 0) : List (Grammar B) → Type 0 where
  nil : AllHave P []
  cons : {g : Grammar B} {gs : List (Grammar B)} → Has P g → AllHave P gs → AllHave P (g ∷ gs)

either_grammar-Has :
    {B : Type 0} {P : B → Type 0} {gs : List (Grammar B)} → AllHave P gs → Has P (either_grammar gs)
either_grammar-Has AllHave.nil l rest b h = cc
either_grammar-Has (AllHave.cons {g} p ps) l rest b h = elim (Option-cases (g l)) [
  | inl e ↦ either_grammar-Has ps l rest b (rw e at h)
  | inr ((b', rest'), e) ↦ let same : b' ≡ b = cc (rw e at h) in rw (← same) (p l rest' b' e)
]

map_grammar-Has :
    {A B : Type 0} (P : A → Type 0) (Q : B → Type 0) (f : A → B) (g : Grammar A)
    → ((a : A) → P a → Q (f a))
    → Has P g
    → Has Q (map_grammar f g)
map_grammar-Has P Q f g k p l rest b h =
    let ((a, rest'), e, e') = bind-some (g l) (λ (a, rest). some (f a, rest)) (b, rest) h in
    let same : f a ≡ b = cc in rw (← same) (k a (p l rest' a e))

entry_grammar-Has :
    {K V : Type 0} (P : K → Type 0) (Q : V → Type 0) (KeyValue : Literal) (gk : Grammar K)
    (gv : Grammar V)
    → Has P gk
    → Has Q gv
    → Has (λ (key, val). P key × Q val) (entry_grammar KeyValue gk gv)
entry_grammar-Has P Q KeyValue gk gv p q l rest b h =
    let gj = join_grammar (separator_grammar KeyValue ∷ []) gv in
    let ((key, l1), e1, h1) =
      bind-some (gk l) (λ (a, l1). do (v, l2) ← gj l1; some ((a, v), l2)) (b, rest) h in
    let ((v, l2), e2, h2) = bind-some (gj l1) (λ (v, l2). some ((key, v), l2)) (b, rest) h1 in
    let ((_, l3), e3, e4) =
      bind-some (match_grammar (separator_grammar KeyValue ∷ []) l1) (λ (_, l3). gv l3) (v, l2)
        e2 in
    let same : (key, v) ≡ b = cc in rw (← same) (p l l1 key e1, q l3 l2 v e4)

module _ {N : Type 0} (number : Grammar N) where
  values-AreReadable :
      {vs : List (JsonValue (List ℕ) N)} → All (IsReadable true) vs → AreReadable true (values vs)
  values-AreReadable All.nil = AreReadable.no_values
  values-AreReadable (All.cons p ps) = AreReadable.value_of p (values-AreReadable ps)

  object-IsReadable :
      (entries_ : Entries (List ℕ) N)
      → AreSorted true entries_
      → IsReadable true (JsonValue.object entries_)
  object-IsReadable Entries.no_entries s = IsReadable.empty_object refl
  object-IsReadable (Entries.entry_of key val behind) s = IsReadable.object s

  abbrev IsRead : JsonValue (List ℕ) N → Type 0
  IsRead v = IsReadable true v

  -- A value without parts.
  plain_grammar-Has :
      {A : Type 0} (f : A → JsonValue (List ℕ) N) (g : Grammar A)
      → ((a : A) → IsRead (f a))
      → Has IsRead (map_grammar f g)
  plain_grammar-Has f g k =
      map_grammar-Has (λ a. true ≡ true) IsRead f g (λ a _. k a) (λ l rest b _. refl)

  value_grammars-AllHave :
      (inner : Grammar (JsonValue (List ℕ) N))
      → Has IsRead inner
      → AllHave IsRead (value_grammars number inner)
  value_grammars-AllHave inner p =
      let strings : Has (λ s. quotable s ≡ true) quoted =
        λ l rest s h. quoted-IsQuotable l s rest h in
      let IsEntry =
        λ (entry : List ℕ × JsonValue (List ℕ) N). (quotable entry.0 ≡ true) × IsRead entry.1 in
      let entries = entry_grammar (char_literal b':') quoted inner in
      AllHave.cons
        (plain_grammar-Has (λ (_ : Empty). JsonValue.null)
          (literal_grammar empty (null_literal ∷ [])) (λ a. IsReadable.null))
        (AllHave.cons (plain_grammar-Has JsonValue.boolean bool_grammar (λ a. IsReadable.boolean)) (
          AllHave.cons (plain_grammar-Has JsonValue.number number (λ a. IsReadable.number)) (
            AllHave.cons
              (map_grammar-Has (λ s. quotable s ≡ true) IsRead JsonValue.string quoted
                (λ s q. IsReadable.string q) strings)
              (AllHave.cons
                (map_grammar-Has (λ vs. All IsRead vs) IsRead (λ vs. JsonValue.array (values vs))
                  (elements_grammar inner) (λ vs ps. IsReadable.array (values-AreReadable ps))
                  (λ l rest vs h.
                    delimited_grammar-All IsRead inner p (char_literal b'[') (char_literal b',')
                      (char_literal b']') l rest vs h))
                (AllHave.cons
                  (map_grammar-Has (λ es. AreSorted true es) IsRead JsonValue.object
                    (map_grammar emplaced (entries_grammar inner)) object-IsReadable
                    (map_grammar-Has (λ es. All IsEntry es) (λ es. AreSorted true es) emplaced
                      (entries_grammar inner)
                      (λ es ps. emplace_all-AreSorted Entries.no_entries ps AreSorted.no_entries)
                      (λ l rest es h.
                        delimited_grammar-All IsEntry entries
                          (entry_grammar-Has (λ s. quotable s ≡ true) IsRead (char_literal b':')
                            quoted inner strings p)
                          (char_literal b'{') (char_literal b',') (char_literal b'}') l rest es h)))
                  AllHave.nil)))))

  value_grammar-IsReadable : (depth : ℕ) → Has IsRead (value_grammar number depth)
  value_grammar-IsReadable zero l rest b h = cc
  value_grammar-IsReadable (suc depth) l rest b h =
      either_grammar-Has
        (value_grammars-AllHave (value_grammar number depth) (value_grammar-IsReadable depth)) l
        rest b h

  pub json_grammar-IsReadable :
      (l rest : List ℕ) (v : JsonValue (List ℕ) N)
      → json_grammar number l ≡ some (v, rest)
      → IsReadable true v
  json_grammar-IsReadable l rest v h =
      let ((_, l1), e1, h1) =
        bind-some (whitespace_grammar l)
          (λ (_, l1). do
            (a, l2) ← any_value_grammar number l1
            (_, l3) ← whitespace_grammar l2
            some (a, l3))
          (v, rest) h in
      let ((a, l2), e2, h2) =
        bind-some (any_value_grammar number l1)
          (λ (a, l2). do (_, l3) ← whitespace_grammar l2; some (a, l3)) (v, rest) h1 in
      let same : a ≡ v = cc h2 in
      rw (← same) (value_grammar-IsReadable (suc (length l1)) l1 l2 a e2)
