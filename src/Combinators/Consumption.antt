-- ===== src/Combinators/Consumption.antt =====
-- What grammars leave: those of the parsers of include/noam leave no more characters than they are
-- given, and most leave fewer.
use noam.Base.{
  ℕ, ◌+◌, ◌∙◌, ◌≤◌, ◌<◌, ◌≡◌, refl, ap, Bool, List, [], ◌∷◌, length, drop, length-drop, drop_while,
  Option, none, some, ◌>>=◌, Bool-cases, Option-cases, inl, inr, arith,
}
use noam.Combinators.Basic.Grammars.{map_grammar}
use noam.Combinators.Either.Grammars.{either_grammar}
use noam.Combinators.Match.Grammars.{match_grammar, join_grammar}
use noam.Intrinsics.Chars.{run_grammar, one_of}
use noam.Intrinsics.Words.{literal_grammar}
use noam.Literal.{Literal, size}
use noam.Literal.Match.{text, is_prefix-length-le, length-text}
use noam.Parser.Refines.{Grammar, forget_grammar}
use noam.Result.{Empty, empty}
use noam.State.Prefix.{is_prefix}

-- The grammar leaves less than it was given.
abbrev pub Consumes : {B : Type 0} → Grammar B → Type 0
Consumes {B} g =
    (l : List ℕ) (b : B) (rest : List ℕ) → g l ≡ some (b, rest) → length rest < length l

-- It leaves no more.
abbrev pub Keeps : {B : Type 0} → Grammar B → Type 0
Keeps {B} g = (l : List ℕ) (b : B) (rest : List ℕ) → g l ≡ some (b, rest) → length rest ≤ length l

pub bind-some :
    {A B : Type 0} (o : Option A) (f : A → Option B) (y : B)
    → (o >>= f) ≡ some y
    → (x : A) × (o ≡ some x) × (f x ≡ some y)
bind-some none f y h = cc
bind-some (some x) f y h = (x, refl, h)

pub Consumes-Keeps : {B : Type 0} (g : Grammar B) → Consumes g → Keeps g
Consumes-Keeps g c l b rest h = omega (arith, c l b rest h)

pub map_grammar-Consumes :
    {A B : Type 0} (f : A → B) (g : Grammar A) → Consumes g → Consumes (map_grammar f g)
map_grammar-Consumes f g c l b rest h =
    let ((a, rest'), e, e') = bind-some (g l) (λ (a, rest). some (f a, rest)) (b, rest) h in
    let same : rest' ≡ rest = cc in rw (← same) (c l a rest' e)

pub forget_grammar-Consumes :
    {B : Type 0} (g : Grammar B) → Consumes g → Consumes (forget_grammar g)
forget_grammar-Consumes g c l b rest h =
    let ((a, rest'), e, e') = bind-some (g l) (λ (_, rest). some (empty, rest)) (b, rest) h in
    let same : rest' ≡ rest = cc in rw (← same) (c l a rest' e)

pub forget_grammar-Keeps : {B : Type 0} (g : Grammar B) → Keeps g → Keeps (forget_grammar g)
forget_grammar-Keeps g c l b rest h =
    let ((a, rest'), e, e') = bind-some (g l) (λ (_, rest). some (empty, rest)) (b, rest) h in
    let same : rest' ≡ rest = cc in rw (← same) (c l a rest' e)

length-drop_while-le : (f : ℕ → Bool) (l : List ℕ) → length (drop_while f l) ≤ length l
length-drop_while-le f [] = omega arith
length-drop_while-le f (x ∷ l) = ground (arith, length-drop_while-le f l)

pub run_grammar-Keeps : (set : List ℕ) → Keeps (run_grammar set)
run_grammar-Keeps set l b rest h =
    let same : drop_while (one_of set) l ≡ rest = cc h in
    rw (← same) (length-drop_while-le (one_of set) l)

-- One literal, which is left where it is empty.
literal_grammar-rest :
    {A : Type 0} (constant b : A) (lit : Literal) (l rest : List ℕ)
    → literal_grammar constant (lit ∷ []) l ≡ some (b, rest)
    → length rest + size lit ≡ length l
literal_grammar-rest constant b lit l rest h = elim (Bool-cases (is_prefix (text lit) l)) [
  | inl t ↦
      let e : drop (size lit) l ≡ rest = cc (rw t at h) in
      omega (
        arith,
        is_prefix-length-le (text lit) l t,
        length-drop (size lit) l,
        ap length e,
        length-text lit,
      )
  | inr other ↦ cc (rw other at h)
]

pub literal_grammar-Consumes :
    {A : Type 0} (constant : A) (lit : Literal)
    → 0 < size lit
    → Consumes (literal_grammar constant (lit ∷ []))
literal_grammar-Consumes constant lit positive l b rest h =
    omega (arith, literal_grammar-rest constant b lit l rest h)

pub literal_grammar-Keeps :
    {A : Type 0} (constant : A) (lit : Literal) → Keeps (literal_grammar constant (lit ∷ []))
literal_grammar-Keeps constant lit l b rest h =
    omega (arith, literal_grammar-rest constant b lit l rest h)

pub data AllKeep : List (Grammar Empty) → Type 0 where
  nil : AllKeep []
  cons : {g : Grammar Empty} {gs : List (Grammar Empty)} → Keeps g → AllKeep gs → AllKeep (g ∷ gs)

pub match_grammar-Keeps : {gs : List (Grammar Empty)} → AllKeep gs → Keeps (match_grammar gs)
match_grammar-Keeps nil l b rest h = let same : l ≡ rest = cc h in omega (arith, ap length same)
match_grammar-Keeps (cons {g} {gs} k ks) l b rest h =
    let ((a, l'), e, e') = bind-some (g l) (λ (_, rest). match_grammar gs rest) (b, rest) h in
    omega (arith, k l a l' e, match_grammar-Keeps ks l' b rest e')

pub match_grammar-Consumes :
    {g : Grammar Empty} {gs : List (Grammar Empty)}
    → Consumes g
    → AllKeep gs
    → Consumes (match_grammar (g ∷ gs))
match_grammar-Consumes {g} {gs} c ks l b rest h =
    let ((a, l'), e, e') = bind-some (g l) (λ (_, rest). match_grammar gs rest) (b, rest) h in
    omega (arith, c l a l' e, match_grammar-Keeps ks l' b rest e')

pub join_grammar-Keeps :
    {B : Type 0} {gs : List (Grammar Empty)} (g : Grammar B)
    → AllKeep gs
    → Keeps g
    → Keeps (join_grammar gs g)
join_grammar-Keeps {gs} g ks k l b rest h =
    let ((a, l'), e, e') = bind-some (match_grammar gs l) (λ (_, rest). g rest) (b, rest) h in
    omega (arith, match_grammar-Keeps ks l a l' e, k l' b rest e')

pub data AllConsume {B : Type 0} : List (Grammar B) → Type 0 where
  nil : AllConsume []
  cons : {g : Grammar B} {gs : List (Grammar B)} → Consumes g → AllConsume gs → AllConsume (g ∷ gs)

pub either_grammar-Consumes :
    {B : Type 0} {gs : List (Grammar B)} → AllConsume gs → Consumes (either_grammar gs)
either_grammar-Consumes nil l b rest h = cc
either_grammar-Consumes (cons {g} {gs} c cs) l b rest h = elim (Option-cases (g l)) [
  | inl e ↦ either_grammar-Consumes cs l b rest (rw e at h)
  | inr (x, e) ↦ c l b rest (e ∙ (rw e at h))
]
