-- ===== src/Intrinsics/Shorter.antt =====
-- Quoted strings and the words of `bool` take at least one character.
use noam.Base.{
  ℕ, suc, ◌≤◌, ◌<◌, ◌≡◌, ap, true, List, [], ◌∷◌, length, Option, some, ◌==◌, Bool-cases, inl, inr,
  arith, drop, length-drop, codes,
}
use noam.Combinators.Consumption.{Consumes, Keeps, bind-some}
use noam.Intrinsics.Views.Quoted.{quoted, body, prepend, quote, backslash}
use noam.Intrinsics.Words.{bool_grammar}
use noam.Literal.Match.{is_prefix-length-le}
use noam.State.Prefix.{is_prefix}

prepend-rest :
    (c : ℕ) (said : Option (List ℕ × List ℕ)) (str rest : List ℕ)
    → prepend c said ≡ some (str, rest)
    → (str' : List ℕ) × (said ≡ some (str', rest))
prepend-rest c said str rest h =
    let ((str', rest'), e, e') = bind-some said (λ (vs, l). some (c ∷ vs, l)) (str, rest) h in
    (str', cc)

body-Keeps : Keeps body
unfolding body
body-Keeps [] str rest h = cc
body-Keeps (c ∷ []) str rest h = elim (Bool-cases (c == quote)) [
  | inl e ↦ let same : [] ≡ rest = cc (rw e at h) in omega (arith, ap length same)
  | inr e ↦ cc (rw e at h)
]
body-Keeps (c ∷ d ∷ l) str rest h =
    let on : (prepend c (body (d ∷ l)) ≡ some (str, rest) → length rest ≤ suc (suc (length l))) =
      λ e.
        let (str', e') = prepend-rest c (body (d ∷ l)) str rest e in
        omega (arith, body-Keeps (d ∷ l) str' rest e') in
    elim (Bool-cases (c == quote)) [
      | inl e ↦ let same : d ∷ l ≡ rest = cc (rw e at h) in omega (arith, ap length same)
      | inr e ↦ elim (Bool-cases (c == backslash)) [
        | inl e' ↦ elim (Bool-cases (d == quote)) [
          | inl e'' ↦
              let (s1, e1) = prepend-rest c (prepend d (body l)) str rest (rw (e, e', e'') at h) in
              let (s2, e2) = prepend-rest d (body l) s1 rest e1 in
              omega (arith, body-Keeps l s2 rest e2)
          | inr e'' ↦ on (rw (e, e', e'') at h)
        ]
        | inr e' ↦ on (rw (e, e') at h)
      ]
    ]

pub quoted-Consumes : Consumes quoted
quoted-Consumes [] str rest h = cc
quoted-Consumes (c ∷ l) str rest h = elim (Bool-cases (c == quote)) [
  | inl e ↦ omega (arith, body-Keeps l str rest (rw e at h))
  | inr e ↦ cc (rw e at h)
]

drop-Consumes :
    (str l rest : List ℕ)
    → is_prefix str l ≡ true
    → 0 < length str
    → drop (length str) l ≡ rest
    → length rest < length l
drop-Consumes str l rest h positive e =
    omega (arith, is_prefix-length-le str l h, length-drop (length str) l, ap length e)

pub bool_grammar-Consumes : Consumes bool_grammar
bool_grammar-Consumes l b rest h = elim (Bool-cases (is_prefix (codes "true") l)) [
  | inl e ↦ drop-Consumes (codes "true") l rest e (omega arith) (cc (rw e at h))
  | inr e ↦ elim (Bool-cases (is_prefix (codes "false") l)) [
    | inl e' ↦ drop-Consumes (codes "false") l rest e' (omega arith) (cc (rw (e, e') at h))
    | inr e' ↦ cc (rw (e, e') at h)
  ]
]
