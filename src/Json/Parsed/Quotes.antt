-- ===== src/Json/Parsed/Quotes.antt =====
-- The strings that `parse_string_view` reads can be written again.
use noam.Base.{
  ℕ, ◌≡◌, ◌⊎◌, refl, true, false, ◌&&◌, List, [], ◌∷◌, Option, some, ◌==◌, Bool-cases, inl, inr,
  arith,
}
use noam.Combinators.Consumption.{bind-some}
use noam.Intrinsics.Views.Quoted.{body, quote, backslash, prepend, quoted}
use noam.Json.RoundTrip.Strings.{quotable}

prepend-some :
    (c : ℕ) (said : Option (List ℕ × List ℕ)) (s rest : List ℕ)
    → prepend c said ≡ some (s, rest)
    → (s' : List ℕ) × (said ≡ some (s', rest)) × (c ∷ s' ≡ s)
prepend-some c said s rest h =
    let ((s', rest'), e, e') = bind-some said (λ (vs, l). some (c ∷ vs, l)) (s, rest) h in
    (s', cc, cc)

-- What is read up to a quote, from a character on.
body-head :
    (d : ℕ) (l s rest : List ℕ)
    → body (d ∷ l) ≡ some (s, rest)
    → ((d == quote ≡ true) × ([] ≡ s)) ⊎ ((s' : List ℕ) × (d ∷ s' ≡ s))
unfolding body
body-head d [] s rest h = elim (Bool-cases (d == quote)) [
  | inl e ↦ inl (e, cc (rw e at h))
  | inr e ↦ cc (rw e at h)
]
body-head d (x ∷ l) s rest h = elim (Bool-cases (d == quote)) [
  | inl e ↦ inl (e, cc (rw e at h))
  | inr e ↦ elim (Bool-cases (d == backslash)) [
    | inl e' ↦ elim (Bool-cases (x == quote)) [
      | inl e'' ↦
          let (s', _, same) = prepend-some d (prepend x (body l)) s rest (rw (e, e', e'') at h) in
          inr (s', same)
      | inr e'' ↦
          let (s', _, same) = prepend-some d (body (x ∷ l)) s rest (rw (e, e', e'') at h) in
          inr (s', same)
    ]
    | inr e' ↦
        let (s', _, same) = prepend-some d (body (x ∷ l)) s rest (rw (e, e') at h) in inr (s', same)
  ]
]

-- A character in front that is no quote, and no backslash of the next one.
quotable-cons :
    (c d : ℕ) (s : List ℕ)
    → (c == quote) ≡ false
    → ((c == backslash) && (d == quote)) ≡ false
    → quotable (d ∷ s) ≡ true
    → quotable (c ∷ d ∷ s) ≡ true
unfolding quotable
quotable-cons c d s e e' q = ground arith

on-IsQuotable :
    (c d : ℕ) (l s rest : List ℕ)
    → (c == quote) ≡ false
    → ((c == backslash) && (d == quote)) ≡ false
    → ((s rest : List ℕ) → body (d ∷ l) ≡ some (s, rest) → quotable s ≡ true)
    → prepend c (body (d ∷ l)) ≡ some (s, rest)
    → quotable s ≡ true
unfolding quotable
on-IsQuotable c d l s rest e e' ih h =
    let (s1, e1, same) = prepend-some c (body (d ∷ l)) s rest h in
    elim (body-head d l s1 rest e1) [
      | inl (dq, same') ↦ rw (← same, ← same') (ground (arith, e, e', dq))
      | inr (s2, same') ↦
          rw (← same, ← same') (quotable-cons c d s2 e e' (rw (← same') at (ih s1 rest e1)))
    ]

pub body-IsQuotable : (l s rest : List ℕ) → body l ≡ some (s, rest) → quotable s ≡ true
unfolding body quotable
body-IsQuotable [] s rest h = cc
body-IsQuotable (c ∷ []) s rest h = elim (Bool-cases (c == quote)) [
  | inl e ↦ let same : [] ≡ s = cc (rw e at h) in rw (← same) refl
  | inr e ↦ cc (rw e at h)
]
body-IsQuotable (c ∷ d ∷ l) s rest h = elim (Bool-cases (c == quote)) [
  | inl e ↦ let same : [] ≡ s = cc (rw e at h) in rw (← same) refl
  | inr e ↦
      let ih : (s1 rest1 : List ℕ) → body (d ∷ l) ≡ some (s1, rest1) → quotable s1 ≡ true =
        λ s1 rest1 h1. body-IsQuotable (d ∷ l) s1 rest1 h1 in
      elim (Bool-cases (c == backslash)) [
        | inl e' ↦ elim (Bool-cases (d == quote)) [
          | inl e'' ↦
              let (s1, e1, same) =
                prepend-some c (prepend d (body l)) s rest (rw (e, e', e'') at h) in
              let (s2, e2, same') = prepend-some d (body l) s1 rest e1 in
              rw (← same, ← same', e, e', e'') (body-IsQuotable l s2 rest e2)
          | inr e'' ↦ on-IsQuotable c d l s rest e (rw (e', e'') refl) ih (rw (e, e', e'') at h)
        ]
        | inr e' ↦ on-IsQuotable c d l s rest e (rw e' refl) ih (rw (e, e') at h)
      ]
]

pub quoted-IsQuotable : (l s rest : List ℕ) → quoted l ≡ some (s, rest) → quotable s ≡ true
quoted-IsQuotable [] s rest h = cc
quoted-IsQuotable (c ∷ l) s rest h = elim (Bool-cases (c == quote)) [
  | inl e ↦ body-IsQuotable l s rest (rw e at h)
  | inr e ↦ cc (rw e at h)
]
