-- ===== src/Json/RoundTrip/Strings.antt =====
-- The strings that `parse_string_view` reads back.
use noam.Base.{
  ℕ, ◌≡◌, refl, Bool, true, false, not, ◌&&◌, List, [], ◌∷◌, ◌++◌, some, ◌==◌, if◌then◌else◌,
  Bool-cases, inl, inr,
}
use noam.Intrinsics.Views.Quoted.{body, quote, backslash}

-- Each quote stands behind a backslash, and the last character is no backslash of its own.
unfoldable pub quotable : List ℕ → Bool
quotable [] = true
quotable (c ∷ []) = not (c == quote) && not (c == backslash)
quotable (c ∷ d ∷ s) =
    let past = quotable s in
    let on = quotable (d ∷ s) in
    if c == quote then false else if c == backslash then (if d == quote then past else on) else on

pub body-quotable :
    (s rest : List ℕ) → quotable s ≡ true → body (s ++ quote ∷ rest) ≡ some (s, rest)
unfolding body quotable
body-quotable [] [] h = refl
body-quotable [] (d ∷ rest) h = refl
body-quotable (c ∷ []) rest h = elim (Bool-cases (c == quote)) [
  | inl e ↦ cc (rw e at h)
  | inr e ↦ elim (Bool-cases (c == backslash)) [
    | inl e' ↦ cc (rw (e, e') at h)
    | inr e' ↦ rw (e, e', body-quotable [] rest refl) refl
  ]
]
body-quotable (c ∷ d ∷ s) rest h = elim (Bool-cases (c == quote)) [
  | inl e ↦ cc (rw e at h)
  | inr e ↦ elim (Bool-cases (c == backslash)) [
    | inl e' ↦ elim (Bool-cases (d == quote)) [
      | inl e'' ↦ rw (e, e', e'', body-quotable s rest (rw (e, e', e'') at h)) refl
      | inr e'' ↦ rw (e, e', e'', body-quotable (d ∷ s) rest (rw (e, e', e'') at h)) refl
    ]
    | inr e' ↦ rw (e, e', body-quotable (d ∷ s) rest (rw (e, e') at h)) refl
  ]
]
