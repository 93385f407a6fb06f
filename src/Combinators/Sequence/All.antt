-- ===== src/Combinators/Sequence/All.antt =====
-- Each value that the grammar of a sequence has is one of its elements.
use noam.Base.{ℕ, zero, suc, ◌≡◌, List, [], ◌∷◌, length, some, ◌>>=◌, Option-cases, inl, inr}
use noam.Combinators.Consumption.{bind-some}
use noam.Combinators.Sequence.Grammars.{following, separated, delimited_grammar}
use noam.Combinators.Sequence.Words.{open_grammar, close_grammar, separator_grammar}
use noam.Literal.{Literal}
use noam.Parser.Refines.{Grammar}
use noam.Result.{Empty}

pub data All {A : Type 0} (P : A → Type 0) : List A → Type 0 where
  nil : All P []
  cons : {x : A} {xs : List A} → P x → All P xs → All P (x ∷ xs)

module _ {B : Type 0} (P : B → Type 0) (g : Grammar B)
    (holds : (l rest : List ℕ) (b : B) → g l ≡ some (b, rest) → P b) where
  following-All :
      (sep : Grammar Empty) (rounds : ℕ) (l rest : List ℕ) (bs : List B)
      → following g sep rounds l ≡ some (bs, rest)
      → All P bs
  following-All sep zero l rest bs h = let same : [] ≡ bs = cc h in rw (← same) All.nil
  following-All sep (suc rounds) l rest bs h = elim (Option-cases (sep l >>= λ (_, l'). g l')) [
    | inl e ↦ let same : [] ≡ bs = cc (rw (following, e) at h) in rw (← same) All.nil
    | inr ((b, l'), e) ↦
        let ((_, l1), e1, e2) = bind-some (sep l) (λ (_, l'). g l') (b, l') e in
        let ((bs', rest'), e3, e4) =
          bind-some (following g sep rounds l') (λ (bs, rest). some (b ∷ bs, rest)) (bs, rest)
            (rw (following, e) at h) in
        let same : b ∷ bs' ≡ bs = cc in
        rw (← same) (All.cons (holds l1 l' b e2) (following-All sep rounds l' rest' bs' e3))
  ]

  separated-All :
      (sep : Grammar Empty) (l rest : List ℕ) (bs : List B)
      → separated g sep l ≡ some (bs, rest)
      → All P bs
  separated-All sep l rest bs h = elim (Option-cases (g l)) [
    | inl e ↦ let same : [] ≡ bs = cc (rw (separated, e) at h) in rw (← same) All.nil
    | inr ((b, l'), e) ↦
        let ((bs', rest'), e3, e4) =
          bind-some (following g sep (length l') l') (λ (bs, rest). some (b ∷ bs, rest)) (bs, rest)
            (rw (separated, e) at h) in
        let same : b ∷ bs' ≡ bs = cc in
        rw (← same) (All.cons (holds l l' b e) (following-All sep (length l') l' rest' bs' e3))
  ]

  pub delimited_grammar-All :
      (Opening Sep Closing : Literal) (l rest : List ℕ) (bs : List B)
      → delimited_grammar Opening Sep Closing g l ≡ some (bs, rest)
      → All P bs
  delimited_grammar-All Opening Sep Closing l rest bs h =
      let ((_, l1), e1, h1) =
        bind-some (open_grammar Opening l)
          (λ (_, l'). do
            (bs, l'') ← separated g (separator_grammar Sep) l'
            (_, rest) ← close_grammar Closing l''
            some (bs, rest))
          (bs, rest) h in
      let ((bs', l2), e2, h2) =
        bind-some (separated g (separator_grammar Sep) l1)
          (λ (bs, l''). do (_, rest) ← close_grammar Closing l''; some (bs, rest)) (bs, rest) h1 in
      let ((_, l3), e3, h3) =
        bind-some (close_grammar Closing l2) (λ (_, rest). some (bs', rest)) (bs, rest) h2 in
      let same : bs' ≡ bs = cc in rw (← same) (separated-All (separator_grammar Sep) l1 l2 bs' e2)
