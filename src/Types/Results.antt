-- ===== src/Types/Results.antt =====
-- What the type functions of include/noam/type_traits.hpp and include/noam/result_types.hpp give.
use noam.Base.{◌≡◌, ◌⊎◌, ◌↔◌, refl, Bool, true, false, none, some, Bool-cases, inl, inr}
use noam.Types.{
  qualified_type, ValueType, ResultType, result, pure_result, own, const, reference, decay,
  result_always_good_v, result_value_t, default_constructible_result,
  default_constructible_parser_result_t, get_result_t, default_constructible, box_if_necessary_t,
}

-- What is left is not qualified.
decay-unqualified : (r : ResultType) → qualified_type (decay r) ≡ false
unfolding decay
decay-unqualified (result t) = refl
decay-unqualified (pure_result t) = refl
decay-unqualified (own t always_good constructible) = refl
decay-unqualified (const r) = decay-unqualified r
decay-unqualified (reference r) = decay-unqualified r

-- Whether a result is always good does not depend on references and `const`.
result_always_good_v-decay :
    (r : ResultType) → result_always_good_v (decay r) ≡ result_always_good_v r
unfolding decay
result_always_good_v-decay (result t) = refl
result_always_good_v-decay (pure_result t) = refl
result_always_good_v-decay (own t always_good constructible) = refl
result_always_good_v-decay (const r) = rw (decay-unqualified r) refl
result_always_good_v-decay (reference r) = rw (decay-unqualified r) refl

-- A `pure_result` of values without a default.
abbrev pub HasNoDefault : ResultType → Type 0
HasNoDefault r = (t : ValueType) × (decay r ≡ pure_result t) × (default_constructible t ≡ false)

-- A type of results that stands for `r`: it is default constructible and has the same values, and
-- is always good exactly if `r` is, and is itself default constructible when it is decayed.
abbrev pub StandsFor : ResultType → ResultType → Type 0
StandsFor r r' =
    (default_constructible_result r' ≡ some true)
    × (result_value_t r' ≡ result_value_t (decay r))
    × ((result_always_good_v r' ≡ true)
        ↔ ((result_always_good_v r ≡ true) × (default_constructible_result (decay r) ≡ some true)))

-- What `default_constructible_parser_result_t` does of a type.
abbrev FallsBack : ResultType → Type 0
FallsBack r =
    ((default_constructible_parser_result_t r ≡ none) ↔ HasNoDefault r)
    × ((default_constructible_parser_result_t r ≡ none)
        ⊎ ((r' : ResultType) × (default_constructible_parser_result_t r ≡ some r')
            × StandsFor r r'))

decay-FallsBack :
    (r u : ResultType)
    → decay r ≡ u
    → qualified_type u ≡ false
    → result_always_good_v u ≡ result_always_good_v r
    → FallsBack r
unfolding result_value_t default_constructible_result decay
decay-FallsBack r (result t) e h same =
    rw (← same, e)
      (
        ((λ k. cc), λ (t', k, _). cc),
        inr (result t, refl, (refl, refl, ((λ k. (k, refl)), λ (k, _). k))),
      )
decay-FallsBack r (pure_result t) e h same = elim (Bool-cases (default_constructible t)) [
  | inl k ↦
      rw (← same, e, k)
        (
          ((λ k'. cc), λ (t', k', n). let e' : t ≡ t' = cc in cc (rw (← e', k) at n)),
          inr (pure_result t, refl, (rw k refl, refl, ((λ k'. (k', refl)), λ (k', _). k'))),
        )
  | inr k ↦ rw (← same, e, k) (((λ k'. (t, refl, k)), λ k'. refl), inl refl)
]
decay-FallsBack r (own t always_good constructible) e h same = elim (Bool-cases constructible) [
  | inl k ↦
      rw (← same, e, k)
        (
          ((λ k'. cc), λ (t', k', n). cc),
          inr (own t always_good true, refl, (refl, refl, ((λ k'. (k', refl)), λ (k', _). k'))),
        )
  | inr k ↦
      rw (← same, e, k)
        (
          ((λ k'. cc), λ (t', k', n). cc),
          inr (result t, refl, (refl, refl, ((λ k'. cc), λ (_, k'). cc))),
        )
]
decay-FallsBack r (const u) e h same = cc
decay-FallsBack r (reference u) e h same = cc

-- For the type that `parse` returns, references and `const` included,
-- `default_constructible_parser_result_t` does not compile exactly if that type decays to a
-- `pure_result` of values without a default. Where it compiles, it gives a type that is default
-- constructible and has the same values, and that is always good exactly if the type that is
-- returned is always good and, decayed, default constructible. What `get_result_t` gives for values
-- that are boxed where necessary is default constructible, and what it gives for any values is always
-- good as it is told.
pub default_constructible_parser_result_t_lem :
    (r : ResultType) (t : ValueType) (good : Bool)
    → ((default_constructible_parser_result_t r ≡ none) ↔ HasNoDefault r)
      × ((default_constructible_parser_result_t r ≡ none)
          ⊎ ((r' : ResultType) × (default_constructible_parser_result_t r ≡ some r')
              × StandsFor r r'))
      × (default_constructible_result (get_result_t (box_if_necessary_t t) good) ≡ some true)
      × (result_always_good_v (get_result_t t good) ≡ good)
unfolding default_constructible_result
default_constructible_parser_result_t_lem r t good =
    let (fails, stands) =
      decay-FallsBack r (decay r) refl (decay-unqualified r) (result_always_good_v-decay r) in
    (
      fails,
      stands,
      elim (Bool-cases good) [
        | inl h ↦ rw h (elim (Bool-cases (default_constructible t)) [
          | inl k ↦ rw (k, k) refl
          | inr k ↦ rw k refl
        ])
        | inr h ↦ rw h refl
      ],
      elim (Bool-cases good) [ inl h ↦ rw h refl | inr h ↦ rw h refl ],
    )
