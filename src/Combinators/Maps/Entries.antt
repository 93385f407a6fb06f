-- ===== src/Combinators/Maps/Entries.antt =====
-- `parse_map` against `sequence` of include/noam/combinators.hpp.
use noam.Base.{
  ℕ, zero, suc, ◌≡◌, refl, List, [], ◌∷◌, ◌++◌, some, ◌>>=◌, Bool-cases, Option-cases, inl, inr,
}
use noam.Combinators.Fold.Many.{foldl}
use noam.Combinators.Maps.{entry, pair-default, map_loop, map_from, parse_map}
use noam.Combinators.Match.{separator}
use noam.Combinators.Sequence.{
  open_parser, close_parser, sequence_loop, sequence_from, sequence_delimited, List-default,
}
use noam.Literal.{Literal}
use noam.Parser.{Parser, update_state}
use noam.Result.{DefaultConstructible, good}
use noam.State.{State, Memory}

foldl-append :
    {A B : Type 0} (op : A → B → A) (a : A) (bs : List B) (b : B)
    → foldl op a (bs ++ b ∷ []) ≡ op (foldl op a bs) b
foldl-append op a [] b = refl
foldl-append op a (x ∷ bs) b = foldl-append op (op a x) bs b

module _ {K V Map : Type 0} (emplace : Map → K → V → Map) (start : Map) where
  -- The entries in a map, one after another.
  abbrev pub emplace_all : List (K × V) → Map
  emplace_all entries = foldl (λ entries (k, v). emplace entries k v) start entries

  module _ {S : Type 0} (elem : Parser (K × V)) (sep : Parser S) (m : Memory) where
    map_loop-sequence_loop :
        (fuel : ℕ) (st : State) (vs : List (K × V))
        → map_loop emplace fuel elem sep m st (emplace_all vs)
          ≡ (sequence_loop fuel elem sep m st vs >>= λ (st', vs'). some (st', emplace_all vs'))
    unfolding map_loop sequence_loop
    map_loop-sequence_loop zero st vs = refl
    map_loop-sequence_loop (suc fuel) st vs = elim (Option-cases (sep.parse m st)) [
      | inl e ↦ rw e
      | inr (r, e) ↦ rw e (elim (Bool-cases (good sep.always_good r)) [
        | inr bad ↦ rw bad
        | inl ok ↦ rw ok (elim (Option-cases (elem.parse m r.state)) [
          | inl e' ↦ rw e'
          | inr (r', e') ↦ rw e' (elim (Bool-cases (good elem.always_good r')) [
            | inr bad' ↦ rw bad'
            | inl ok' ↦
                rw (ok', ← foldl-append (λ entries (k, v). emplace entries k v) start vs r'.value)
                  (map_loop-sequence_loop fuel r'.state (vs ++ r'.value ∷ []))
          ])
        ])
      ])
    ]

    map_from-sequence_from :
        (fuel : ℕ) (st : State)
        → map_from emplace fuel elem sep m st start
          ≡ (sequence_from fuel elem sep m st >>= λ (st', vs). some (st', emplace_all vs))
    unfolding map_from sequence_from
    map_from-sequence_from fuel st = elim (Option-cases (elem.parse m st)) [
      | inl e ↦ rw e
      | inr (r, e) ↦ rw e (elim (Bool-cases (good elem.always_good r)) [
        | inr bad ↦ rw bad
        | inl ok ↦ rw ok (map_loop-sequence_loop fuel r.state (r.value ∷ []))
      ])
    ]

module _ {K V Map : Type 0} ⦃dk : DefaultConstructible K⦄ ⦃dv : DefaultConstructible V⦄
    ⦃d : DefaultConstructible Map⦄ (emplace : Memory → Map → K → V → Map) where
  -- On every state and with any fuel, `parse_map` does what `sequence` with the same delimiters
  -- does for pairs of a key and a value with the separator between them, and its value has these
  -- pairs, emplaced in their order in a default constructed map.
  pub parse_map-sequence_delimited :
      (fuel : ℕ) (Opening ElemSeparator KeyValueSeparator Closing : Literal) (key : Parser K)
      (val : Parser V) (m : Memory) (st : State)
      → (parse_map emplace fuel Opening ElemSeparator KeyValueSeparator Closing key val).parse m st
        ≡ ((sequence_delimited fuel Opening ElemSeparator Closing
                (entry KeyValueSeparator key val)).parse
              m st
            >>= λ r.
                some
                  (record { state = r.state; value = emplace_all (emplace m) d.default r.value }))
  unfolding parse_map sequence_delimited
  parse_map-sequence_delimited fuel Opening Sep KeyValue Closing key val m st =
      let elem = entry KeyValue key val in
      let sep = separator (Sep ∷ []) in
      let opens = (open_parser Opening).always_good in
      let closes = (close_parser Closing).always_good in
      elim (Option-cases ((open_parser Opening).parse m st)) [
        | inl e ↦ rw e
        | inr (opened, e) ↦ rw e (elim (Bool-cases (update_state opens opened st).0) [
          | inr missing ↦ rw missing
          | inl found ↦
              let st' = (update_state opens opened st).1 in
              rw (found, map_from-sequence_from (emplace m) d.default elem sep m fuel st')
                (elim (Option-cases (sequence_from fuel elem sep m st')) [
                  | inl e' ↦ rw e'
                  | inr ((st'', vs), e') ↦
                      rw e' (elim (Option-cases ((close_parser Closing).parse m st'')) [
                        | inl e'' ↦ rw e''
                        | inr (closed, e'') ↦
                            rw e'' (elim (Bool-cases (update_state closes closed st'').0) [
                              | inl ends ↦ rw ends
                              | inr missing ↦ rw missing
                            ])
                      ])
                ])
        ])
      ]
