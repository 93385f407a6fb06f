-- ===== src/Combinators/Maps/Grammars.antt =====
-- `parse_map` of include/noam/combinators.hpp implements a grammar.
use noam.Base.{
  ℕ, suc, ◌≤◌, ◌<◌, ◌≡◌, refl, ap, ◌∙◌, false, List, [], ◌∷◌, map, length, Option, none, some,
  ◌>>=◌, arith,
}
use noam.Combinators.Basic.Grammars.{map_grammar}
use noam.Combinators.Consumption
use noam.Combinators.Consumption.{
  Consumes, Keeps, bind-some, map_grammar-Consumes, join_grammar-Keeps,
}
use noam.Combinators.Make.Arguments
use noam.Combinators.Make.Arguments.{make_grammar, make-Refines}
use noam.Combinators.Maps.{entry, pair-default, parse_map}
use noam.Combinators.Maps.Entries.{emplace_all, parse_map-sequence_delimited}
use noam.Combinators.Match.Grammars
use noam.Combinators.Match.Grammars.{join_grammar, join-Refines}
use noam.Combinators.Sequence.{sequence_delimited, List-default}
use noam.Combinators.Sequence.Delimited.{separator-Refines}
use noam.Combinators.Sequence.Grammars.{delimited_grammar, sequence_delimited-Refines}
use noam.Combinators.Sequence.Words.{separator_grammar, separator_grammar-Keeps}
use noam.Literal.{Literal, size}
use noam.Parser.{Parser}
use noam.Parser.Refines.{Grammar, Refines, Agrees}
use noam.Result.{Result, DefaultConstructible}
use noam.State.{State, Memory}

module _ {K V : Type 0} (KeyValue : Literal) (gk : Grammar K) (gv : Grammar V) where
  -- A key, a separator, and a value.
  abbrev pub entry_grammar : Grammar (K × V)
  entry_grammar =
      make_grammar
        (Arguments.Grammars.another gk (
          Arguments.Grammars.another (join_grammar (separator_grammar KeyValue ∷ []) gv)
            Arguments.Grammars.finished))
        (λ k v. (k, v))

  pub entry_grammar-Consumes : Consumes gk → Keeps gv → Consumes entry_grammar
  entry_grammar-Consumes c k l b rest h =
      let gj = join_grammar (separator_grammar KeyValue ∷ []) gv in
      let ((key, l1), e1, h1) =
        bind-some (gk l) (λ (a, l1). do (v, l2) ← gj l1; some ((a, v), l2)) (b, rest) h in
      let ((v, l2), e2, h2) = bind-some (gj l1) (λ (v, l2). some ((key, v), l2)) (b, rest) h1 in
      let same : l2 ≡ rest = cc in
      let kj : Keeps gj =
        join_grammar-Keeps gv
          (Consumption.AllKeep.cons (separator_grammar-Keeps KeyValue) Consumption.AllKeep.nil) k in
      omega (arith, c l key l1 e1, kj l1 v l2 e2, ap length same)

module _ {K V K' V' : Type 0} ⦃dk : DefaultConstructible K⦄ ⦃dv : DefaultConstructible V⦄
    {abs_key : Memory → K → K'} {abs_value : Memory → V → V'} {n : ℕ} {key : Parser K}
    {val : Parser V} {gk : Grammar K'} {gv : Grammar V'} (hk : Refines abs_key n key gk)
    (hv : Refines abs_value n val gv) where
  entry-Refines :
      (KeyValue : Literal)
      → Refines
          (λ m (k, v). (abs_key m k, abs_value m v))
          n
          (entry KeyValue key val)
          (entry_grammar KeyValue gk gv)
  entry-Refines KeyValue =
      make-Refines (λ m (k, v). (abs_key m k, abs_value m v)) n
        (Arguments.AllRefine.one_more hk (
          Arguments.AllRefine.one_more
            (join-Refines
              (Grammars.AllRefine.cons (separator-Refines n KeyValue) Grammars.AllRefine.nil) hv)
            Arguments.AllRefine.all_read))
        (λ k v. (k, v)) (λ k v. (k, v)) (λ m k v. refl)

  module _ {M M' : Type 0} {abs_map : Memory → M → M'} ⦃d : DefaultConstructible M⦄
      (emplace : Memory → M → K → V → M) (emplace' : M' → K' → V' → M')
      (same : (m : Memory) (entries : M) (k : K) (v : V)
        → abs_map m (emplace m entries k v)
          ≡ emplace' (abs_map m entries) (abs_key m k) (abs_value m v)) where
    emplace_all-map :
        (m : Memory) (start : M) (entries : List (K × V))
        → abs_map m (emplace_all (emplace m) start entries)
          ≡ emplace_all emplace'
              (abs_map m start)
              (map (λ (k, v). (abs_key m k, abs_value m v)) entries)
    emplace_all-map m start [] = refl
    emplace_all-map m start ((k, v) ∷ entries) =
        emplace_all-map m (emplace m start k v) entries
        ∙ ap
            (λ first.
              emplace_all emplace' first (map (λ (k, v). (abs_key m k, abs_value m v)) entries))
            (same m start k v)

    -- `parse_map` with a nonempty opening literal implements the grammar of entries between
    -- delimiters, on states of up to `n` characters, with fuel for `n` rounds, where the parsers of
    -- keys and values implement grammars on those of fewer than `n` characters, the keys take at
    -- least one, and emplacing does as that on the contents. Its value has the entries, emplaced in
    -- their order in the default map.
    pub parse_map-Refines :
        (fuel : ℕ) (Opening Sep KeyValue Closing : Literal) (start : M')
        → ((m : Memory) → abs_map m d.default ≡ start)
        → Consumes gk
        → Keeps gv
        → 0 < size Opening
        → n ≤ fuel
        → Refines abs_map (suc n) (parse_map emplace fuel Opening Sep KeyValue Closing key val) (
            map_grammar
              (emplace_all emplace' start)
              (delimited_grammar Opening Sep Closing (entry_grammar KeyValue gk gv)))
    unfolding parse_map sequence_delimited
    parse_map-Refines fuel Opening Sep KeyValue Closing start starts c k positive enough = record {
      returns = λ m st v l.
          let h =
            sequence_delimited-Refines fuel Opening Sep Closing (entry KeyValue key val)
              (entry_grammar KeyValue gk gv) (entry-Refines KeyValue)
              (entry_grammar-Consumes KeyValue gk gv c k) positive enough in
          let (r, e, a) = h.returns m st v l in
          rw
            (parse_map-sequence_delimited emplace fuel Opening Sep KeyValue Closing key val m st, e)
            (_, refl, emplaced m st r _ a);
    }
      where
        emplaced :
            (m : Memory) (st : State) (r : Result (List (K × V)))
            (said : Option (List (K' × V') × List ℕ))
            → Agrees (λ m. map (λ (k, v). (abs_key m k, abs_value m v))) false m st r said
            → Agrees abs_map false m st
                (record { state = r.state; value = emplace_all (emplace m) d.default r.value })
                (do (entries, rest) ← said; some (emplace_all emplace' start entries, rest))
        emplaced m st r none a = a
        emplaced m st r (some (entries, rest)) (ok, value, t, left) =
            (ok, (emplace_all-map m d.default r.value ∙ (rw (starts m, value))), t, left)
