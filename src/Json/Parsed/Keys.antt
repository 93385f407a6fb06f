-- ===== src/Json/Parsed/Keys.antt =====
-- The order of keys is transitive, and what is emplaced in a sorted map leaves it sorted.
use noam.Base.{ℕ, ◌≡◌, refl, Bool, true, List, [], ◌∷◌, Bool-cases, inl, inr, arith}
use noam.Json.RoundTrip.Printable.{InFront, IsReadable, AreSorted}
use noam.Json.RoundTrip.Strings.{quotable}
use noam.Combinators.Maps.Entries.{emplace_all}
use noam.Combinators.Sequence.All.{All}
use noam.Json.Value.{JsonValue, Entries, less, emplace}

pub less_trans : (a b c : List ℕ) → less a b ≡ true → less b c ≡ true → less a c ≡ true
unfolding less
less_trans a [] c h k = cc
less_trans a (y ∷ b) [] h k = cc
less_trans [] (y ∷ b) (z ∷ c) h k = refl
less_trans (x ∷ a) (y ∷ b) (z ∷ c) h k =
    let behind = less_trans a b c in ground (arith, h, k, behind)

module _ {N : Type 0} where
  InFront-less :
      {k k' : List ℕ} {es : Entries (List ℕ) N} → less k k' ≡ true → InFront k' es → InFront k es
  InFront-less h InFront.nothing = InFront.nothing
  InFront-less {k} {k'} h (InFront.one {key'} h' f) =
      InFront.one (less_trans k k' key' h h') (InFront-less h f)

  InFront-emplace :
      {k : List ℕ} {es : Entries (List ℕ) N} (key : List ℕ) (val : JsonValue (List ℕ) N)
      → less k key ≡ true
      → InFront k es
      → InFront k (emplace (λ l. l) es key val)
  unfolding emplace
  InFront-emplace key val h InFront.nothing = InFront.one h InFront.nothing
  InFront-emplace key val h (InFront.one {key'} h' f) = elim (Bool-cases (less key' key)) [
    | inl e ↦ rw e (InFront.one h' (InFront-emplace key val h f))
    | inr e ↦ rw e (elim (Bool-cases (less key key')) [
      | inl e' ↦ rw e' (InFront.one h (InFront.one h' f))
      | inr e' ↦ rw e' (InFront.one h' f)
    ])
  ]

  emplace-AreSorted :
      {allowed : Bool} {es : Entries (List ℕ) N} (key : List ℕ) (val : JsonValue (List ℕ) N)
      → quotable key ≡ true
      → IsReadable allowed val
      → AreSorted allowed es
      → AreSorted allowed (emplace (λ l. l) es key val)
  unfolding emplace
  emplace-AreSorted key val q p AreSorted.no_entries =
      AreSorted.entry_of q InFront.nothing p AreSorted.no_entries
  emplace-AreSorted key val q p (AreSorted.entry_of {key = k} q' f p' s) =
      elim (Bool-cases (less k key)) [
        | inl e ↦ rw e (
            AreSorted.entry_of q' (InFront-emplace key val e f) p'
              (emplace-AreSorted key val q p s))
        | inr e ↦ rw e (elim (Bool-cases (less key k)) [
          | inl e' ↦ rw e' (
              AreSorted.entry_of q (InFront.one e' (InFront-less e' f)) p
                (AreSorted.entry_of q' f p' s))
          | inr e' ↦ rw e' (AreSorted.entry_of q' f p' s)
        ])
      ]

  pub emplace_all-AreSorted :
      {allowed : Bool} (start : Entries (List ℕ) N)
      {entries_ : List (List ℕ × JsonValue (List ℕ) N)}
      → All (λ (key, val). (quotable key ≡ true) × IsReadable allowed val) entries_
      → AreSorted allowed start
      → AreSorted allowed (emplace_all (emplace (λ l. l)) start entries_)
  emplace_all-AreSorted start All.nil s = s
  emplace_all-AreSorted start (All.cons {x} (q, p) ps) s =
      emplace_all-AreSorted (emplace (λ l. l) start x.0 x.1) ps (emplace-AreSorted x.0 x.1 q p s)
