-- ===== src/Intrinsics/Numbers.antt =====
-- `charconv_parser` of include/noam/util/intrinsic_types.hpp against a grammar of numbers.
use noam.Base.{ℕ, ◌-◌, ◌≤◌, ◌≡◌, refl, false, List, none, some, Option-cases, inl, inr}
use noam.Combinators.Consumption.{Consumes}
use noam.Intrinsics.Words.{FromChars, charconv}
use noam.Parser.Refines.{Grammar, Refines, Returns-ok, Returns-fail}
use noam.Result.{DefaultConstructible}
use noam.State.{State, Memory}
use noam.State.View.{IsValid, chars, view}

-- What `std::from_chars` promises: it reads a number at the beginning of the range, of at least one
-- character, and nothing but the characters of the range decides what it reads.
pub record ReadsNumbers {T : Type 0} (from_chars : FromChars T) (number : Grammar T) : Type 0 where
  pub fails :
      (m : Memory) (st : State)
      → IsValid st
      → number (view m st) ≡ none
      → from_chars m st.begin st.end ≡ none
  pub reads :
      (m : Memory) (st : State) (x : T) (rest : List ℕ)
      → IsValid st
      → number (view m st) ≡ some (x, rest)
      → (ptr : ℕ) × (from_chars m st.begin st.end ≡ some (ptr, x))
        × (st.begin ≤ ptr)
        × (ptr ≤ st.end)
        × (chars m ptr (st.end - ptr) ≡ rest)
  pub takes : Consumes number

pub charconv-Refines :
    {T : Type 0} ⦃d : DefaultConstructible T⦄ (from_chars : FromChars T) (number : Grammar T)
    (n : ℕ)
    → ReadsNumbers from_chars number
    → Refines (λ m v. v) n (charconv from_chars) number
charconv-Refines {T} from_chars number n h = record {
  returns = λ m st v l. elim (Option-cases (number (view m st))) [
    | inl e ↦ rw (e, h.fails m st v e) (Returns-fail (λ m (x : T). x) m st)
    | inr ((x, rest), e) ↦
        let (ptr, e', from, within, left) = h.reads m st x rest v e in
        rw (e, e', ← left)
          (Returns-ok (λ m (x : T). x) false m
            (record { state = record { begin = ptr; end = st.end }; value = x }) v
            (record { from = from; within = within; ends = refl }))
  ];
}
