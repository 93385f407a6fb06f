-- ===== src/Intrinsics/Strings/RoundTrip.antt =====
-- `string_parser` of include/noam/util/intrinsic_types.hpp reads back what is written with its
-- escape codes.
use noam.Base.{
  ℕ, ◌≡◌, ◌≢◌, refl, ap, ◌∙◌, List, [], ◌∷◌, ◌++◌, Option, some, none, ◌==◌, ne→==, if◌then◌else◌,
  Option-cases, inl, inr, arith,
}
use noam.Intrinsics.Strings.{quote, backslash, unescape, string_parser}
use noam.Intrinsics.Strings.Scan.{scan, prepend, string_grammar, string_parser-Returns}
use noam.Parser.Refines.{IsTail}
use noam.State.{State, Memory}
use noam.State.View.{IsValid, view}

-- The code of a character that is written with a backslash.
abbrev pub code_of : ℕ → Option ℕ
code_of c =
    if c == 8
    then some b'b'
    else if c == 12
    then some b'f'
    else if c == 10
    then some b'n'
    else if c == 13
    then some b'r'
    else if c == 9
    then some b't'
    else if c == backslash
    then some backslash
    else if c == quote
    then some quote
    else none

unfoldable pub escape_char : ℕ → List ℕ
escape_char c = elim (code_of c) [ none ↦ c ∷ [] | some code ↦ backslash ∷ code ∷ [] ]

-- The characters of a string, each behind a backslash where it has a code.
abbrev pub escape : List ℕ → List ℕ
escape [] = []
escape (c ∷ s) = escape_char c ++ escape s

pub escape_char-plain : (c : ℕ) → code_of c ≡ none → escape_char c ≡ c ∷ []
unfolding escape_char
escape_char-plain c e = rw (e, escape_char)

pub escape_char-code : (c code : ℕ) → code_of c ≡ some code → escape_char c ≡ backslash ∷ code ∷ []
unfolding escape_char
escape_char-code c code e = rw (e, escape_char)

pub code_of-unescape : (c code : ℕ) → code_of c ≡ some code → unescape code ≡ some c
unfolding unescape
code_of-unescape c code h = ground arith

pub code_of-none : (c : ℕ) → code_of c ≡ none → (c ≢ backslash) × (c ≢ quote)
code_of-none c h = ground arith

pub scan-plain :
    (c : ℕ) (l : List ℕ) → c ≢ backslash → c ≢ quote → scan (c ∷ l) ≡ prepend c (scan l)
unfolding scan
scan-plain c [] h k = rw (ne→== c quote k)
scan-plain c (d ∷ l) h k = rw (ne→== c backslash h, ne→== c quote k)

scan-quote : (l : List ℕ) → scan (quote ∷ l) ≡ some ([], l)
unfolding scan
scan-quote [] = refl
scan-quote (d ∷ l) = refl

scan-code :
    (code v : ℕ) (l : List ℕ)
    → unescape code ≡ some v
    → scan (backslash ∷ code ∷ l) ≡ prepend v (scan l)
unfolding scan
scan-code code v l e = rw e

scan-escape : (s rest : List ℕ) → scan (escape s ++ quote ∷ rest) ≡ some (s, rest)
scan-escape [] rest = scan-quote rest
scan-escape (c ∷ s) rest = elim (Option-cases (code_of c)) [
  | inl plain ↦
      let (no_backslash, no_quote) = code_of-none c plain in
      rw (escape_char-plain c plain)
        (scan-plain c (escape s ++ quote ∷ rest) no_backslash no_quote ∙ rw (scan-escape s rest))
  | inr (code, e) ↦ rw (escape_char-code c code e) (
      scan-code code c (escape s ++ quote ∷ rest) (code_of-unescape c code e)
      ∙ rw (scan-escape s rest))
]

-- Where the characters of a valid state are a quoted string `s`, written with the escape codes,
-- and a rest, `string_parser` returns `s`, and a tail of the state that holds the rest.
pub string_parser-escape :
    (s rest : List ℕ) (m : Memory) (st : State)
    → IsValid st
    → view m st ≡ quote ∷ (escape s ++ quote ∷ rest)
    → (st' : State) × (string_parser.parse m st ≡ some (record { state = st'; value = s }))
      × IsTail st st'
      × (view m st' ≡ rest)
string_parser-escape s rest m st v h =
    let said : string_grammar (view m st) ≡ some (s, rest) = rw h (scan-escape s rest) in
    let (r, e, (_, value, tail, left)) =
      rw said at (string_parser-Returns m st v (λ refused. cc (said, refused))) in
    (r.state, e ∙ ap (λ x. some (record { state = r.state; value = x })) value, tail, left)
