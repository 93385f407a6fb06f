-- ===== src/Intrinsics/EscapedBackslash.antt =====
-- `string_parser` and `parse_string_view` of include/noam/util/intrinsic_types.hpp side by side on
-- a string that ends in an escaped backslash.
use noam.Base.{ℕ, ◌-◌, ◌<◌, ◌≡◌, ◌≢◌, refl, ap, ◌∙◌, false, List, [], ◌∷◌, ◌++◌, some, none, ne→==}
use noam.Intrinsics.Strings.{quote, backslash, unescape, string_parser}
use noam.Intrinsics.Strings.Scan.{scan, string_grammar, string_parser-Returns}
use noam.Intrinsics.Strings.RoundTrip.{scan-plain}
use noam.Intrinsics.Views.Quoted.{body, quoted, prepend, parse_string_view-Refines}
use noam.Intrinsics.Views.{parse_string_view, view_parser}
use noam.Result.{Result, good}
use noam.State.{State, Memory}
use noam.State.View.{IsValid, view}

-- Neither a quote nor a backslash.
abbrev pub IsPlain : List ℕ → Type 0
IsPlain [] = Unit {0}
IsPlain (c ∷ s) = (c ≢ quote) × (c ≢ backslash) × IsPlain s

body-cons : (c : ℕ) (l : List ℕ) → c ≢ quote → c ≢ backslash → body (c ∷ l) ≡ prepend c (body l)
unfolding body
body-cons c [] h k = rw (ne→== c quote h)
body-cons c (d ∷ l) h k = rw (ne→== c quote h, ne→== c backslash k)

body_escaped_backslash :
    (s : List ℕ) → IsPlain s → body (s ++ backslash ∷ backslash ∷ quote ∷ []) ≡ none
body_escaped_backslash [] h = unfold body in refl
body_escaped_backslash (c ∷ s) (h, k, plain) =
    body-cons c (s ++ backslash ∷ backslash ∷ quote ∷ []) h k ∙ rw (body_escaped_backslash s plain)

scan_escaped_backslash :
    (s : List ℕ)
    → IsPlain s
    → scan (s ++ backslash ∷ backslash ∷ quote ∷ []) ≡ some (s ++ backslash ∷ [], [])
scan_escaped_backslash [] h = unfold scan unescape in refl
scan_escaped_backslash (c ∷ s) (h, k, plain) =
    scan-plain c (s ++ backslash ∷ backslash ∷ quote ∷ []) k h ∙ rw (scan_escaped_backslash s plain)

-- Where the characters of a valid state are a string literal of plain characters `s` and an
-- escaped backslash, `string_parser` returns `s` and a backslash. `parse_string_view`, with fuel
-- above the size, returns a failure: it takes the closing quote for an escaped one.
pub escaped_backslash :
    (s : List ℕ) (fuel : ℕ) (m : Memory) (st : State)
    → IsValid st
    → st.end - st.begin < fuel
    → IsPlain s
    → view m st ≡ quote ∷ (s ++ backslash ∷ backslash ∷ quote ∷ [])
    → ((st' : State) × (string_parser.parse m st
          ≡ some (record { state = st'; value = s ++ backslash ∷ [] })))
      × ((r : Result State) × ((parse_string_view fuel).parse m st ≡ some r)
          × (good false r ≡ false))
unfolding view_parser
escaped_backslash s fuel m st v l plain h =
    let said : string_grammar (view m st) ≡ some (s ++ backslash ∷ [], []) =
      rw h (scan_escaped_backslash s plain) in
    let (r, e, (_, value, _, _)) =
      rw said at (string_parser-Returns m st v (λ refused. cc (said, refused))) in
    let refused : quoted (view m st) ≡ none = rw h (body_escaped_backslash s plain) in
    let (r', e', failed) = rw refused at ((parse_string_view-Refines fuel).returns m st v l) in
    ((r.state, e ∙ ap (λ x. some (record { state = r.state; value = x })) value), (r', e', failed))
