-- ===== src/Intrinsics/Strings.antt =====
-- `string_parser` of include/noam/util/intrinsic_types.hpp: a quoted string with escape codes.
pub mod Scan
pub mod RoundTrip
pub mod Overrun
use noam.Base.{
  ℕ, zero, suc, ◌+◌, ◌-◌, Bool, true, false, not, ◌&&◌, List, [], ◌∷◌, ◌++◌, Option, some, none,
  ltb, ◌==◌, if◌then◌else◌, ◌>>=◌,
}
use noam.Base.Int.{pos, ltb_ℤ, to_size_t}
use noam.Parser.{Parser}
use noam.Result.{Result, DefaultConstructible, null_result}
use noam.State
use noam.State.{State, Memory}

instance abbrev pub List-default : DefaultConstructible (List ℕ)
List-default = record { default = [] }

abbrev pub quote : ℕ
quote = 34

abbrev pub backslash : ℕ
backslash = 92

-- The `switch` on the character behind a backslash.
unfoldable pub unescape : ℕ → Option ℕ
unescape next =
    if next == b'b'
    then some 8
    else if next == b'f'
    then some 12
    else if next == b'n'
    then some 10
    else if next == b'r'
    then some 13
    else if next == b't'
    then some 9
    else if next == backslash
    then some backslash
    else if next == quote
    then some quote
    else none

-- The loop: `some none` is the `return {}` on an unrecognised code, `none` is the end of the fuel.
unfoldable pub string_loop : ℕ → Memory → State → ℕ → ℕ → List ℕ → Option (Option (ℕ × List ℕ))
string_loop zero m st count i str = none
string_loop (suc fuel) m st count i str =
    let c = State.at m st i in
    let escaped : Option (Option (ℕ × List ℕ)) = elim (unescape (State.at m st (i + 1))) [
      | none ↦ some none
      | some val ↦ string_loop fuel m st count (i + 2) (str ++ val ∷ [])
    ] in
    let plain = string_loop fuel m st count (i + 1) (str ++ c ∷ []) in
    if ltb i count
    then if c == backslash then escaped else if c == quote then some (some (i, str)) else plain
    else some (some (i, str))

-- The test behind the loop, which reads the character at `i` wherever it stands.
abbrev pub finish : Memory → State → Option (ℕ × List ℕ) → Result (List ℕ)
finish m st none = null_result
finish m st (some (i, str)) =
    if State.at m st i == quote
    then record { state = State.substr st (i + 1); value = str }
    else null_result

unfoldable pub string_parser : Parser (List ℕ)
string_parser = record {
  always_good = false;
  parse = λ m st.
      let count = to_size_t (State.size st) - 1 in
      let read = string_loop (suc count) m st count 1 [] in
      if not (ltb_ℤ (State.size st) (pos 2)) && State.at m st 0 == quote
      then (read >>= λ ends. some (finish m st ends))
      else some null_result;
}
