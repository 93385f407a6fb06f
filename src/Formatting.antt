-- ===== src/Formatting.antt =====
-- include/noam/util/reflection.hpp and include/noam/util/fmt.hpp: the name of a type, and what is
-- put out for results and parsers. Texts are lists of codes, and what the standard library does
-- out of range is written out.
pub mod Names
pub mod Finds
use noam.Base.{
  ℕ, zero, suc, ◌+◌, ◌-◌, ◌%◌, Bool, true, false, List, [], ◌∷◌, ◌++◌, length, take, drop, codes,
  Option, none, some, if◌then◌else◌, ◌>>=◌, ltb,
}
use noam.Base.Int.{size_t_mod}
use noam.Result.{Result, good}
use noam.State.{Memory}
use noam.State.Prefix.{is_prefix}
use noam.State.View.{view}

-- `std::string_view::npos`
abbrev pub npos : ℕ
npos = size_t_mod - 1

-- `name.find(token)`: the position of the first place where the token stands.
unfoldable pub find_first : List ℕ → List ℕ → Option ℕ
find_first token [] = if is_prefix token [] then some 0 else none
find_first token (c ∷ name) =
    let later = (do i ← find_first token name; some (suc i)) in
    if is_prefix token (c ∷ name) then some 0 else later

-- `name.rfind(token)`: that of the last place, which is the first one only if there is no other.
abbrev pub or_here : Option ℕ → Bool → Option ℕ
or_here (some i) here = some (suc i)
or_here none here = if here then some 0 else none

unfoldable pub find_last : List ℕ → List ℕ → Option ℕ
find_last token [] = if is_prefix token [] then some 0 else none
find_last token (c ∷ name) = or_here (find_last token name) (is_prefix token (c ∷ name))

abbrev pub position : Option ℕ → ℕ
position none = npos
position (some i) = i

-- `name.substr(start, count)`, which throws where `start` is out of range.
abbrev pub substring : List ℕ → ℕ → ℕ → Option (List ℕ)
substring name start count =
    if ltb (length name) start then none else some (take count (drop start name))

-- The compilers that the function tells apart.
pub data Compiler : Type 0 where
  clang : Compiler
  gcc : Compiler
  msvc : Compiler

abbrev pub start_token : Compiler → List ℕ
start_token clang = codes "T = "
start_token gcc = codes "T = "
start_token msvc = codes "get_name_of_type<"

abbrev pub end_token : Compiler → List ℕ
end_token clang = codes "]"
end_token gcc = codes "; std::string_view = "
end_token msvc = codes ">(void)"

-- `get_name_of_type`, of the name that the compiler gives to the function. Positions are of type
-- `size_t`, and wrap.
unfoldable pub get_name_of_type : Compiler → List ℕ → Option (List ℕ)
get_name_of_type compiler name =
    let start =
      (position (find_first (start_token compiler) name) + length (start_token compiler))
      % size_t_mod in
    let end = position (find_last (end_token compiler) name) in
    substring name start ((end + size_t_mod - start) % size_t_mod)

-- `fmt::formatter<R>::format` for results; what is put out for a value is a parameter.
unfoldable pub format_result :
    {A : Type 0} → (A → List ℕ) → Bool → Memory → Result A → List ℕ → List ℕ
format_result format_value always_good m result out =
    if good always_good result
    then (out ++ codes "[value: " ++ format_value result.value)
      ++ codes ", state: \""
      ++ view m result.state
      ++ codes "\"]"
    else out ++ codes "failed"

-- `fmt::formatter<noam::parser<T>>::format`
abbrev pub format_parser : List ℕ → List ℕ → List ℕ
format_parser name_of_type out = out ++ codes "noam::parser<" ++ name_of_type ++ codes ">"
