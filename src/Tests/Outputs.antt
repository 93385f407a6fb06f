-- ===== src/Tests/Outputs.antt =====
-- The theorems on the names of types and on the types of results at concrete names and types.
use noam.Base.{ℕ, ◌≡◌, ◌⊎◌, ◌↔◌, refl, true, false, List, ◌++◌, codes, none, some, arith}
use noam.Formatting.{get_name_of_type, gcc}
use noam.Formatting.Names.{get_name_of_type_lem}
use noam.State.Prefix.{is_prefix}
use noam.Types.{
  ResultType, named, own, reference, const, result_always_good_v, default_constructible_result,
  default_constructible_parser_result_t, get_result_t, box_if_necessary_t,
}
use noam.Types.Results.{HasNoDefault, StandsFor, default_constructible_parser_result_t_lem}

-- `const R&`, for a type of results of a client that is always good and has no default.
abbrev constant_ref : ResultType
constant_ref = reference (const (own (named 0 false) true false))

default_constructible_parser_result_t_lem_example :
    ((default_constructible_parser_result_t constant_ref ≡ none) ↔ HasNoDefault constant_ref)
    × ((default_constructible_parser_result_t constant_ref ≡ none)
        ⊎ ((r : ResultType) × (default_constructible_parser_result_t constant_ref ≡ some r)
            × StandsFor constant_ref r))
    × (default_constructible_result (get_result_t (box_if_necessary_t (named 1 false)) true)
        ≡ some true)
    × (result_always_good_v (get_result_t (named 1 false) true) ≡ true)
default_constructible_parser_result_t_lem_example =
    default_constructible_parser_result_t_lem constant_ref (named 1 false) true

abbrev before_type : List ℕ
before_type = codes "constexpr std::string_view noam::get_name_of_type() [with "

abbrev behind_type : List ℕ
behind_type = codes "std::basic_string_view<char>]"

get_name_of_type_lem_example :
    get_name_of_type gcc (
      before_type
      ++ (codes "T = " ++ (codes "int" ++ (codes "; std::string_view = " ++ behind_type))))
    ≡ some (codes "int")
unfolding is_prefix
get_name_of_type_lem_example =
    get_name_of_type_lem gcc before_type (codes "int") behind_type refl refl (omega arith)
