-- ===== src/Tests/Integers.antt =====
-- The theorems on the integer parsers of include/noam/intrinsics.hpp at concrete texts.
use noam.Base.{◌↔◌, ◌≡◌, refl, true, codes, some, arith, ◌++◌}
use noam.Base.Int.{ℤ, pos, negsuc}
use noam.Intrinsics.Integers.{IntegerType, parse_charconv, to_string, decimal}
use noam.Intrinsics.Integers.Ranges.{InRange}
use noam.Intrinsics.Integers.RoundTrip.{parse_charconv-to_string, parse_charconv-good_iff}
use noam.Result.{Result}
use noam.State
use noam.State.{State, Memory}
use noam.State.View.{chars, view}
use noam.Sums.{ℤ-default}
use noam.Tests.{text_memory, first, first-IsValid}

abbrev int8 : IntegerType
int8 = record { bits = 8; signed = true }

abbrev lowest : Memory
lowest = text_memory (codes "-128, 128")

lowest-InRange : InRange int8 (negsuc 127)
lowest-InRange = omega arith

lowest-view : view lowest (first 9) ≡ to_string (negsuc 127) ++ codes ", 128"
unfolding chars to_string decimal
lowest-view = refl

parse_charconv-to_string_example :
    (r : Result ℤ) × ((parse_charconv int8).parse lowest (first 9) ≡ some r)
    × (State.good r.state ≡ true)
    × (r.value ≡ negsuc 127)
    × (view lowest r.state ≡ codes ", 128")
parse_charconv-to_string_example =
    parse_charconv-to_string int8 (negsuc 127) (codes ", 128") lowest (first 9) lowest-InRange refl
      (first-IsValid 9 (omega arith)) lowest-view

abbrev too_large : Memory
too_large = text_memory (codes "128]")

too_large-view : view too_large (first 4) ≡ to_string (pos 128) ++ codes "]"
unfolding chars to_string decimal
too_large-view = refl

parse_charconv-good_iff_example :
    (r : Result ℤ) × ((parse_charconv int8).parse too_large (first 4) ≡ some r)
    × ((State.good r.state ≡ true) ↔ InRange int8 (pos 128))
parse_charconv-good_iff_example =
    parse_charconv-good_iff int8 (pos 128) (codes "]") too_large (first 4) refl
      (first-IsValid 4 (omega arith)) too_large-view
