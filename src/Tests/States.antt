-- ===== src/Tests/States.antt =====
-- The theorems on states and literals at concrete ones.
use noam.Base.{ℕ, ◌+◌, ◌<◌, ◌≡◌, ◌≢◌, refl, true, false, codes, some, arith}
use noam.State.{
  State, Memory, order, substr_count, of_c_string, of_size, starts_with_array, eq, same_chars,
  compare_chars, unless_eq, of_array, get_end_of_c_string,
}
use noam.State.Assertions.{assertions, all_hold}
use noam.State.Order.{lexical, order-lexical, HoldsBytes}
use noam.State.Slice.{substr_count_out_of_range, of_c_string_lem}
use noam.State.View.{view}
use noam.Tests.{text_memory, first, first-IsValid}

abbrev words : Memory
words = text_memory (codes "abcabd")

-- "abc" and "abd".
abbrev left : State
left = first 3

abbrev right : State
right = record { begin = 4; end = 7 }

abbrev short : State
short = first 2

order-lexical_example :
    order true words left right ≡ lexical true (view words left) (view words right)
order-lexical_example = order-lexical true words left right

abbrev one_byte : Memory
one_byte a = 7

one_byte-HoldsBytes : HoldsBytes one_byte
one_byte-HoldsBytes a = omega arith

substr_count_out_of_range_example : substr_count left 4 2 ≡ of_size 5 2
substr_count_out_of_range_example =
    substr_count_out_of_range left 4 2 (first-IsValid 3 (omega arith)) (omega arith) (omega arith)
      (omega arith)

letters_nonzero : (i : ℕ) → i < 6 → words (1 + i) ≢ 0
letters_nonzero i h = ground arith

of_c_string_lem_example : of_c_string 10 words 1 ≡ some (of_size 1 6)
of_c_string_lem_example = of_c_string_lem 10 words 1 6 (omega arith) letters_nonzero refl

assertions-hold : (all_hold (assertions true) ≡ true) × (all_hold (assertions false) ≡ true)
unfolding starts_with_array eq order same_chars compare_chars unless_eq of_array of_c_string
    get_end_of_c_string
assertions-hold = (refl, refl)
