-- ===== src/State/Assertions.antt =====
-- The assertions at the end of include/noam/state.hpp, on states of string literals: where the
-- literals stand in memory, each followed by a zero.
use noam.Base.{
  Bool, true, false, not, ◌&&◌, List, [], ◌∷◌, ◌++◌, codes, Option, none, some, ◌==◌, get_or,
  Ordering,
}
use noam.Base.Int.{pos, eq_ℤ}
use noam.State.{
  State, Memory, null_state, of_array, of_c_string, null, size, last, starts_with_array, eq, order,
  literal_st,
}

-- The literals, from address 1 on.
abbrev texts : Memory
texts a =
    get_or
      (0 ∷ codes "hello"
        ++ 0 ∷ codes "hello world"
        ++ 0 ∷ codes "hell"
        ++ 0 ∷ codes "helle"
        ++ 0 ∷ codes "Hello"
        ++ 0 ∷ codes "uwu"
        ++ 0 ∷ codes "owo"
        ++ 0 ∷ codes "a"
        ++ 0 ∷ codes "b"
        ++ 0 ∷ codes "hewwo uwu 1"
        ++ 0 ∷ codes "hewwo uwu 2"
        ++ 0 ∷ codes "hewwo uwu ")
      a 0

abbrev hello : State
hello = literal_st 1 5

abbrev hello_world : State
hello_world = literal_st 7 11

abbrev hell : State
hell = literal_st 19 4

abbrev capital_hello : State
capital_hello = literal_st 30 5

abbrev no_text : State
no_text = literal_st 82 0

abbrev letter_a : State
letter_a = literal_st 44 1

abbrev is_less : Ordering → Bool
is_less Ordering.lt = true
is_less _ = false

abbrev is_greater : Ordering → Bool
is_greater Ordering.gt = true
is_greater _ = false

abbrev same_option : Memory → Option State → State → Bool
same_option m none st = false
same_option m (some st') st = eq m st' st

-- The conditions, in their order, for a `char` that is signed or not.
abbrev pub assertions : Bool → List Bool
assertions signed =
    starts_with_array texts hello (codes "hello")
    ∷ starts_with_array texts hello []
    ∷ starts_with_array texts hello_world (codes "hello")
    ∷ not (starts_with_array texts hell (codes "hello"))
    ∷ not (starts_with_array texts hello (codes "helle"))
    ∷ eq_ℤ (size (of_array texts 82 1)) (pos 0)
    ∷ not (last texts (of_array texts 30 6) == 0)
    ∷ same_option texts (of_c_string 10 texts 30) capital_hello
    ∷ eq_ℤ (size capital_hello) (pos 5)
    ∷ eq_ℤ (size (of_array texts 30 6)) (pos 5)
    ∷ not (last texts capital_hello == 0)
    ∷ eq texts no_text no_text
    ∷ not (eq texts (literal_st 36 3) (literal_st 40 3))
    ∷ is_less (order signed texts letter_a (literal_st 46 1))
    ∷ not (is_greater (order signed texts letter_a (literal_st 46 1)))
    ∷ is_less (order signed texts no_text letter_a)
    ∷ not (is_greater (order signed texts no_text letter_a))
    ∷ is_less (order signed texts null_state letter_a)
    ∷ not (is_greater (order signed texts null_state letter_a))
    ∷ null null_state
    ∷ eq texts null_state null_state
    ∷ eq texts null_state no_text
    ∷ is_less (order signed texts (literal_st 48 11) (literal_st 60 11))
    ∷ is_less (order signed texts (literal_st 72 10) (literal_st 60 11))
    ∷ []

-- Whether all of them hold.
abbrev pub all_hold : List Bool → Bool
all_hold [] = true
all_hold (b ∷ bs) = b && all_hold bs
