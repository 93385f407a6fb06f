-- ===== src/Tests/Coroutines.antt =====
-- The theorems on coroutines and on the sums of the benchmark at concrete texts.
use noam.Base.{◌≢◌, inl, suc, ◌-◌, ◌≡◌, ◌↔◌, refl, Bool, ◌&&◌, codes, none, some, arith}
use noam.Combinators.Make.{Parsers, make}
use noam.Coroutine.{
  Coroutine, co_await, co_return, Promise, resume, coroutine, make_w_coro, new_promise,
}
use noam.Coroutine.Equivalence.{make_w_coro-make}
use noam.Coroutine.Invariant.{AwaitsTails, GoodAtEnd, Reach-Invariant, suspended_cancels}
use noam.Intrinsics.Integers.Suffix.{from_chars-ReadsNumbers}
use noam.Sums.Halting.{Ends, sums-Ends}
use noam.Coroutine.Steps.{
  Point, initial, running, suspended, begins, not_ready, Reach, here, further, IsHalted, resume_iff,
}
use noam.Intrinsics.Words.{bool_parser, Bool-default, bool_parser-Refines}
use noam.Parser.Refines.{IsTail, Refines-IsTail}
use noam.Result.{null_result}
use noam.State.{State, Memory, starts_with_array, same_chars}
use noam.Sums.{
  test_then_body, try_parse_body, add_w_fold, add_w_test_then, add_w_try_parse, add_w_baseline,
  ℤ-default,
}
use noam.Sums.Integers.{int, long, integer_sums_agree}
use noam.Intrinsics.Integers.{from_chars, integer_grammar, magnitude, scan}
use noam.State.View.{chars, view}
use noam.Sums.Baseline.{OnlySpaces}
use noam.Tests.{text_memory, first, first-IsValid}

abbrev two_bools : Parsers Bool (Bool → Bool → Bool)
two_bools =
    Parsers.next Bool-default bool_parser (Parsers.next Bool-default bool_parser Parsers.no_more)

abbrev true_false : Memory
true_false = text_memory (codes "truefalse")

make_w_coro-make_example :
    (make_w_coro two_bools (λ a b. a && b)).parse true_false (first 9)
    ≡ (make two_bools (λ a b. a && b)).parse true_false (first 9)
make_w_coro-make_example = make_w_coro-make two_bools (λ a b. a && b) true_false (first 9)

-- Awaits one word, and returns it.
abbrev one_bool : Coroutine Bool
one_bool = co_await bool_parser (λ v. co_return v)

abbrev at_false : Promise Bool
at_false = new_promise (record { begin = 5; end = 10 })

resume_iff_example : (resume one_bool true_false (new_promise (first 9)) ≡ some at_false) ↔ (
    (p : Point Bool) × IsHalted p
    × Reach true_false (initial one_bool) (new_promise (first 9)) p at_false)
resume_iff_example = resume_iff true_false one_bool (new_promise (first 9)) at_false

one_bool-AwaitsTails : AwaitsTails true_false one_bool
one_bool-AwaitsTails = (
  (λ st r v e ok.
      Refines-IsTail true_false st r (bool_parser-Refines (suc (st.end - st.begin))) v (omega arith)
        e ok),
  λ v. tt,
)

first_word :
    Reach true_false
      (initial one_bool)
      (new_promise (first 9))
      (running one_bool)
      (new_promise (first 9))
first_word = further here begins

Reach-Invariant_example :
    IsTail (first 9) (first 9) × GoodAtEnd true_false (running one_bool) (new_promise (first 9))
Reach-Invariant_example =
    Reach-Invariant true_false one_bool (first 9) (running one_bool) (new_promise (first 9))
      (first-IsValid 9 (omega arith)) one_bool-AwaitsTails first_word

-- "ruefalse" is no word.
abbrev behind_t : State
behind_t = record { begin = 2; end = 10 }

bool_parser_fails : bool_parser.parse true_false behind_t ≡ some null_result
unfolding bool_parser starts_with_array same_chars
bool_parser_fails = refl

reaches_suspended :
    Reach true_false (initial one_bool) (new_promise behind_t) suspended (new_promise behind_t)
unfolding bool_parser
reaches_suspended = further (further here begins) (not_ready bool_parser_fails refl)

suspended_cancels_example : (coroutine one_bool).parse true_false behind_t ≡ some null_result
suspended_cancels_example =
    suspended_cancels true_false one_bool behind_t (new_promise behind_t) reaches_suspended

abbrev digits : Memory
digits = text_memory (codes "1, 2 ,3")

digits-OnlySpaces : OnlySpaces digits 1 8
digits-OnlySpaces x h k = ground arith

digits-fit : integer_grammar int (view digits (first 7)) ≢ none
unfolding chars integer_grammar magnitude scan
digits-fit h = cc

integer_sums_agree_example :
    ((add_w_fold (from_chars long) (from_chars int) 8).parse digits (first 7)
      ≡ (add_w_try_parse (from_chars int) 8).parse digits (first 7))
    × ((add_w_test_then (from_chars int) 8).parse digits (first 7)
        ≡ (add_w_try_parse (from_chars int) 8).parse digits (first 7))
    × ((add_w_baseline (from_chars int) 8).parse digits (first 7)
        ≡ (add_w_try_parse (from_chars int) 8).parse digits (first 7))
integer_sums_agree_example =
    integer_sums_agree digits (first 7) 8 (first-IsValid 7 (omega arith)) (inl digits-fit)
      digits-OnlySpaces

-- Both coroutines have begun.
sums-Ends_example :
    Ends
      (from_chars int)
      (integer_grammar int)
      digits
      (add_w_test_then (from_chars int) 8)
      (first 7)
      (running (test_then_body (from_chars int) 8))
      (new_promise (first 7))
    × Ends
        (from_chars int)
        (integer_grammar int)
        digits
        (add_w_try_parse (from_chars int) 8)
        (first 7)
        (running (try_parse_body (from_chars int) 8))
        (new_promise (first 7))
sums-Ends_example =
    sums-Ends (from_chars int) (integer_grammar int) digits 8 (first 7)
      (running (test_then_body (from_chars int) 8)) (running (try_parse_body (from_chars int) 8))
      (new_promise (first 7)) (new_promise (first 7)) (from_chars-ReadsNumbers int)
      (first-IsValid 7 (omega arith)) (omega arith) (further here begins) (further here begins)
