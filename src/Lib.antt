-- ===== src/Lib.antt =====
-- noam: a header-only C++ library of parser combinators (include/noam). A parser is a function from
-- a state, a nullable range of characters, to a result: a new state and a value. A result is good
-- if its state is not null, or always, by its type. Combinators build parsers of parsers.
--
-- The files:
-- - Base: the library's names, tests on numbers, lists measured by native numbers, and the integers
--   of sizes and their conversion to size_t, modulo 2 ^ 64.
-- - State: include/noam/state.hpp. A pointer is an address, 0 is the null pointer, and a memory
--   gives the character at each address. State.View has the abstract content of a state, the list
--   of its characters, and IsValid: not null, in order, with an end below 2 ^ 63. State.Prefix,
--   State.Order and State.Slice are about starts_with and operator==, operator<=>, and substr;
--   State.Assertions has the assertions at the end of the file, and Intrinsics.Views.Assertions
--   those of intrinsics.hpp.
-- - Result: include/noam/result_types.hpp. result<Value> and pure_result<Value> are one record; the
--   flag always_good tells them apart. Result.Optional has the results of values that are not default
--   constructible and the boxes of include/noam/util/value_wrappers.hpp, Result.References those of
--   references, which are addresses. Combinators.Either.Boxed uses the boxes of values; the results
--   and boxes of references stand alone, since either of references that may all fail does not
--   compile. All other files are about values that are default constructible.
-- - Types: include/noam/type_traits.hpp, the type functions of result_types.hpp and the lists of
--   types of util/helpers.hpp. A type is a value of a data type, and a type function that may not
--   compile gives an Option. In the other files a type function is computed already: always_good
--   is a field of a parser.
-- - Parser: include/noam/parser.hpp and include/noam/util/helpers.hpp. A parser has its flag
--   always_good, which is a constant of its type in the source, and its function. A state that the
--   source updates in place is returned as a new one. Parser.Refines is the specification that the
--   other files implement: a grammar takes a list of characters to a value and the rest or fails,
--   and a parser implements it if on every valid state of fewer than n characters it returns a
--   result that fails with the grammar, or has its value and a tail of the state with its rest.
-- - Literal: include/noam/util/literal.hpp.
-- - Intrinsics: include/noam/util/intrinsic_types.hpp and include/noam/intrinsics.hpp, one file for
--   each group of parsers: Chars, Words, Line, Strings, Views, and Integers, the parsers of integer
--   types with std::from_chars for them.
-- - Combinators: include/noam/combinators.hpp, include/noam/util/combinator_types.hpp and
--   include/noam/operators.hpp: Basic (pure, map, enclose, operator>>), Either (Either.Converted
--   for alternatives that are converted to a common type), Match (match, join, separator),
--   Lookahead (test and test_lookahead, which compile for parsers of Booleans only, test_then,
--   test_prefix, require_prefix, lookahead, try_parse, try_lookahead), Fold (fold_left), Sequence,
--   Make, Maps (parse_map) and Recurse.
-- - Coroutine: include/noam/co_await.hpp and include/noam/coupling. The body of a coroutine is a tree
--   of awaits; a call resumes it once, up to its end or to an await that is not ready. Its steps are
--   also a relation on points of the body and promises, with Coroutine.Invariant and
--   Coroutine.Liveness about what is reached; Sums.Halting is about the coroutines of the benchmark.
-- - Json: src/json-example.cpp and src/include/json_value.hpp, the parser of nested values
--   and their format. Json.Parsed is about the values that are read, Json.RoundTrip about both.
--   Json.Program is parse_n_print and main with its input.
-- - Sums: bench/bench.cpp, the four parsers that are measured, with any std::from_chars and in
--   Sums.Integers with that of integers. Sums.Bench is the test that is run on them, with its
--   data in Sums.Bench.Input, and the loop of a benchmark.
-- - Formatting: include/noam/util/reflection.hpp and include/noam/util/fmt.hpp.
-- - Hello: src/hello.cpp.
-- - Tests: the theorems at concrete texts.
--
-- Loops over the characters of a state are recursion on the number of characters left. The loops
-- of fold_left, sequence, parse_map, view_parser and the search for the end of a C string may run
-- for as long as a parser or the memory lets them: they are recursion on fuel, an argument of the
-- combinator or of the body of a coroutine, as is the depth of the calls of recurse, and none is
-- the result of a call that has not returned. Fuel above the size of the state is enough where
-- each round takes a character; the theorems say so. string_parser computes its own fuel, the
-- count of its loop, since each round moves on by one at least.
--
-- Characters are numbers below 256 where a theorem depends on it; whether char is signed is an
-- argument of operator<=>. std::from_chars is a parameter of charconv, and ReadsNumbers is what
-- it promises; Intrinsics.Integers has the one for integers, of which int has 32 bits and long
-- 64; the text of a number is a parameter of the format, with PrintsNumbers. The type of maps
-- with its emplace is a parameter of parse_map; in Json, std::map is the list of its entries,
-- sorted by their keys. What fmt and std::to_string print for the types that are not the
-- library's, the number of iterations of a benchmark and the name that a compiler gives to a
-- function are parameters too; an exception is a value with its message. Not modelled: the
-- formatter of std::variant and the parse functions of formatters, which fmt calls; the concepts
-- that only constrain templates; the capacity of vectors; the timing of the benchmarks; the
-- lifetime of coroutine frames; and the test programs.
pub mod Base
pub mod State
pub mod Result
pub mod Parser
pub mod Literal
pub mod Intrinsics
pub mod Combinators
pub mod Coroutine
pub mod Sums
pub mod Json
pub mod Tests
pub mod Types
pub mod Formatting
pub mod Hello
