-- ===== src/Combinators.antt =====
-- include/noam/combinators.hpp, include/noam/operators.hpp and
-- include/noam/util/combinator_types.hpp: parsers made of parsers.
pub mod Basic
pub mod Either
pub mod Match
pub mod Lookahead
pub mod Fold
pub mod Sequence
pub mod Make
pub mod Maps
pub mod Recurse
pub mod Consumption
