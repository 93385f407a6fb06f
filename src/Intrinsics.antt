-- ===== src/Intrinsics.antt =====
-- include/noam/intrinsics.hpp and include/noam/util/intrinsic_types.hpp: the basic parsers.
pub mod Chars
pub mod Words
pub mod Line
pub mod Strings
pub mod Views
pub mod Numbers
pub mod Integers
pub mod Shorter
pub mod EscapedBackslash
