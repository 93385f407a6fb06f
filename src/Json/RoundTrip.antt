-- ===== src/Json/RoundTrip.antt =====
-- What `format` of src/include/json_value.hpp puts out is read back by the grammar of
-- src/json-example.cpp.
pub mod Strings
pub mod Blanks
pub mod Printable
pub mod Values
pub mod Texts
pub mod Nested
pub mod Reads
pub mod Formatted
