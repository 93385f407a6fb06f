-- ===== src/Json/Parsed.antt =====
-- What the grammar of src/json-example.cpp reads: strings that can be written again, and objects
-- that are sorted by their keys.
pub mod Keys
pub mod Quotes
pub mod Values
pub mod Results
