-- ===== src/Json/Format.antt =====
-- `fmt::formatter<json::json_value>::format` of src/include/json_value.hpp. `depth` and the output,
-- which the source updates in place, are returned. A string stands by its characters; what fmt
-- prints for a number is a parameter.
pub mod Text
use noam.Base.{
  ℕ, ◌-◌, Bool, true, false, List, [], ◌∷◌, ◌++◌, length, take, leb, codes, if◌then◌else◌,
}
use noam.Json.Value.{JsonValue, Values, Entries}

-- `fmt` prints `true` or `false`.
abbrev pub print_bool : Bool → List ℕ
print_bool b = if b then codes "true" else codes "false"

-- `if (depth.size() >= 4) depth.resize(depth.size() - 4);`
abbrev pub shorten : List ℕ → List ℕ
shorten depth = if leb 4 (length depth) then take (length depth - 4) depth else depth

-- `begin == end`
module _ {N : Type 0} where
  abbrev pub no_more_values : Values (List ℕ) N → Bool
  no_more_values Values.no_values = true
  no_more_values (Values.value_of v vs) = false

  abbrev pub no_more_entries : Entries (List ℕ) N → Bool
  no_more_entries Entries.no_entries = true
  no_more_entries (Entries.entry_of key val members) = false

unfoldable mutual
  pub format_value :
      {N : Type 0} → (N → List ℕ) → List ℕ → JsonValue (List ℕ) N → List ℕ → List ℕ × List ℕ
  format_value print depth JsonValue.null out = (depth, out ++ codes "null")
  format_value print depth (JsonValue.string s) out =
      (depth, out ++ (codes "\"" ++ s ++ codes "\""))
  format_value print depth (JsonValue.number x) out = (depth, out ++ print x)
  format_value print depth (JsonValue.boolean b) out = (depth, out ++ print_bool b)
  format_value print depth (JsonValue.array vs) out =
      let loop = format_array print depth vs (out ++ codes "[") in
      if no_more_values vs then (depth, out ++ codes "[]") else loop
  format_value print depth (JsonValue.object entries) out =
      let loop = format_object print (depth ++ codes "    ") entries (out ++ codes "{\n") in
      if no_more_entries entries
      then (depth, out ++ codes "[]")
      else (shorten loop.0, loop.1 ++ (codes "\n" ++ shorten loop.0 ++ codes "}"))

  -- The loop over an array, from `begin` on, which is not at the end.
  pub format_array :
      {N : Type 0} → (N → List ℕ) → List ℕ → Values (List ℕ) N → List ℕ → List ℕ × List ℕ
  format_array print depth Values.no_values out = (depth, out)
  format_array print depth (Values.value_of v vs) out =
      let done = format_value print depth v out in
      let loop = format_array print done.0 vs (done.1 ++ codes ", ") in
      if no_more_values vs then (done.0, done.1 ++ codes "]") else loop

  -- The loop over the entries of an object, from `begin` on, which is not at the end.
  pub format_object :
      {N : Type 0} → (N → List ℕ) → List ℕ → Entries (List ℕ) N → List ℕ → List ℕ × List ℕ
  format_object print depth Entries.no_entries out = (depth, out)
  format_object print depth (Entries.entry_of key val entries) out =
      let done =
        format_value print depth val (out ++ (depth ++ codes "\"" ++ key ++ codes "\": ")) in
      let loop = format_object print done.0 entries (done.1 ++ codes ",\n") in
      if no_more_entries entries then done else loop

-- `format(v, ctx)`: what is put out for a value.
abbrev pub format : {N : Type 0} → (N → List ℕ) → JsonValue (List ℕ) N → List ℕ
format print v = (format_value print [] v []).1
