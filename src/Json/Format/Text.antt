-- ===== src/Json/Format/Text.antt =====
-- What `format` of src/include/json_value.hpp puts out, as a text of the value alone.
use noam.Base.{
  ℕ, zero, suc, ◌+◌, ◌-◌, ◌≡◌, refl, ap, sym, true, List, [], ◌∷◌, ◌++◌, length, append_assoc,
  append_nil, take, leb, le→leb, codes, arith,
}
use noam.Json.Format.{print_bool, shorten, format_value, format_array, format_object}
use noam.Json.Value.{JsonValue, Values, Entries}

abbrev pub spaces : ℕ → List ℕ
spaces zero = []
spaces (suc n) = b' ' ∷ spaces n

-- Four spaces more.
abbrev pub indent : ℕ → ℕ
indent n = suc (suc (suc (suc n)))

abbrev pub quote_text : List ℕ → List ℕ
quote_text s = 34 ∷ s ++ codes "\""

-- The text of a value between a number of spaces: of an entry of an object per line.
unfoldable mutual
  pub text : {N : Type 0} → (N → List ℕ) → ℕ → JsonValue (List ℕ) N → List ℕ
  text print n JsonValue.null = codes "null"
  text print n (JsonValue.string s) = quote_text s
  text print n (JsonValue.number x) = print x
  text print n (JsonValue.boolean b) = print_bool b
  text print n (JsonValue.array Values.no_values) = codes "[]"
  text print n (JsonValue.array (Values.value_of v vs)) =
      codes "[" ++ text print n v ++ more_values print n vs ++ codes "]"
  text print n (JsonValue.object Entries.no_entries) = codes "[]"
  text print n (JsonValue.object (Entries.entry_of key val members)) =
      codes "{\n"
      ++ spaces (indent n)
      ++ quote_text key
      ++ codes ": "
      ++ text print (indent n) val
      ++ more_entries print (indent n) members
      ++ codes "\n"
      ++ spaces n
      ++ codes "}"

  pub more_values : {N : Type 0} → (N → List ℕ) → ℕ → Values (List ℕ) N → List ℕ
  more_values print n Values.no_values = []
  more_values print n (Values.value_of v vs) =
      codes ", " ++ text print n v ++ more_values print n vs

  pub more_entries : {N : Type 0} → (N → List ℕ) → ℕ → Entries (List ℕ) N → List ℕ
  more_entries print n Entries.no_entries = []
  more_entries print n (Entries.entry_of key val members) =
      codes ",\n"
      ++ spaces n
      ++ quote_text key
      ++ codes ": "
      ++ text print n val
      ++ more_entries print n members

spaces-append : (n : ℕ) → spaces n ++ codes "    " ≡ spaces (indent n)
spaces-append zero = refl
spaces-append (suc n) = ap (◌∷◌ b' ') (spaces-append n)

length-spaces : (n : ℕ) → length (spaces n) ≡ n
length-spaces zero = refl
length-spaces (suc n) = ap suc (length-spaces n)

take-spaces : (n k : ℕ) → take n (spaces (n + k)) ≡ spaces n
take-spaces zero k = refl
take-spaces (suc n) k =
    let e : suc n + k ≡ suc (n + k) = omega arith in rw e (ap (◌∷◌ b' ') (take-spaces n k))

shorten-spaces : (n : ℕ) → shorten (spaces (indent n)) ≡ spaces n
shorten-spaces n =
    let size = length-spaces n in
    let e : leb 4 (suc (suc (suc (suc (length (spaces n)))))) ≡ true = le→leb 4 _ (omega arith) in
    let e' : suc (suc (suc (suc (length (spaces n))))) - 4 ≡ n = omega (arith, size) in
    let e'' : suc (suc (suc (suc n))) ≡ n + 4 = omega arith in
    rw (e, e') (rw (← e'') at (take-spaces n 4))

-- What stands behind the opening bracket of an array, and behind the opening brace of an object.
abbrev array_text : {N : Type 0} → (N → List ℕ) → ℕ → Values (List ℕ) N → List ℕ
array_text print n Values.no_values = []
array_text print n (Values.value_of v vs) = text print n v ++ more_values print n vs ++ codes "]"

abbrev object_text : {N : Type 0} → (N → List ℕ) → ℕ → Entries (List ℕ) N → List ℕ
object_text print n Entries.no_entries = []
object_text print n (Entries.entry_of key val members) =
    spaces n ++ quote_text key ++ codes ": " ++ text print n val ++ more_entries print n members

module _ {N : Type 0} (print : N → List ℕ) (n : ℕ) where
  array_value-text :
      (vs : Values (List ℕ) N) (out : List ℕ)
      → ((out : List ℕ)
          → format_array print (spaces n) vs out ≡ (spaces n, out ++ array_text print n vs))
      → format_value print (spaces n) (JsonValue.array vs) out
        ≡ (spaces n, out ++ text print n (JsonValue.array vs))
  unfolding format_value format_array format_object text more_values more_entries
  array_value-text Values.no_values out ih = refl
  array_value-text (Values.value_of v vs) out ih =
      rw (ih (out ++ codes "[")) (ap (λ o. (spaces n, o)) (simp append_assoc))

  object_value-text :
      (members : Entries (List ℕ) N) (out : List ℕ)
      → ((out : List ℕ)
          → format_object print (spaces (indent n)) members out
            ≡ (spaces (indent n), out ++ object_text print (indent n) members))
      → format_value print (spaces n) (JsonValue.object members) out
        ≡ (spaces n, out ++ text print n (JsonValue.object members))
  unfolding format_value format_array format_object text more_values more_entries
  object_value-text Entries.no_entries out ih = refl
  object_value-text (Entries.entry_of key val members) out ih =
      rw (spaces-append n, ih (out ++ codes "{\n"), shorten-spaces n)
        (ap (λ o. (spaces n, o)) (simp append_assoc))

  array-step :
      (v : JsonValue (List ℕ) N) (vs : Values (List ℕ) N) (out : List ℕ)
      → format_value print (spaces n) v out ≡ (spaces n, out ++ text print n v)
      → ((out : List ℕ)
          → format_array print (spaces n) vs out ≡ (spaces n, out ++ array_text print n vs))
      → format_array print (spaces n) (Values.value_of v vs) out
        ≡ (spaces n, out ++ array_text print n (Values.value_of v vs))
  unfolding format_value format_array format_object text more_values more_entries
  array-step v Values.no_values out e ih =
      rw e (ap (λ o. (spaces n, o)) (simp (append_assoc, append_nil)))
  array-step v (Values.value_of v' vs) out e ih =
      rw (e, ih ((out ++ text print n v) ++ codes ", "))
        (ap (λ o. (spaces n, o)) (simp (append_assoc, append_nil)))

  object-step :
      (key : List ℕ) (val : JsonValue (List ℕ) N) (members : Entries (List ℕ) N) (out : List ℕ)
      → ((out : List ℕ)
          → format_value print (spaces n) val out ≡ (spaces n, out ++ text print n val))
      → ((out : List ℕ)
          → format_object print (spaces n) members out
            ≡ (spaces n, out ++ object_text print n members))
      → format_object print (spaces n) (Entries.entry_of key val members) out
        ≡ (spaces n, out ++ object_text print n (Entries.entry_of key val members))
  unfolding format_value format_array format_object text more_values more_entries
  object-step key val Entries.no_entries out e ih =
      rw (e (out ++ (spaces n ++ codes "\"" ++ key ++ codes "\": ")))
        (ap (λ o. (spaces n, o)) (simp (append_assoc, append_nil)))
  object-step key val (Entries.entry_of key' val' members) out e ih =
      let out' = out ++ (spaces n ++ codes "\"" ++ key ++ codes "\": ") in
      rw (e out', ih ((out' ++ text print n val) ++ codes ",\n"))
        (ap (λ o. (spaces n, o)) (simp (append_assoc, append_nil)))

mutual
  unfolding format_value format_array format_object text more_values more_entries

  format_value-text :
      {N : Type 0} (print : N → List ℕ) (n : ℕ) (v : JsonValue (List ℕ) N) (out : List ℕ)
      → format_value print (spaces n) v out ≡ (spaces n, out ++ text print n v)
  format_value-text print n JsonValue.null out = refl
  format_value-text print n (JsonValue.string s) out = refl
  format_value-text print n (JsonValue.number x) out = refl
  format_value-text print n (JsonValue.boolean b) out = refl
  format_value-text print n (JsonValue.array vs) out =
      array_value-text print n vs out (λ out. format_array-text print n vs out)
  format_value-text print n (JsonValue.object members) out =
      object_value-text print n members out (λ out. format_object-text print (indent n) members out)

  format_array-text :
      {N : Type 0} (print : N → List ℕ) (n : ℕ) (vs : Values (List ℕ) N) (out : List ℕ)
      → format_array print (spaces n) vs out ≡ (spaces n, out ++ array_text print n vs)
  format_array-text print n Values.no_values out = ap (λ o. (spaces n, o)) (sym (append_nil out))
  format_array-text print n (Values.value_of v vs) out =
      array-step print n v vs out (format_value-text print n v out)
        (λ out. format_array-text print n vs out)

  format_object-text :
      {N : Type 0} (print : N → List ℕ) (n : ℕ) (members : Entries (List ℕ) N) (out : List ℕ)
      → format_object print (spaces n) members out ≡ (spaces n, out ++ object_text print n members)
  format_object-text print n Entries.no_entries out = ap (λ o. (spaces n, o)) (sym (append_nil out))
  format_object-text print n (Entries.entry_of key val members) out =
      object-step print n key val members out (λ out. format_value-text print n val out)
        (λ out. format_object-text print n members out)

-- `format` leaves `depth` as it found it, and appends to the output the text of the value: an array
-- on one line, an object with an entry per line behind four spaces more, and `[]` for an object
-- without entries as for an empty array.
pub format_value_lem :
    {N : Type 0} (print : N → List ℕ) (n : ℕ) (v : JsonValue (List ℕ) N) (out : List ℕ)
    → format_value print (spaces n) v out ≡ (spaces n, out ++ text print n v)
format_value_lem = format_value-text
