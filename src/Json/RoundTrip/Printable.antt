-- ===== src/Json/RoundTrip/Printable.antt =====
-- The values that can be read: strings as `parse_string_view` reads them, and objects sorted by
-- their keys.
use noam.Base.{ℕ, ◌+◌, suc, ◌≡◌, refl, ap, ◌∙◌, sym, true, false, List, [], ◌∷◌, Bool}
use noam.Combinators.Maps.Entries.{emplace_all}
use noam.Json.Grammars.{emplaced}
use noam.Json.RoundTrip.Strings.{quotable}
use noam.Json.Value.{JsonValue, Values, Entries, values, emplace, less}

-- The key stands in front of the keys of all entries.
pub data InFront {N : Type 0} (key : List ℕ) : Entries (List ℕ) N → Type 0 where
  nothing : InFront key Entries.no_entries
  one :
      {key' : List ℕ} {val : JsonValue (List ℕ) N} {behind : Entries (List ℕ) N}
      → less key key' ≡ true
      → InFront key behind
      → InFront key (Entries.entry_of key' val behind)

-- The values that can be read, with or without objects that have no entries.
mutual
  pub data IsReadable {N : Type 0} (empty_objects : Bool) : JsonValue (List ℕ) N → Type 0 where
    null : IsReadable empty_objects JsonValue.null
    string : {s : List ℕ} → quotable s ≡ true → IsReadable empty_objects (JsonValue.string s)
    number : {x : N} → IsReadable empty_objects (JsonValue.number x)
    boolean : {b : Bool} → IsReadable empty_objects (JsonValue.boolean b)
    array :
        {vs : Values (List ℕ) N}
        → AreReadable empty_objects vs
        → IsReadable empty_objects (JsonValue.array vs)
    empty_object :
        empty_objects ≡ true → IsReadable empty_objects (JsonValue.object Entries.no_entries)
    object :
        {key : List ℕ} {val : JsonValue (List ℕ) N} {behind : Entries (List ℕ) N}
        → AreSorted empty_objects (Entries.entry_of key val behind)
        → IsReadable empty_objects (JsonValue.object (Entries.entry_of key val behind))

  pub data AreReadable {N : Type 0} (empty_objects : Bool) : Values (List ℕ) N → Type 0 where
    no_values : AreReadable empty_objects Values.no_values
    value_of :
        {v : JsonValue (List ℕ) N} {vs : Values (List ℕ) N}
        → IsReadable empty_objects v
        → AreReadable empty_objects vs
        → AreReadable empty_objects (Values.value_of v vs)

  -- The entries, sorted by their keys.
  pub data AreSorted {N : Type 0} (empty_objects : Bool) : Entries (List ℕ) N → Type 0 where
    no_entries : AreSorted empty_objects Entries.no_entries
    entry_of :
        {key : List ℕ} {val : JsonValue (List ℕ) N} {behind : Entries (List ℕ) N}
        → quotable key ≡ true
        → InFront key behind
        → IsReadable empty_objects val
        → AreSorted empty_objects behind
        → AreSorted empty_objects (Entries.entry_of key val behind)

-- The values that are read back from their texts.
abbrev pub IsPrintable : {N : Type 0} → JsonValue (List ℕ) N → Type 0
IsPrintable v = IsReadable false v

-- How deep values are at most.
unfoldable mutual
  pub depth_value : {N : Type 0} → JsonValue (List ℕ) N → ℕ
  depth_value JsonValue.null = 0
  depth_value (JsonValue.string s) = 0
  depth_value (JsonValue.number x) = 0
  depth_value (JsonValue.boolean b) = 0
  depth_value (JsonValue.array vs) = suc (depth_values vs)
  depth_value (JsonValue.object entries_) = suc (depth_entries entries_)

  pub depth_values : {N : Type 0} → Values (List ℕ) N → ℕ
  depth_values Values.no_values = 0
  depth_values (Values.value_of v vs) = depth_value v + depth_values vs

  pub depth_entries : {N : Type 0} → Entries (List ℕ) N → ℕ
  depth_entries Entries.no_entries = 0
  depth_entries (Entries.entry_of key val behind) = depth_value val + depth_entries behind

module _ {N : Type 0} where
  abbrev pub list_of : Values (List ℕ) N → List (JsonValue (List ℕ) N)
  list_of Values.no_values = []
  list_of (Values.value_of v vs) = v ∷ list_of vs

  pub values-list_of : (vs : Values (List ℕ) N) → values (list_of vs) ≡ vs
  values-list_of Values.no_values = refl
  values-list_of (Values.value_of v vs) = ap (Values.value_of v) (values-list_of vs)

  abbrev pub pairs_of : Entries (List ℕ) N → List (List ℕ × JsonValue (List ℕ) N)
  pairs_of Entries.no_entries = []
  pairs_of (Entries.entry_of key val behind) = (key, val) ∷ pairs_of behind

  abbrev append : Entries (List ℕ) N → Entries (List ℕ) N → Entries (List ℕ) N
  append Entries.no_entries es = es
  append (Entries.entry_of key val behind) es = Entries.entry_of key val (append behind es)

  append_assoc-entry :
      (front es : Entries (List ℕ) N) (key : List ℕ) (val : JsonValue (List ℕ) N)
      → append (append front (Entries.entry_of key val Entries.no_entries)) es
        ≡ append front (Entries.entry_of key val es)
  append_assoc-entry Entries.no_entries es key val = refl
  append_assoc-entry (Entries.entry_of k v front) es key val =
      ap (Entries.entry_of k v) (append_assoc-entry front es key val)

  append-nil : (es : Entries (List ℕ) N) → append es Entries.no_entries ≡ es
  append-nil Entries.no_entries = refl
  append-nil (Entries.entry_of k v es) = ap (Entries.entry_of k v) (append-nil es)

  InFront-append :
      (front es : Entries (List ℕ) N) (k key : List ℕ) (val : JsonValue (List ℕ) N)
      → InFront k (append front (Entries.entry_of key val es))
      → less k key ≡ true
  InFront-append Entries.no_entries es k key val (InFront.one h _) = h
  InFront-append (Entries.entry_of k' v' front) es k key val (InFront.one _ h) =
      InFront-append front es k key val h

  -- Each key stands in front of those behind it.
  data InOrder : Entries (List ℕ) N → Type 0 where
    empty : InOrder Entries.no_entries
    one :
        {key : List ℕ} {val : JsonValue (List ℕ) N} {behind : Entries (List ℕ) N}
        → InFront key behind
        → InOrder behind
        → InOrder (Entries.entry_of key val behind)

  AreSorted-InOrder : {allowed : Bool} (es : Entries (List ℕ) N) → AreSorted allowed es → InOrder es
  AreSorted-InOrder Entries.no_entries s = InOrder.empty
  AreSorted-InOrder (Entries.entry_of key val behind) (AreSorted.entry_of _ h _ s) =
      InOrder.one h (AreSorted-InOrder behind s)

  emplace-last :
      (front es : Entries (List ℕ) N) (key : List ℕ) (val : JsonValue (List ℕ) N)
      → InOrder (append front (Entries.entry_of key val es))
      → emplace (λ l. l) front key val ≡ append front (Entries.entry_of key val Entries.no_entries)
  unfolding emplace
  emplace-last Entries.no_entries es key val h = refl
  emplace-last (Entries.entry_of k v front) es key val (InOrder.one h s) =
      rw (InFront-append front es k key val h)
        (ap (Entries.entry_of k v) (emplace-last front es key val s))

  emplace_all-append :
      (front es : Entries (List ℕ) N)
      → InOrder (append front es)
      → emplace_all (emplace (λ l. l)) front (pairs_of es) ≡ append front es
  emplace_all-append front Entries.no_entries s = sym (append-nil front)
  emplace_all-append front (Entries.entry_of key val es) s =
      let last = append front (Entries.entry_of key val Entries.no_entries) in
      let e = append_assoc-entry front es key val in
      ap (λ es'. emplace_all (emplace (λ l. l)) es' (pairs_of es)) (emplace-last front es key val s)
      ∙ emplace_all-append last es (rw e s)
      ∙ e

  pub emplaced-pairs_of :
      {allowed : Bool} (es : Entries (List ℕ) N)
      → AreSorted allowed es
      → emplaced (pairs_of es) ≡ es
  emplaced-pairs_of es s = emplace_all-append Entries.no_entries es (AreSorted-InOrder es s)
