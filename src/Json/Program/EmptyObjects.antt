-- ===== src/Json/Program/EmptyObjects.antt =====
-- The values as `format` of src/include/json_value.hpp writes them: an object without entries is
-- written as an empty array.
use noam.Base.{ℕ, ◌≡◌, refl, true, false, suc, List}
use noam.Json.Format.Text.{text, more_values, more_entries}
use noam.Json.RoundTrip.Printable.{IsReadable, AreReadable, AreSorted, InFront, IsPrintable}
use noam.Json.Value.{JsonValue, Values, Entries}

-- An empty array for each object without entries.
unfoldable mutual
  pub written : {N : Type 0} → JsonValue (List ℕ) N → JsonValue (List ℕ) N
  written JsonValue.null = JsonValue.null
  written (JsonValue.string s) = JsonValue.string s
  written (JsonValue.number x) = JsonValue.number x
  written (JsonValue.boolean b) = JsonValue.boolean b
  written (JsonValue.array vs) = JsonValue.array (written_values vs)
  written (JsonValue.object Entries.no_entries) = JsonValue.array Values.no_values
  written (JsonValue.object (Entries.entry_of key val behind)) =
      JsonValue.object (Entries.entry_of key (written val) (written_entries behind))

  written_values : {N : Type 0} → Values (List ℕ) N → Values (List ℕ) N
  written_values Values.no_values = Values.no_values
  written_values (Values.value_of v vs) = Values.value_of (written v) (written_values vs)

  written_entries : {N : Type 0} → Entries (List ℕ) N → Entries (List ℕ) N
  written_entries Entries.no_entries = Entries.no_entries
  written_entries (Entries.entry_of key val behind) =
      Entries.entry_of key (written val) (written_entries behind)

mutual
  unfolding text more_values more_entries written written_values written_entries

  pub text-written :
      {N : Type 0} (print : N → List ℕ) (n : ℕ) (v : JsonValue (List ℕ) N)
      → text print n (written v) ≡ text print n v
  text-written print n JsonValue.null = refl
  text-written print n (JsonValue.string s) = refl
  text-written print n (JsonValue.number x) = refl
  text-written print n (JsonValue.boolean b) = refl
  text-written print n (JsonValue.array Values.no_values) = refl
  text-written print n (JsonValue.array (Values.value_of v vs)) =
      rw (text-written print n v, more_values-written print n vs) refl
  text-written print n (JsonValue.object Entries.no_entries) = refl
  text-written print n (JsonValue.object (Entries.entry_of key val behind)) =
      rw
        (
          text-written print (suc (suc (suc (suc n)))) val,
          more_entries-written print (suc (suc (suc (suc n)))) behind,
        )
        refl

  more_values-written :
      {N : Type 0} (print : N → List ℕ) (n : ℕ) (vs : Values (List ℕ) N)
      → more_values print n (written_values vs) ≡ more_values print n vs
  more_values-written print n Values.no_values = refl
  more_values-written print n (Values.value_of v vs) =
      rw (text-written print n v, more_values-written print n vs) refl

  more_entries-written :
      {N : Type 0} (print : N → List ℕ) (n : ℕ) (es : Entries (List ℕ) N)
      → more_entries print n (written_entries es) ≡ more_entries print n es
  more_entries-written print n Entries.no_entries = refl
  more_entries-written print n (Entries.entry_of key val es) =
      rw (text-written print n val, more_entries-written print n es) refl

mutual
  unfolding written written_values written_entries

  InFront-written :
      {N : Type 0} (key : List ℕ) (es : Entries (List ℕ) N)
      → InFront key es
      → InFront key (written_entries es)
  InFront-written key Entries.no_entries h = InFront.nothing
  InFront-written key (Entries.entry_of k v es) (InFront.one h hs) =
      InFront.one h (InFront-written key es hs)

  readable_written :
      {N : Type 0} (v : JsonValue (List ℕ) N) → IsReadable true v → IsReadable false (written v)
  readable_written JsonValue.null h = IsReadable.null
  readable_written (JsonValue.string s) (IsReadable.string h) = IsReadable.string h
  readable_written (JsonValue.number x) h = IsReadable.number
  readable_written (JsonValue.boolean b) h = IsReadable.boolean
  readable_written (JsonValue.array vs) (IsReadable.array h) =
      IsReadable.array (values_readable vs h)
  readable_written (JsonValue.object Entries.no_entries) h = IsReadable.array AreReadable.no_values
  readable_written (JsonValue.object (Entries.entry_of key val behind))
        (IsReadable.object (AreSorted.entry_of q front h hs)) =
      IsReadable.object (
        AreSorted.entry_of q (InFront-written key behind front) (readable_written val h)
          (entries_readable behind hs))

  values_readable :
      {N : Type 0} (vs : Values (List ℕ) N)
      → AreReadable true vs
      → AreReadable false (written_values vs)
  values_readable Values.no_values h = AreReadable.no_values
  values_readable (Values.value_of v vs) (AreReadable.value_of h hs) =
      AreReadable.value_of (readable_written v h) (values_readable vs hs)

  entries_readable :
      {N : Type 0} (es : Entries (List ℕ) N)
      → AreSorted true es
      → AreSorted false (written_entries es)
  entries_readable Entries.no_entries h = AreSorted.no_entries
  entries_readable (Entries.entry_of key val es) (AreSorted.entry_of q front h hs) =
      AreSorted.entry_of q (InFront-written key es front) (readable_written val h)
        (entries_readable es hs)

pub written-IsPrintable :
    {N : Type 0} (v : JsonValue (List ℕ) N) → IsReadable true v → IsPrintable (written v)
written-IsPrintable v h = readable_written v h
