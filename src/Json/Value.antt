-- ===== src/Json/Value.antt =====
-- `json_value` of src/include/json_value.hpp: a variant of null, strings, numbers, Booleans,
-- `std::map` and `std::vector`. The type of strings is a parameter, so that a value has views of
-- the input, or their characters. `std::map` is the list of its entries, sorted by their keys.
use noam.Base.{
  ℕ, ◌≡◌, refl, ap, Bool, true, false, List, [], ◌∷◌, map, Bool-cases, inl, inr, if◌then◌else◌, ltb,
}
use noam.Result.{DefaultConstructible}

mutual
  pub data JsonValue (S N : Type 0) : Type 0 where
    null : JsonValue S N
    string : S → JsonValue S N
    number : N → JsonValue S N
    boolean : Bool → JsonValue S N
    object : Entries S N → JsonValue S N
    array : Values S N → JsonValue S N

  pub data Values (S N : Type 0) : Type 0 where
    no_values : Values S N
    value_of : JsonValue S N → Values S N → Values S N

  pub data Entries (S N : Type 0) : Type 0 where
    no_entries : Entries S N
    entry_of : S → JsonValue S N → Entries S N → Entries S N

-- The order of `std::string_view`: character by character, and a prefix in front.
unfoldable pub less : List ℕ → List ℕ → Bool
less l [] = false
less [] (y ∷ l') = true
less (x ∷ l) (y ∷ l') =
    let behind = less l l' in if ltb x y then true else if ltb y x then false else behind

module _ {S N : Type 0} where
  instance abbrev pub JsonValue-default : DefaultConstructible (JsonValue S N)
  JsonValue-default = record { default = JsonValue.null }

  instance abbrev pub Entries-default : DefaultConstructible (Entries S N)
  Entries-default = record { default = Entries.no_entries }

  abbrev pub values : List (JsonValue S N) → Values S N
  values [] = Values.no_values
  values (v ∷ vs) = Values.value_of v (values vs)

  -- `emplace` of `std::map`: an entry with an equal key stays as it is.
  unfoldable pub emplace : (S → List ℕ) → Entries S N → S → JsonValue S N → Entries S N
  emplace key_of Entries.no_entries k v = Entries.entry_of k v Entries.no_entries
  emplace key_of (Entries.entry_of k' v' entries) k v =
      let behind = emplace key_of entries k v in
      if less (key_of k') (key_of k)
      then Entries.entry_of k' v' behind
      else if less (key_of k) (key_of k')
      then Entries.entry_of k v (Entries.entry_of k' v' entries)
      else Entries.entry_of k' v' entries

-- The contents of a value: its strings by their characters.
unfoldable mutual
  pub contents : {S S' N : Type 0} → (S → S') → JsonValue S N → JsonValue S' N
  contents f JsonValue.null = JsonValue.null
  contents f (JsonValue.string s) = JsonValue.string (f s)
  contents f (JsonValue.number x) = JsonValue.number x
  contents f (JsonValue.boolean b) = JsonValue.boolean b
  contents f (JsonValue.object entries) = JsonValue.object (contents_entries f entries)
  contents f (JsonValue.array vs) = JsonValue.array (contents_values f vs)

  pub contents_values : {S S' N : Type 0} → (S → S') → Values S N → Values S' N
  contents_values f Values.no_values = Values.no_values
  contents_values f (Values.value_of v vs) = Values.value_of (contents f v) (contents_values f vs)

  pub contents_entries : {S S' N : Type 0} → (S → S') → Entries S N → Entries S' N
  contents_entries f Entries.no_entries = Entries.no_entries
  contents_entries f (Entries.entry_of k v entries) =
      Entries.entry_of (f k) (contents f v) (contents_entries f entries)

pub contents-values :
    {S S' N : Type 0} (f : S → S') (vs : List (JsonValue S N))
    → contents_values f (values vs) ≡ values (map (contents f) vs)
unfolding contents contents_values contents_entries
contents-values f [] = refl
contents-values f (v ∷ vs) = ap (Values.value_of (contents f v)) (contents-values f vs)

-- What is emplaced depends on the contents alone.
pub contents-emplace :
    {S N : Type 0} (f : S → List ℕ) (entries : Entries S N) (k : S) (v : JsonValue S N)
    → contents_entries f (emplace f entries k v)
      ≡ emplace (λ l. l) (contents_entries f entries) (f k) (contents f v)
unfolding emplace contents contents_values contents_entries
contents-emplace f Entries.no_entries k v = refl
contents-emplace f (Entries.entry_of k' v' entries) k v = elim (Bool-cases (less (f k') (f k))) [
  | inl h ↦ rw (h, ← contents-emplace f entries k v) refl
  | inr h ↦
      rw h (elim (Bool-cases (less (f k) (f k'))) [ inl h' ↦ rw h' refl | inr h' ↦ rw h' refl ])
]
