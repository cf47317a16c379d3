-- ===== src/Registry/Json.antt =====
-- What `response.json()` gives, as the parsers of client/transfer/src/router/registry-client.ts look at
-- it. The numbers that a registry sends are seconds and counts: natural numbers.
use text.Mathlib.Text.{◌==◌ as str_eq}
use c_stateless_relay_tran.Base.{
  ℕ, suc, Bool, true, false, if◌then◌else◌, String, Option, none, some, List, [], ◌∷◌,
}
use c_stateless_relay_tran.Base.StringMap.{StringMap}
use c_stateless_relay_tran.Base.Text.{decimal}

mutual
  pub data Json : Type 0 where
    null : Json
    boolean : Bool → Json
    number : ℕ → Json
    chars : String → Json
    array : Items → Json
    object : Fields → Json

  pub data Items : Type 0 where
    no_items : Items
    item : Json → Items → Items

  -- The properties of an object, each key once.
  pub data Fields : Type 0 where
    no_fields : Fields
    field : String → Json → Fields → Fields

abbrev pub fields : List (String × Json) → Fields
fields [] = no_fields
fields ((key, v) ∷ rest) = field key v (fields rest)

-- typeof value === 'object' && value !== null
abbrev pub is_object : Json → Bool
is_object (array items) = true
is_object (object entries) = true
is_object _ = false

unfoldable pub find_field : String → Fields → Option Json
find_field key no_fields = none
find_field key (field k v rest) = if str_eq k key then some v else find_field key rest

-- (value as Record<string, unknown>).key, for a key that no array has
unfoldable pub property : String → Json → Option Json
unfolding find_field
property key (object entries) = find_field key entries
property key _ = none

-- typeof value === 'string'
abbrev pub as_text : Option Json → Option String
as_text (some (chars s)) = some s
as_text _ = none

-- typeof value === 'number'
abbrev pub as_number : Option Json → Option ℕ
as_number (some (number n)) = some n
as_number _ = none

-- Array.isArray(value)
abbrev pub as_array : Option Json → Option Items
as_array (some (array items)) = some items
as_array _ = none

-- The own properties of an object or of an array, the values turned to texts.
module _ (string_of : Json → String) where
  abbrev texts_of_fields : Fields → StringMap String
  texts_of_fields no_fields = []
  texts_of_fields (field key v rest) = (key, string_of v) ∷ texts_of_fields rest

  texts_of_items : ℕ → Items → StringMap String
  unfolding decimal
  texts_of_items i no_items = []
  texts_of_items i (item v rest) = (decimal i, string_of v) ∷ texts_of_items (suc i) rest

  -- typeof value === 'object' && value !== null ? value : undefined
  unfoldable pub as_texts : Option Json → Option (StringMap String)
  unfolding texts_of_items
  as_texts (some (object entries)) = some (texts_of_fields entries)
  as_texts (some (array items)) = some (texts_of_items 0 items)
  as_texts _ = none
