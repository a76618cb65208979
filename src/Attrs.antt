-- ===== src/Attrs.antt =====
-- ipp-async/src/attrs.rs: reading one attribute group.
use ipp_client.Prelude.{
  ℤ, String, Bool, Option, none, some, List, [], ◌∷◌, and_then, option_to_list,
}
use ipp_client.Ipp.{
  Value, Values, text_without_language, name_without_language, keyword, uri, mime_media_type,
  text_with_language, name_with_language, integer, enum, boolean, array, no_values, one_more, Group,
}
use ipp_client.Errors.{Result, ok_or, decode}

-- A read-only view over one group.
pub record Attrs : Type 0 where
  pub group : Group

abbrev pub new : Group → Attrs
new group = record { group = group }

unfoldable pub value : Attrs → String → Option Value
value a name = a.group name

unfoldable pub as_text : Value → Option String
as_text (text_without_language v) = some v
as_text (name_without_language v) = some v
as_text (text_with_language language text) = some text
as_text (name_with_language language name) = some name
as_text (keyword v) = some v
as_text (uri v) = some v
as_text (mime_media_type v) = some v
as_text _ = none

unfoldable pub as_int : Value → Option ℤ
as_int (integer v) = some v
as_int (enum v) = some v
as_int _ = none

abbrev pub as_bool : Value → Option Bool
as_bool (boolean v) = some v
as_bool _ = none

unfoldable pub text : Attrs → String → Option String
unfolding value as_text
text a name = and_then (value a name) as_text

unfoldable pub int : Attrs → String → Option ℤ
unfolding value as_int
int a name = and_then (value a name) as_int

unfoldable pub bool : Attrs → String → Option Bool
unfolding value
bool a name = and_then (value a name) as_bool

-- `items.iter().filter_map(f).collect()` over the items of an array.
abbrev push {ℓ} : {B : Type ℓ} → Option B → List B → List B
push none ys = ys
push (some y) ys = y ∷ ys

unfoldable pub filter_values {ℓ} : {B : Type ℓ} → (Value → Option B) → Values → List B
filter_values f no_values = []
filter_values f (one_more v vs) = push (f v) (filter_values f vs)

-- An array is flattened; a scalar reads as a list of one.
unfoldable pub flatten {ℓ} : {B : Type ℓ} → (Value → Option B) → Option Value → List B
unfolding filter_values
flatten f none = []
flatten f (some (array items)) = filter_values f items
flatten f (some v) = option_to_list (f v)

unfoldable pub texts : Attrs → String → List String
unfolding value as_text flatten
texts a name = flatten as_text (value a name)

unfoldable pub ints : Attrs → String → List ℤ
unfolding value as_int flatten
ints a name = flatten as_int (value a name)

unfoldable pub require_text : Attrs → String → Result String
unfolding text
require_text a name = ok_or (text a name) (decode name "missing or not a text value")

unfoldable pub require_int : Attrs → String → Result ℤ
unfolding int
require_int a name = ok_or (int a name) (decode name "missing or not an integer value")
