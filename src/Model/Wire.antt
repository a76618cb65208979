-- ===== src/Model/Wire.antt =====
-- The integers of attribute values, which are `i32` in the `ipp` crate (ipp-async/src/attrs.rs).
use ipp_client.Prelude.{
  ◌≡◌, subst, ◌<◌, ◌^◌, ℤ, pos, negsuc, String, Bool, true, false, Option, none, some, and_then,
  map_option, List, [], ◌∷◌, All, if◌then◌else◌,
}
use ipp_client.Ipp.{
  Value, Values, text_without_language, name_without_language, keyword, uri, mime_media_type,
  text_with_language, name_with_language, integer, enum, boolean, array, other, no_values, one_more,
  Group,
}
use ipp_client.Errors.{Error, ok, ok_or, ok-injective}
use ipp_client.Attrs
use ipp_client.Model.StateReason.{StateReason}
use ipp_client.Model.Written.{keywords_of, texts_of, ints_of}

-- `negsuc n` is -(n + 1), and so within 32 bits for the same `n`.
abbrev pub IsI32 : ℤ → Type 0
IsI32 (pos n) = n < 2 ^ 31
IsI32 (negsuc n) = n < 2 ^ 31

abbrev pub IsKnown : Option ℤ → Type 0
IsKnown none = Unit
IsKnown (some v) = IsI32 v

-- The integers that are read of a value: arrays within arrays are not read.
abbrev Scalar : Value → Type 0
Scalar (integer v) = IsI32 v
Scalar (enum v) = IsI32 v
Scalar _ = Unit

abbrev pub Scalars : Values → Type 0
Scalars no_values = Unit
Scalars (one_more v vs) = Scalar v × Scalars vs

abbrev pub Carried : Option Value → Type 0
Carried none = Unit
Carried (some (array vs)) = Scalars vs
Carried (some v) = Scalar v

-- A group as it comes from a server: its integers are of 32 bits.
unfoldable pub IsWire : Group → Type 0
IsWire g = (name : String) → Carried (g name)

pub Carried-if :
    (b : Bool) (x y : Option Value) → Carried x → Carried y → Carried (if b then x else y)
Carried-if true x y h k = h
Carried-if false x y h k = k

Carried-as_int : (o : Option Value) → Carried o → IsKnown (and_then o Attrs.as_int)
unfolding Attrs.as_int
Carried-as_int none h = tt
Carried-as_int (some (integer v)) h = h
Carried-as_int (some (enum v)) h = h
Carried-as_int (some (array vs)) h = tt
Carried-as_int (some (text_without_language v)) h = tt
Carried-as_int (some (name_without_language v)) h = tt
Carried-as_int (some (keyword v)) h = tt
Carried-as_int (some (uri v)) h = tt
Carried-as_int (some (mime_media_type v)) h = tt
Carried-as_int (some (text_with_language l v)) h = tt
Carried-as_int (some (name_with_language l v)) h = tt
Carried-as_int (some (boolean v)) h = tt
Carried-as_int (some other) h = tt

pub int-IsKnown : (g : Group) (name : String) → IsWire g → IsKnown (Attrs.int (Attrs.new g) name)
unfolding IsWire Attrs.int Attrs.value
int-IsKnown g name h = Carried-as_int (g name) (h name)

items-IsI32 : (vs : Values) → Scalars vs → All IsI32 (Attrs.filter_values Attrs.as_int vs)
unfolding Attrs.filter_values Attrs.as_int
items-IsI32 no_values h = tt
items-IsI32 (one_more (integer v) vs) (h, k) = (h, items-IsI32 vs k)
items-IsI32 (one_more (enum v) vs) (h, k) = (h, items-IsI32 vs k)
items-IsI32 (one_more (array ws) vs) (h, k) = items-IsI32 vs k
items-IsI32 (one_more (text_without_language v) vs) (h, k) = items-IsI32 vs k
items-IsI32 (one_more (name_without_language v) vs) (h, k) = items-IsI32 vs k
items-IsI32 (one_more (keyword v) vs) (h, k) = items-IsI32 vs k
items-IsI32 (one_more (uri v) vs) (h, k) = items-IsI32 vs k
items-IsI32 (one_more (mime_media_type v) vs) (h, k) = items-IsI32 vs k
items-IsI32 (one_more (text_with_language l v) vs) (h, k) = items-IsI32 vs k
items-IsI32 (one_more (name_with_language l v) vs) (h, k) = items-IsI32 vs k
items-IsI32 (one_more (boolean v) vs) (h, k) = items-IsI32 vs k
items-IsI32 (one_more other vs) (h, k) = items-IsI32 vs k

flattened-IsI32 : (o : Option Value) → Carried o → All IsI32 (Attrs.flatten Attrs.as_int o)
unfolding Attrs.flatten Attrs.as_int
flattened-IsI32 none h = tt
flattened-IsI32 (some (integer v)) h = (h, tt)
flattened-IsI32 (some (enum v)) h = (h, tt)
flattened-IsI32 (some (array vs)) h = items-IsI32 vs h
flattened-IsI32 (some (text_without_language v)) h = tt
flattened-IsI32 (some (name_without_language v)) h = tt
flattened-IsI32 (some (keyword v)) h = tt
flattened-IsI32 (some (uri v)) h = tt
flattened-IsI32 (some (mime_media_type v)) h = tt
flattened-IsI32 (some (text_with_language l v)) h = tt
flattened-IsI32 (some (name_with_language l v)) h = tt
flattened-IsI32 (some (boolean v)) h = tt
flattened-IsI32 (some other) h = tt

pub ints-IsI32 : (g : Group) (name : String) → IsWire g → All IsI32 (Attrs.ints (Attrs.new g) name)
unfolding IsWire Attrs.ints Attrs.value
ints-IsI32 g name h = flattened-IsI32 (g name) (h name)

-- Values as a server writes them.
pub keywords_of-Scalars : (rs : List StateReason) → Scalars (keywords_of rs)
keywords_of-Scalars [] = tt
keywords_of-Scalars (r ∷ rs) = (tt, keywords_of-Scalars rs)

pub texts_of-Scalars : (vs : List String) → Scalars (texts_of vs)
texts_of-Scalars [] = tt
texts_of-Scalars (v ∷ vs) = (tt, texts_of-Scalars vs)

pub ints_of-Scalars : (vs : List ℤ) → All IsI32 vs → Scalars (ints_of vs)
ints_of-Scalars [] h = tt
ints_of-Scalars (v ∷ vs) (h, k) = (h, ints_of-Scalars vs k)

pub name-Carried : (o : Option String) → Carried (map_option o name_without_language)
name-Carried none = tt
name-Carried (some v) = tt

pub int-Carried : (o : Option ℤ) → IsKnown o → Carried (map_option o integer)
int-Carried none h = tt
int-Carried (some v) h = h

-- A required integer that is there.
pub required-IsI32 :
    (o : Option ℤ) (missing : Error) (v : ℤ) → IsKnown o → ok_or o missing ≡ ok v → IsI32 v
required-IsI32 none missing v h e = cc e
required-IsI32 (some w) missing v h e = subst IsI32 (ok-injective e) h
