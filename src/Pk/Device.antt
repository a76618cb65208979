-- ===== src/Pk/Device.antt =====
-- cups-pk-client/src/device.rs: devices, and the flat reply of `DevicesGet`.
pub mod Slots
pub mod Laws
pub mod Table
pub mod Encode
pub mod RoundTrip
use mathlib.Core.List.{foldl}
use ipp_client.Prelude.{
  ℕ, String, Bool, not, Option, none, some, List, [], ◌∷◌, map, filter, str_eq, ltb, ◌==◌, and_then,
  map_option, if◌then◌else◌,
}
use ipp_client.Prelude.Text.{is_empty, rsplit_once, parse_u32}

pub record Device : Type 0 where
  pub uri : String
  pub class : String
  pub info : String
  pub make_and_model : String
  pub device_id : String
  pub location : String

abbrev pub default_device : Device
default_device = record {
  uri = "";
  class = "";
  info = "";
  make_and_model = "";
  device_id = "";
  location = "";
}

unfoldable pub is_network : Device → Bool
is_network d = str_eq d.class "network"

-- A `BTreeMap<u32, Device>`: the entries in the order of their keys.
abbrev pub ByIndex : Type 0
ByIndex = List (ℕ × Device)

-- A change of `by_index.entry(index).or_default()`.
unfoldable pub alter : ℕ → (Device → Device) → ByIndex → ByIndex
alter i f [] = (i, f default_device) ∷ []
alter i f ((j, d) ∷ m) =
    let rest = alter i f m in
    if i == j
    then (j, f d) ∷ m
    else if ltb i j
    then (i, f default_device) ∷ (j, d) ∷ m
    else (j, d) ∷ rest

-- The arms of the match on the field.
pub data Field : Type 0 where
  uri_field class_field info_field make_and_model_field device_id_field location_field : Field
  unknown_field : Field

unfoldable pub field_of : String → Field
field_of field =
    if str_eq field "device-uri"
    then uri_field
    else if str_eq field "device-class"
    then class_field
    else if str_eq field "device-info"
    then info_field
    else if str_eq field "device-make-and-model"
    then make_and_model_field
    else if str_eq field "device-id"
    then device_id_field
    else if str_eq field "device-location"
    then location_field
    else unknown_field

-- An unknown field changes nothing.
unfoldable pub assign : Field → String → Device → Device
assign uri_field value d = record d { uri = value }
assign class_field value d = record d { class = value }
assign info_field value d = record d { info = value }
assign make_and_model_field value d = record d { make_and_model = value }
assign device_id_field value d = record d { device_id = value }
assign location_field value d = record d { location = value }
assign unknown_field value d = d

unfoldable pub set_field : String → String → Device → Device
unfolding field_of assign
set_field field value d = assign (field_of field) value d

-- The field and the index of a key, if it has both.
unfoldable pub parse_key : String → Option (String × ℕ)
parse_key key =
    and_then (rsplit_once b':' key) λ (field, index). map_option (parse_u32 index) λ i. (field, i)

abbrev pub write : Option (String × ℕ) → String → ByIndex → ByIndex
write none value m = m
write (some (field, i)) value m = alter i (set_field field value) m

-- The body of the loop over the entries of the reply.
unfoldable pub add_entry : ByIndex → String × String → ByIndex
unfolding parse_key alter set_field
add_entry m (key, value) = write (parse_key key) value m

-- `raw` lists the entries in the order in which the hash map happens to give them.
unfoldable pub decode_devices : List (String × String) → List Device
unfolding add_entry
decode_devices raw = filter (λ d. not (is_empty d.uri)) (map (λ (i, d). d) (foldl add_entry [] raw))
