-- ===== src/Pk/Device/Encode.antt =====
-- The flat reply that the mechanism makes of its devices, read back by `decode_devices` of
-- cups-pk-client/src/device.rs.
use mathlib.Core.List.{foldl, foldl-append, append-nil, append_assoc}
use text.Mathlib.TextLemmas.{cons-append, nil-append}
use Prim.Native.String.{◌∷◌ as ◌∷ₛ◌}
use ipp_client.Prelude.{
  ℕ, suc, ◌+◌, ◌≤◌, ◌<◌, ◌^◌, String, ◌<>◌, ◌≡◌, refl, sym, ap, ◌∙◌, false, not, some, List, [],
  ◌∷◌, ◌++◌, All, All-append, map, filter, length, arith, show_ℕ,
}
use ipp_client.Prelude.Text.{is_empty}
use ipp_client.Prelude.Text.Laws.{rsplit_once-append}
use ipp_client.Prelude.Text.Digits.{parse_u32-show_ℕ, show_ℕ-Lacks}
use ipp_client.Pk.Device.{
  Device, default_device, ByIndex, alter, set_field, parse_key, add_entry, decode_devices, field_of,
  assign,
}

-- The keys that the doc of `decode_devices` describes: `device-uri:%d` and its like.
abbrev pub key : String → ℕ → String
key field i = field <> (":" <> show_ℕ i)

abbrev pub keyed : ℕ → String × String → String × String
keyed i (field, value) = (key field i, value)

abbrev pub fields : Device → List (String × String)
fields d =
    ("device-uri", d.uri)
    ∷ ("device-class", d.class)
    ∷ ("device-info", d.info)
    ∷ ("device-make-and-model", d.make_and_model)
    ∷ ("device-id", d.device_id)
    ∷ ("device-location", d.location)
    ∷ []

-- Devices numbered from an index on.
abbrev pub encode_from : ℕ → List Device → List (String × String)
encode_from i [] = []
encode_from i (d ∷ ds) = map (keyed i) (fields d) ++ encode_from (suc i) ds

pub parse_key-key :
    (field : String) (i : ℕ) → i < 2 ^ 32 → parse_key (key field i) ≡ some (field, i)
unfolding parse_key
parse_key-key field i h =
    let colon : ":" <> show_ℕ i ≡ ":" ∷ₛ show_ℕ i = cons-append ":" "" (show_ℕ i) ∙ rw nil-append in
    rw (colon, rsplit_once-append ":" field (show_ℕ i) (show_ℕ-Lacks i h), parse_u32-show_ℕ i h)

-- Every index of a table is below.
abbrev Below : ℕ → ByIndex → Type 0
Below i m = All (λ (j, d). j < i) m

alter_new :
    (i : ℕ) (f : Device → Device) (m : ByIndex)
    → Below i m
    → alter i f m ≡ m ++ ((i, f default_device) ∷ [])
unfolding alter
alter_new i f [] b = refl
alter_new i f ((j, d) ∷ m) b = ground (arith, alter_new i f m b.1, b.0)

alter_last :
    (i : ℕ) (f : Device → Device) (d : Device) (m : ByIndex)
    → Below i m
    → alter i f (m ++ ((i, d) ∷ [])) ≡ m ++ ((i, f d) ∷ [])
unfolding alter
alter_last i f d [] b = ground arith
alter_last i f d ((j, e) ∷ m) b = ground (arith, alter_last i f d m b.1, b.0)

add_entry-key :
    (field value : String) (i : ℕ) (m : ByIndex)
    → i < 2 ^ 32
    → add_entry m (key field i, value) ≡ alter i (set_field field value) m
unfolding add_entry
add_entry-key field value i m h = rw (parse_key-key field i h)

-- More fields of the last device.
add_fields :
    (i : ℕ) (es : List (String × String)) (d : Device) (m : ByIndex)
    → i < 2 ^ 32
    → Below i m
    → foldl add_entry (m ++ ((i, d) ∷ [])) (map (keyed i) es)
      ≡ m ++ ((i, foldl (λ d (field, value). set_field field value d) d es) ∷ [])
add_fields i [] d m h b = refl
add_fields i ((field, value) ∷ es) d m h b =
    ap (λ t. foldl add_entry t (map (keyed i) es))
      (add_entry-key field value i (m ++ ((i, d) ∷ [])) h
        ∙ alter_last i (set_field field value) d m b)
    ∙ add_fields i es (set_field field value d) m h b

add_device :
    (i : ℕ) (d : Device) (m : ByIndex)
    → i < 2 ^ 32
    → Below i m
    → foldl add_entry m (map (keyed i) (fields d)) ≡ m ++ ((i, d) ∷ [])
unfolding set_field field_of assign
add_device i d m h b =
    ap (λ t. foldl add_entry t (map (keyed i) (rest_of (fields d))))
      (add_entry-key "device-uri" d.uri i m h ∙ alter_new i (set_field "device-uri" d.uri) m b)
    ∙ add_fields i (rest_of (fields d)) (record default_device { uri = d.uri }) m h b
  where
    rest_of : List (String × String) → List (String × String)
    rest_of [] = []
    rest_of (e ∷ es) = es

abbrev numbered : ℕ → List Device → ByIndex
numbered i [] = []
numbered i (d ∷ ds) = (i, d) ∷ numbered (suc i) ds

Below-suc : (i : ℕ) (m : ByIndex) → Below i m → Below (suc i) m
Below-suc i [] b = tt
Below-suc i ((j, d) ∷ m) b = (ground (arith, b.0), Below-suc i m b.1)

add_devices :
    (i : ℕ) (ds : List Device) (m : ByIndex)
    → i + length ds ≤ 2 ^ 32
    → Below i m
    → foldl add_entry m (encode_from i ds) ≡ m ++ numbered i ds
add_devices i [] m h b = sym (append-nil m)
add_devices i (d ∷ ds) m h b =
    foldl-append add_entry m (map (keyed i) (fields d)) (encode_from (suc i) ds)
    ∙ ap (λ t. foldl add_entry t (encode_from (suc i) ds)) (add_device i d m (omega (arith, h)) b)
    ∙ add_devices (suc i) ds (m ++ ((i, d) ∷ [])) (omega (arith, h))
        (All-append (λ (j, d). j < suc i) m ((i, d) ∷ []) (Below-suc i m b) (omega arith, tt))
    ∙ append_assoc m ((i, d) ∷ []) (numbered (suc i) ds)

addressed :
    (i : ℕ) (ds : List Device)
    → All (λ d. is_empty d.uri ≡ false) ds
    → filter (λ d. not (is_empty d.uri)) (map (λ (j, d). d) (numbered i ds)) ≡ ds
addressed i [] h = refl
addressed i (d ∷ ds) h = ground (arith, addressed (suc i) ds h.1, h.0)

pub decode_devices-encode_from :
    (ds : List Device)
    → All (λ d. is_empty d.uri ≡ false) ds
    → length ds ≤ 2 ^ 32
    → decode_devices (encode_from 0 ds) ≡ ds
unfolding decode_devices
decode_devices-encode_from ds h k =
    ap (λ t. filter (λ d. not (is_empty d.uri)) (map (λ (j, d). d) t))
      (add_devices 0 ds [] (omega (arith, k)) tt)
    ∙ addressed 0 ds h
