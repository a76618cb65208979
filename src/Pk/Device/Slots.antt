-- ===== src/Pk/Device/Slots.antt =====
-- Writing the fields of indexed devices (cups-pk-client/src/device.rs): two writes to different
-- slots may be made in either order.
use ipp_client.Prelude.{
  ℕ, String, ◌≡◌, ◌≢◌, refl, sym, ap, ◌∙◌, ◌⊎◌, Option, none, some, Bool-cases, ==_iff, inl, inr,
  [], ◌∷◌, arith, eq_iff, ◌==◌,
}
use ipp_client.Pk.Device.{
  Device, default_device, ByIndex, alter, Field, uri_field, class_field, info_field,
  make_and_model_field, device_id_field, location_field, unknown_field, field_of, assign, set_field,
  parse_key, write, add_entry,
}

alter_comm :
    (i k : ℕ) (f g : Device → Device) (m : ByIndex)
    → i ≢ k
    → alter i f (alter k g m) ≡ alter k g (alter i f m)
unfolding alter
alter_comm i k f g [] h = ground arith
alter_comm i k f g ((j, d) ∷ m) h = ground (arith, alter_comm i k f g m)

alter_same :
    (i : ℕ) (f g : Device → Device) (m : ByIndex)
    → ((d : Device) → f (g d) ≡ g (f d))
    → alter i f (alter i g m) ≡ alter i g (alter i f m)
unfolding alter
alter_same i f g [] h = ground (arith, h default_device)
alter_same i f g ((j, d) ∷ m) h = ground (arith, alter_same i f g m h, h default_device, h d)

assign_comm :
    (x y : Field) (v w : String) (d : Device)
    → (x ≢ y) ⊎ (x ≡ unknown_field)
    → assign x v (assign y w d) ≡ assign y w (assign x v d)
unfolding assign
assign_comm x y v w d h = ground arith

-- The name of a field that is known.
abbrev wire_name : Field → String
wire_name uri_field = "device-uri"
wire_name class_field = "device-class"
wire_name info_field = "device-info"
wire_name make_and_model_field = "device-make-and-model"
wire_name device_id_field = "device-id"
wire_name location_field = "device-location"
wire_name unknown_field = ""

field_of_known : (a : String) → (field_of a ≡ unknown_field) ⊎ (a ≡ wire_name (field_of a))
unfolding field_of
field_of_known a = ground (
  arith,
  eq_iff a "device-uri",
  eq_iff a "device-class",
  eq_iff a "device-info",
  eq_iff a "device-make-and-model",
  eq_iff a "device-id",
  eq_iff a "device-location",
)

fields_differ : (a b : String) → a ≢ b → (field_of a ≢ field_of b) ⊎ (field_of a ≡ unknown_field)
fields_differ a b h = elim (field_of_known a) [
  | inl e ↦ inr e
  | inr e ↦ elim (field_of_known b) [
    | inl f ↦ ground arith
    | inr f ↦ inl (λ p. h (e ∙ ap wire_name p ∙ sym f))
  ]
]

set_field_comm :
    (a b v w : String) (d : Device)
    → a ≢ b
    → set_field a v (set_field b w d) ≡ set_field b w (set_field a v d)
unfolding set_field
set_field_comm a b v w d h = assign_comm (field_of a) (field_of b) v w d (fields_differ a b h)

names_differ :
    (a b : String) (i k : ℕ)
    → ◌≢◌ {A = Option (String × ℕ)} (some (a, i)) (some (b, k))
    → i ≡ k
    → a ≢ b
names_differ a b i k h e p = h (cc)

write_comm :
    (a b : Option (String × ℕ)) (v w : String) (m : ByIndex)
    → (a ≡ none) ⊎ (a ≢ b)
    → write b w (write a v m) ≡ write a v (write b w m)
write_comm none b v w m h = refl
write_comm (some (a, i)) none v w m h = refl
write_comm (some (a, i)) (some (b, k)) v w m (inl e) = cc
write_comm (some (a, i)) (some (b, k)) v w m (inr h) = elim (Bool-cases (i == k)) [
  | inl same ↦
      let e : i ≡ k = (==_iff i k).0 same in
      rw e (
        sym (
          alter_same k (set_field a v) (set_field b w) m
            (λ d. set_field_comm a b v w d (names_differ a b i k h e))))
  | inr differ ↦ sym (alter_comm i k (set_field a v) (set_field b w) m (ground arith))
]

-- The slot that an entry writes, if its key names one.
abbrev pub slot : String × String → Option (String × ℕ)
slot (key, value) = parse_key key

pub add_entry_comm :
    (e f : String × String) (m : ByIndex)
    → (slot e ≡ none) ⊎ (slot e ≢ slot f)
    → add_entry (add_entry m e) f ≡ add_entry (add_entry m f) e
unfolding add_entry
add_entry_comm (key, value) (other, second) m h =
    write_comm (parse_key key) (parse_key other) value second m h
