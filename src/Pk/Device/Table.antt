-- ===== src/Pk/Device/Table.antt =====
-- The table that `decode_devices` of cups-pk-client/src/device.rs fills: it is sorted by index, and
-- holds under each index what the entries for that index write.
use mathlib.Core.List.{foldl}
use ipp_client.Prelude.{
  ℕ, String, ◌≡◌, refl, sym, ap, ◌∙◌, subst, Option, none, some, Bool-cases, inl, inr, true, false,
  List, [], ◌∷◌, arith, not, map, filter, ◌==◌, ltb, ◌≤◌, suc, if◌then◌else◌,
}
use ipp_client.Prelude.Text.{is_empty}
use ipp_client.Pk.Device.{
  Device, default_device, ByIndex, alter, add_entry, write, parse_key, set_field, decode_devices,
}

-- The keys of a table ascend, from `low` on.
abbrev pub Ascends : ℕ → ByIndex → Type 0
Ascends low [] = Unit
Ascends low ((i, d) ∷ m) = (low ≤ i) × Ascends (suc i) m

alter_here :
    (i j : ℕ) (f : Device → Device) (d : Device) (m : ByIndex)
    → (i == j) ≡ true
    → alter i f ((j, d) ∷ m) ≡ (j, f d) ∷ m
unfolding alter
alter_here i j f d m same = rw same refl

alter_before :
    (i j : ℕ) (f : Device → Device) (d : Device) (m : ByIndex)
    → (i == j) ≡ false
    → ltb i j ≡ true
    → alter i f ((j, d) ∷ m) ≡ (i, f default_device) ∷ (j, d) ∷ m
unfolding alter
alter_before i j f d m differ less = rw (differ, less) refl

alter_after :
    (i j : ℕ) (f : Device → Device) (d : Device) (m : ByIndex)
    → (i == j) ≡ false
    → ltb i j ≡ false
    → alter i f ((j, d) ∷ m) ≡ (j, d) ∷ alter i f m
unfolding alter
alter_after i j f d m differ more = rw (differ, more) refl

alter-Ascends :
    (low i : ℕ) (f : Device → Device) (m : ByIndex)
    → low ≤ i
    → Ascends low m
    → Ascends low (alter i f m)
unfolding alter
alter-Ascends low i f [] h a = (h, tt)
alter-Ascends low i f ((j, d) ∷ m) h a = elim (Bool-cases (i == j)) [
  | inl same ↦ subst (Ascends low) (sym (alter_here i j f d m same)) a
  | inr differ ↦ elim (Bool-cases (ltb i j)) [
    | inl less ↦
        subst (Ascends low) (sym (alter_before i j f d m differ less)) (h, (ground (arith), a.1))
    | inr more ↦
        subst (Ascends low) (sym (alter_after i j f d m differ more))
          (a.0, alter-Ascends (suc j) i f m (ground arith) a.1)
  ]
]

-- The device at an index; one that is absent reads as the default.
abbrev pub get : ℕ → ByIndex → Device
get i [] = default_device
get i ((j, d) ∷ m) = if i == j then d else get i m

get_below : (low k : ℕ) (m : ByIndex) → Ascends low m → suc k ≤ low → get k m ≡ default_device
get_below low k [] a h = refl
get_below low k ((j, d) ∷ m) a h = ground (arith, get_below (suc j) k m a.1)

get-alter :
    (low i k : ℕ) (f : Device → Device) (m : ByIndex)
    → Ascends low m
    → get k (alter i f m) ≡ (if k == i then f (get k m) else get k m)
unfolding alter
get-alter low i k f [] a = ground arith
get-alter low i k f ((j, d) ∷ m) a = elim (Bool-cases (i == j)) [
  | inl same ↦ rw (alter_here i j f d m same) (ground arith)
  | inr differ ↦ elim (Bool-cases (ltb i j)) [
    | inl less ↦ rw (alter_before i j f d m differ less) (ground (arith, get_below (suc j) k m a.1))
    | inr more ↦
        rw (alter_after i j f d m differ more) (ground (arith, get-alter (suc j) i k f m a.1))
  ]
]

write-Ascends :
    (slot : Option (String × ℕ)) (value : String) (m : ByIndex)
    → Ascends 0 m
    → Ascends 0 (write slot value m)
write-Ascends none value m a = a
write-Ascends (some (field, i)) value m a =
    alter-Ascends 0 i (set_field field value) m (ground arith) a

add_entry-Ascends : (e : String × String) (m : ByIndex) → Ascends 0 m → Ascends 0 (add_entry m e)
unfolding add_entry
add_entry-Ascends (key, value) m a = write-Ascends (parse_key key) value m a

-- What an entry does to the device at the index `k`.
abbrev pub write_at : ℕ → Device → Option (String × ℕ) → String → Device
write_at k d none value = d
write_at k d (some (field, i)) value = if k == i then set_field field value d else d

abbrev pub write_device : ℕ → Device → String × String → Device
write_device k d (key, value) = write_at k d (parse_key key) value

get-write :
    (k : ℕ) (slot : Option (String × ℕ)) (value : String) (m : ByIndex)
    → Ascends 0 m
    → get k (write slot value m) ≡ write_at k (get k m) slot value
get-write k none value m a = refl
get-write k (some (field, i)) value m a = get-alter 0 i k (set_field field value) m a

get-add_entry :
    (k : ℕ) (e : String × String) (m : ByIndex)
    → Ascends 0 m
    → get k (add_entry m e) ≡ write_device k (get k m) e
unfolding add_entry
get-add_entry k (key, value) m a = get-write k (parse_key key) value m a

table-Ascends :
    (es : List (String × String)) (m : ByIndex) → Ascends 0 m → Ascends 0 (foldl add_entry m es)
table-Ascends [] m a = a
table-Ascends (e ∷ es) m a = table-Ascends es (add_entry m e) (add_entry-Ascends e m a)

get-table :
    (k : ℕ) (es : List (String × String)) (m : ByIndex)
    → Ascends 0 m
    → get k (foldl add_entry m es) ≡ foldl (write_device k) (get k m) es
get-table k [] m a = refl
get-table k (e ∷ es) m a =
    get-table k es (add_entry m e) (add_entry-Ascends e m a)
    ∙ ap (λ d. foldl (write_device k) d es) (get-add_entry k e m a)

-- The devices of a reply are those of a table whose keys ascend strictly, less those without a
-- URI; and the device at each index is what the entries for that index make, in their order, of
-- the default device.
pub decode_devices_lem :
    (raw : List (String × String))
    → (m : ByIndex) × (decode_devices raw
        ≡ filter (λ d. not (is_empty d.uri)) (map (λ (i, d). d) m))
      × Ascends 0 m
      × ((k : ℕ) → get k m ≡ foldl (write_device k) default_device raw)
unfolding decode_devices
decode_devices_lem raw =
    (foldl add_entry [] raw, refl, table-Ascends raw [] tt, λ k. get-table k raw [] tt)
