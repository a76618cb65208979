-- ===== src/Pk/Device/Laws.antt =====
-- What `decode_devices` of cups-pk-client/src/device.rs makes of a reply.
use mathlib.Core.List.{Perm, Permᴰ, foldl}
use mathlib.Core.Path.{ap₂, subst₂}
use mathlib.Core.List.Permᴰ.{nil, cons, swap, trans}
use mathlib.Core.Logic.{∥∥₁_elim}
use mathlib.Core.HLevel.{hedberg}
use ipp_client.Prelude.{
  String, ◌≡◌, ◌≢◌, refl, sym, ap, ◌∙◌, subst, ◌⊎◌, none, Option-cases, Bool-cases, inl, inr, List,
  [], ◌∷◌, All, not, map, filter, str_eq, eq_iff,
}
use ipp_client.Prelude.Text.{is_empty}
use ipp_client.Pk.Device.{Device, ByIndex, add_entry, decode_devices}
use ipp_client.Pk.Device.Slots.{slot, add_entry_comm}

abbrev Entry : Type 0
Entry = String × String

-- Two entries do not write the same field of the same device.
abbrev pub Apart : Entry → Entry → Type 0
Apart e f = (slot e ≡ none) ⊎ (slot e ≢ slot f)

Apart-symm : (e f : Entry) → Apart e f → Apart f e
Apart-symm e f (inr h) = inr (λ p. h (sym p))
Apart-symm e f (inl h) = elim (Option-cases (slot f)) [ inl g ↦ inl g | inr (a, g) ↦ inr (λ p. cc) ]

-- No two entries of a reply write the same field of the same device.
abbrev pub NoClash : List Entry → Type 0
NoClash [] = Unit
NoClash (e ∷ es) = All (Apart e) es × NoClash es

All-perm : (P : Entry → Type 0) {l m : List Entry} → Permᴰ l m → All P l → All P m
All-perm P nil h = tt
All-perm P (cons e p) h = (subst P e h.0, All-perm P p h.1)
All-perm P (swap e f) h = (subst P f h.1.0, (subst P e h.0, h.1.1))
All-perm P (trans p q) h = All-perm P q (All-perm P p h)

NoClash-perm : {l m : List Entry} → Permᴰ l m → NoClash l → NoClash m
NoClash-perm nil h = tt
NoClash-perm (cons {b = b} {l₂ = m} e p) h =
    (subst (λ x. All (Apart x) m) e (All-perm _ p h.0), NoClash-perm p h.1)
NoClash-perm (swap {a = a} {b = b} {l = l} e f) h =
    subst₂ (λ x y. NoClash (x ∷ y ∷ l)) f e ((Apart-symm a b h.0.0, h.1.0), (h.0.1, h.1.1))
NoClash-perm (trans p q) h = NoClash-perm q (NoClash-perm p h)

foldl-perm :
    {l m : List Entry} (p : Permᴰ l m) (start : ByIndex)
    → NoClash l
    → foldl add_entry start l ≡ foldl add_entry start m
foldl-perm nil start h = refl
foldl-perm (cons {a = a} {l₂ = m} e p) start h =
    foldl-perm p (add_entry start a) h.1 ∙ ap (λ x. foldl add_entry (add_entry start x) m) e
foldl-perm (swap {a = a} {b = b} {l = l} e f) start h =
    ap (λ m. foldl add_entry m l) (add_entry_comm a b start h.0.0)
    ∙ ap₂ (λ x y. foldl add_entry (add_entry (add_entry start x) y) l) f e
foldl-perm (trans p q) start h = foldl-perm p start h ∙ foldl-perm q start (NoClash-perm p h)

String-discrete : Discrete String
String-discrete s t = elim (Bool-cases (str_eq s t)) [
  | inl same ↦ yes ((eq_iff s t).0 same)
  | inr differ ↦ no (λ p. cc ((eq_iff s t).1 p))
]

String-set : IsSet String
String-set = hedberg String-discrete

Devices-set : IsSet (List Device)
Devices-set = hlevel (String-set)

-- The devices do not depend on the order in which the hash map gives the entries, if no two of
-- them write the same field of the same device.
pub decode_devices-perm :
    (l m : List (String × String)) → Perm l m → NoClash l → decode_devices l ≡ decode_devices m
unfolding decode_devices
decode_devices-perm l m p h =
    ∥∥₁_elim p (Devices-set _ _)
      λ d. ap (λ t. filter (λ d. not (is_empty d.uri)) (map (λ (i, d). d) t)) (foldl-perm d [] h)
