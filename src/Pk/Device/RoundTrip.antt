-- ===== src/Pk/Device/RoundTrip.antt =====
-- The mechanism's reply, in whatever order the hash map gives it, read back by `decode_devices` of
-- cups-pk-client/src/device.rs.
use mathlib.Core.List.{Perm}
use ipp_client.Prelude.{
  ℕ, suc, ◌+◌, ◌≤◌, ◌<◌, ◌^◌, String, ◌≡◌, ◌≢◌, ◌⊎◌, refl, sym, ◌∙◌, Bool, true, false, not, ◌&&◌,
  any, str_eq, eq_iff, Option, some, List, [], ◌∷◌, ◌++◌, All, All-append, map, length, arith, inl,
  inr,
}
use ipp_client.Prelude.Text.{is_empty}
use ipp_client.Pk.Device.{Device, decode_devices}
use ipp_client.Pk.Device.Laws.{Apart, NoClash, decode_devices-perm}
use ipp_client.Pk.Device.Encode.{
  keyed, fields, encode_from, parse_key-key, decode_devices-encode_from,
}

abbrev Entry : Type 0
Entry = String × String

slots_differ :
    {a b : String} {i j : ℕ}
    → (a ≢ b) ⊎ (i ≢ j)
    → ◌≢◌ {A = Option (String × ℕ)} (some (a, i)) (some (b, j))
slots_differ (inl n) p = n (cc)
slots_differ (inr n) p = n (cc)

keyed-Apart :
    (e f : Entry) (i j : ℕ)
    → i < 2 ^ 32
    → j < 2 ^ 32
    → (e.0 ≢ f.0) ⊎ (i ≢ j)
    → Apart (keyed i e) (keyed j f)
keyed-Apart (a, v) (b, w) i j h k n =
    inr (λ p. slots_differ n (sym (parse_key-key a i h) ∙ p ∙ parse_key-key b j k))

-- No two fields of a device have the same name.
abbrev distinct : List Entry → Bool
distinct [] = true
distinct (e ∷ es) = not (any (λ f. str_eq e.0 f.0) es) && distinct es

names-Apart :
    (i : ℕ) (e : Entry) (es : List Entry)
    → i < 2 ^ 32
    → any (λ f. str_eq e.0 f.0) es ≡ false
    → All (Apart (keyed i e)) (map (keyed i) es)
names-Apart i e [] h k = tt
names-Apart i e (f ∷ es) h k = (
  keyed-Apart e f i i h h (inl (λ p. ground (arith, (eq_iff e.0 f.0).1 p, k))),
  names-Apart i e es h (ground (arith, k)),
)

indices-Apart :
    (i j : ℕ) (e : Entry) (es : List Entry)
    → i < j
    → j < 2 ^ 32
    → All (Apart (keyed i e)) (map (keyed j) es)
indices-Apart i j e [] h k = tt
indices-Apart i j e (f ∷ es) h k = (
  keyed-Apart e f i j (omega (arith, h, k)) k (inr (omega (arith, h))),
  indices-Apart i j e es h k,
)

later-Apart :
    (i j : ℕ) (e : Entry) (ds : List Device)
    → i < j
    → j + length ds ≤ 2 ^ 32
    → All (Apart (keyed i e)) (encode_from j ds)
later-Apart i j e [] h k = tt
later-Apart i j e (d ∷ ds) h k =
    All-append _ (map (keyed j) (fields d)) _ (indices-Apart i j e (fields d) h (omega (arith, k)))
      (later-Apart i (suc j) e ds (omega (arith, h)) (omega (arith, k)))

device-NoClash :
    (i : ℕ) (es : List Entry) (rest : List Entry)
    → i < 2 ^ 32
    → distinct es ≡ true
    → ((e : Entry) → All (Apart (keyed i e)) rest)
    → NoClash rest
    → NoClash (map (keyed i) es ++ rest)
device-NoClash i [] rest h k apart clear = clear
device-NoClash i (e ∷ es) rest h k apart clear = (
  All-append _ _ _ (names-Apart i e es h (ground (arith, k))) (apart e),
  device-NoClash i es rest h (ground (arith, k)) apart clear,
)

encode_from-NoClash :
    (i : ℕ) (ds : List Device) → i + length ds ≤ 2 ^ 32 → NoClash (encode_from i ds)
encode_from-NoClash i [] h = tt
encode_from-NoClash i (d ∷ ds) h =
    device-NoClash i (fields d) (encode_from (suc i) ds) (omega (arith, h)) refl
      (λ e. later-Apart i (suc i) e ds (omega arith) (omega (arith, h)))
      (encode_from-NoClash (suc i) ds (omega (arith, h)))

-- The reply that numbers devices from 0 and gives each field of each an entry decodes to these
-- devices, in their order, however the hash map orders the entries, if every device has a URI and
-- there are at most 2 ^ 32 of them.
pub decode_devices-encode :
    (ds : List Device) (raw : List (String × String))
    → All (λ d. is_empty d.uri ≡ false) ds
    → length ds ≤ 2 ^ 32
    → Perm (encode_from 0 ds) raw
    → decode_devices raw ≡ ds
decode_devices-encode ds raw h k p =
    sym (decode_devices-perm _ raw p (encode_from-NoClash 0 ds (omega (arith, k))))
    ∙ decode_devices-encode_from ds h k
