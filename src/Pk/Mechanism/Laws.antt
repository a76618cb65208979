-- ===== src/Pk/Mechanism/Laws.antt =====
-- What the answers of the mechanism become (cups-pk-client/src/client.rs and error.rs).
use Prim.Native.String.{[], ◌∷◌}
use ipp_client.Prelude.{
  as_i32-small, Duration, ℕ, pos, String, ◌≡◌, ◌≢◌, ◌↔◌, ◌⊎◌, inl, inr, refl, ap, ◌∙◌, sym, ◌^◌,
  ◌<◌, true, subst, List, [], Bool-cases,
}
use ipp_client.Prelude.Text.{contains}
use ipp_client.Pk.Errors.{authorization_failed, mechanism, transport, Result, ok, err, translate}
use ipp_client.Pk.Device.{Device, decode_devices}
use ipp_client.Pk.Mechanism.{
  Call, Reply, answered, bus_error, Bus, call_failed, settle, settle_devices, perform, devices_get,
}

-- The texts by which the bus refuses a caller.
abbrev pub RefusesAuthorization : String → Type 0
RefusesAuthorization text =
    (contains "NotPrivileged" text ≡ true)
    ⊎ (contains "AccessDenied" text ≡ true)
    ⊎ (contains "not authorized" text ≡ true)

call_failed-cases :
    (text : String)
    → ((call_failed text ≡ authorization_failed) × RefusesAuthorization text)
      ⊎ ((call_failed text ≡ transport text) × ¬ RefusesAuthorization text)
unfolding call_failed
call_failed-cases text = elim (Bool-cases (contains "NotPrivileged" text)) [
  | inl a ↦ inl (rw a, inl a)
  | inr a ↦ elim (Bool-cases (contains "AccessDenied" text)) [
    | inl b ↦ inl (rw (a, b), inr (inl b))
    | inr b ↦ elim (Bool-cases (contains "not authorized" text)) [
      | inl c ↦ inl (rw (a, b, c), inr (inr c))
      | inr c ↦
          inr
            (rw (a, b, c), λ h. elim h [ inl x ↦ cc | inr y ↦ elim y [ inl x ↦ cc | inr x ↦ cc ] ])
    ]
  ]
]

translate-cases :
    (e : String)
    → ((e ≡ "") × (translate e ≡ ok tt)) ⊎ ((e ≢ "") × (translate e ≡ err (mechanism e)))
unfolding translate
translate-cases [] = inl (refl, refl)
translate-cases (c ∷ s) = inr (λ p. cc, refl)

bus_error-injective : {a b : String} → ◌≡◌ {A = Reply String} (bus_error a) (bus_error b) → a ≡ b
bus_error-injective h = cc

answered-injective : {a b : String} → ◌≡◌ {A = Reply String} (answered a) (answered b) → a ≡ b
answered-injective h = cc

-- What a reply becomes, by the reply.
abbrev pub Settled : Reply String → Result (Unit {0}) → Type 0
Settled reply result =
    ((result ≡ ok tt) ↔ (reply ≡ answered ""))
    × ((m : String) → (result ≡ err (mechanism m)) ↔ ((reply ≡ answered m) × (m ≢ "")))
    × ((result ≡ err authorization_failed)
        ↔ ((text : String) × (reply ≡ bus_error text) × RefusesAuthorization text))
    × ((text : String)
        → (result ≡ err (transport text))
          ↔ ((reply ≡ bus_error text) × ¬ RefusesAuthorization text))

Settled-ok : Settled (answered "") (ok tt)
Settled-ok = (
  (λ h. refl, λ h. refl),
  λ m. (λ h. cc, λ h. absurd (h.1 (sym (answered-injective h.0)))),
  (λ h. cc, λ h. cc (h.1)),
  λ text. (λ h. cc, λ h. cc (h.0)),
)

Settled-mechanism : (e : String) → e ≢ "" → Settled (answered e) (err (mechanism e))
Settled-mechanism e n = (
  (λ h. cc, λ h. absurd (n (answered-injective h))),
  λ m. (
    λ h. let k : e ≡ m = cc in (ap answered k, λ p. n (k ∙ p)),
    λ h. cc (answered-injective h.0),
  ),
  (λ h. cc, λ h. cc (h.1)),
  λ text. (λ h. cc, λ h. cc (h.0)),
)

Settled-refusal :
    (t : String) → RefusesAuthorization t → Settled (bus_error t) (err authorization_failed)
Settled-refusal t r = (
  (λ h. cc, λ h. cc),
  λ m. (λ h. cc, λ h. cc (h.0)),
  (λ h. (t, refl, r), λ h. refl),
  λ text. (λ h. cc, λ h. absurd (h.1 (subst RefusesAuthorization (bus_error-injective h.0) r))),
)

Settled-transport :
    (t : String) → ¬ RefusesAuthorization t → Settled (bus_error t) (err (transport t))
Settled-transport t r = (
  (λ h. cc, λ h. cc),
  λ m. (λ h. cc, λ h. cc (h.0)),
  (λ h. cc, λ h. absurd (r (subst RefusesAuthorization (sym (bus_error-injective h.1)) h.2))),
  λ text. (
    λ h. let k : t ≡ text = cc in (ap bus_error k, subst (λ t. ¬ RefusesAuthorization t) k r),
    λ h. cc (bus_error-injective h.0),
  ),
)

settle-Settled :
    (reply : Reply String) → {S : Type 0} (bus : Bus S) → Settled reply (settle bus reply)
settle-Settled (answered e) bus = elim (translate-cases e) [
  | inl (p, q) ↦ rw (q, p) Settled-ok
  | inr (n, q) ↦ rw q (Settled-mechanism e n)
]
settle-Settled (bus_error t) bus = elim (call_failed-cases t) [
  | inl (q, r) ↦ rw q (Settled-refusal t r)
  | inr (q, r) ↦ rw q (Settled-transport t r)
]

module _ {S : Type 0} (bus : Bus S) where
  pub perform-Settled : (c : Call) (s : S) → Settled (bus.call c s).0 (perform bus c s).0
  unfolding perform
  perform-Settled c s = settle-Settled (bus.call c s).0 bus

  -- What a search comes to, apart from the devices.
  abbrev pub finished : Result (List Device) → Result (Unit {0})
  finished (ok devices) = ok tt
  finished (err e) = err e

  abbrev pub status : Reply (String × List (String × String)) → Reply String
  status (answered (error, raw)) = answered error
  status (bus_error text) = bus_error text

  -- The devices are those of the entries of a reply without an error.
  abbrev pub Found : Reply (String × List (String × String)) → Result (List Device) → Type 0
  Found reply (ok devices) =
      (raw : List (String × String)) × (reply ≡ answered ("", raw)) × (devices ≡ decode_devices raw)
  Found reply (err e) = Unit

  settle_devices-Settled :
      (reply : Reply (String × List (String × String)))
      → Settled (status reply) (finished (settle_devices bus reply))
        × Found reply (settle_devices bus reply)
  settle_devices-Settled (bus_error text) = (settle-Settled (bus_error text) bus, tt)
  settle_devices-Settled (answered (error, raw)) = elim (translate-cases error) [
    | inl (p, q) ↦ rw (q, p) (Settled-ok, (raw, refl, refl))
    | inr (n, q) ↦ rw q (Settled-mechanism error n, tt)
  ]

  -- A search for devices whose timeout is below 2 ^ 31 seconds and whose limit is below 2 ^ 31
  -- hands the whole seconds of the timeout, its fraction left out, and the limit as it is to the
  -- mechanism, in one call. It succeeds if and only if the answer has an empty error text, and then
  -- gives the devices that the entries of this answer describe. It fails with a mechanism's error
  -- if and only if the answer has that text and it is not empty, whatever its entries are; with a
  -- refused authorization if and only if the bus fails with a text that says so; and with a
  -- transport's error if and only if the bus fails with this text and it does not.
  pub devices_get-Settled :
      (timeout : Duration) (limit : ℕ) (s : S)
      → timeout.secs < 2 ^ 31
      → limit < 2 ^ 31
      → let (reply, t) = bus.devices_get (pos timeout.secs) (pos limit) [] [] s in
        ((devices_get bus timeout limit s).1 ≡ t)
        × Settled (status reply) (finished (devices_get bus timeout limit s).0)
        × Found reply (devices_get bus timeout limit s).0
  unfolding devices_get
  devices_get-Settled timeout limit s h k =
      let (settled, found) =
        settle_devices-Settled (bus.devices_get (pos timeout.secs) (pos limit) [] [] s).0 in
      rw (as_i32-small timeout.secs h, as_i32-small limit k) (refl, settled, found)
