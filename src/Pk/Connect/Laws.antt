-- ===== src/Pk/Connect/Laws.antt =====
-- What the answer that the mechanism is there is worth (cups-pk-client/src/client.rs).
use ipp_client.Prelude.{String, ◌≡◌, refl, ap, ◌∙◌, subst, true}
use ipp_client.Pk.Errors.{Result, ok, err}
use ipp_client.Pk.Mechanism.{Reply, answered, bus_error}
use ipp_client.Pk.Connect.{
  Zbus, CupsPk, Connection, system, Action, mechanism_bus_name, default_path, onward, awaits, lift,
  refused, reached, is_ok, build, connect, ping, is_available, transport_failed, ◌>>=◌,
}

module _ {S A B : Type 0} where
  onward-eq-ok :
      (r : Result A) (s : S) (next : A → Action S B) {b : B} {t : S}
      → onward next (r, s) ≡ (ok b, t)
      → (a : A) × (r ≡ ok a) × (next a s ≡ (ok b, t))
  onward-eq-ok (ok a) s next e = (a, refl, e)
  onward-eq-ok (err x) s next e = cc

  pub >>=-eq-ok :
      (m : Action S A) (next : A → Action S B) {s : S} {b : B} {t : S}
      → (m >>= next) s ≡ (ok b, t)
      → (a : A) × (u : S) × (m s ≡ (ok a, u)) × (next a u ≡ (ok b, t))
  >>=-eq-ok m next {s = s} e =
      let (a, p, q) = onward-eq-ok (m s).0 (m s).1 next e in
      (a, (m s).1, ap (λ r. (r, (m s).1)) p, q)

pub transport_failed-eq-ok :
    {A : Type 0} (r : Reply A) {a : A} → transport_failed r ≡ ok a → r ≡ answered a
transport_failed-eq-ok (answered b) e = cc
transport_failed-eq-ok (bus_error text) e = cc

module _ {S : Type 0} (z : Zbus S) where
  build-eq-ok :
      (connection : Connection) (name : String) (s t : S) (client : CupsPk)
      → build z connection name s ≡ (ok client, t)
      → client ≡ record { connection = connection; destination = name }
  unfolding build
  build-eq-ok connection name s t client e =
      let (a, u, p, q) = >>=-eq-ok (lift (refused (z.destination_error name))) _ e in
      let (b, v, k, l) = >>=-eq-ok (awaits (z.build_mechanism connection name)) _ q in cc

  pub connect-eq-ok :
      (s t : S) (client : CupsPk)
      → connect z s ≡ (ok client, t)
      → client ≡ record { connection = system; destination = mechanism_bus_name }
  unfolding connect
  connect-eq-ok s t client e =
      let (a, u, p, q) = >>=-eq-ok (awaits (z.open_bus system)) _ e in
      build-eq-ok system mechanism_bus_name u t client q

  ping-eq-ok :
      (client : CupsPk) (s t : S)
      → ping z client s ≡ (ok tt, t)
      → (u : S) × (z.ping client.connection client.destination default_path u ≡ (answered tt, t))
  unfolding ping
  ping-eq-ok client s t e =
      let (a, u, p, q) = >>=-eq-ok (lift (refused (z.destination_error client.destination))) _ e in
      let (b, v, k, l) = >>=-eq-ok (lift (refused (z.path_error default_path))) _ q in
      let (c, w, m, n) =
        >>=-eq-ok (awaits (z.build_peer client.connection client.destination default_path)) _ l in
      let answer = z.ping client.connection client.destination default_path w in
      (
        w,
        ap (λ r. (r, answer.1)) (transport_failed-eq-ok answer.0 (ap (λ x. x.0) n))
            ∙ ap (λ t. (answered tt, t)) (ap (λ x. x.1) n),
      )

  pub pinged : (r : Result (Unit {0})) → is_ok z r ≡ true → r ≡ ok tt
  pinged (ok u) e = refl
  pinged (err x) e = cc

  -- The mechanism is said to be there only if it has answered a ping, which was sent over the
  -- system bus to its own name; that a proxy was built does not do.
  is_available-ping :
      (s t : S)
      → is_available z s ≡ (true, t)
      → (u : S) × (z.ping system mechanism_bus_name default_path u ≡ (answered tt, t))
  unfolding is_available
  is_available-ping s t e = from (connect z s).0 (connect z s).1 refl e
    where
      from :
          (r : Result CupsPk) (v : S)
          → connect z s ≡ (r, v)
          → reached z (r, v) ≡ (true, t)
          → (u : S) × (z.ping system mechanism_bus_name default_path u ≡ (answered tt, t))
      from (err x) v p e = cc
      from (ok client) v p e =
          subst
            (λ (c : CupsPk).
              (u : S) × (z.ping c.connection c.destination default_path u ≡ (answered tt, t)))
            (connect-eq-ok s v client p)
            (ping-eq-ok client v t (
              ap (λ r. (r, (ping z client v).1)) (pinged (ping z client v).0 (ap (λ x. x.0) e))
              ∙ ap (λ t. (ok tt, t)) (ap (λ x. x.1) e)))
