-- ===== src/Pk/Connect/Reached.antt =====
-- When the mechanism is said to be there (cups-pk-client/src/client.rs).
use ipp_client.Prelude.{String, ◌≡◌, refl, ap, ◌∙◌, subst, true, ◌↔◌, Option, none, some}
use ipp_client.Pk.Errors.{Result, ok, err}
use ipp_client.Pk.Mechanism.{Reply, answered}
use ipp_client.Pk.Connect.{
  Zbus, CupsPk, Connection, system, mechanism_bus_name, default_path, awaits, lift, refused,
  reached, build, connect, ping, is_available,
}
use ipp_client.Pk.Connect.Laws.{connect-eq-ok, >>=-eq-ok, transport_failed-eq-ok, pinged}

refused-eq-ok : (o : Option String) → refused o ≡ ok tt → o ≡ none
refused-eq-ok none e = refl
refused-eq-ok (some text) e = cc e

awaits-eq-ok :
    {S : Type 0} (action : S → Reply (Unit {0}) × S) (s t : S)
    → awaits action s ≡ (ok tt, t)
    → action s ≡ (answered tt, t)
awaits-eq-ok action s t e =
    let (reply, after) = action s in
    ap (λ r. (r, after)) (transport_failed-eq-ok reply (ap (λ x. x.0) e))
    ∙ ap (λ t. (answered tt, t)) (ap (λ x. x.1) e)

module _ {S : Type 0} (z : Zbus S) where
  -- The steps to an answered ping, from one state of the machine to another.
  pub record Reached (s t : S) : Type 0 where
    pub opened : S
    pub built : S
    pub peered : S
    pub named : z.destination_error mechanism_bus_name ≡ none
    pub placed : z.path_error default_path ≡ none
    pub bus : z.open_bus system s ≡ (answered tt, opened)
    pub proxy : z.build_mechanism system mechanism_bus_name opened ≡ (answered tt, built)
    pub peer : z.build_peer system mechanism_bus_name default_path built ≡ (answered tt, peered)
    pub answer : z.ping system mechanism_bus_name default_path peered ≡ (answered tt, t)

  Reached-available : (s t : S) → Reached s t → is_available z s ≡ (true, t)
  unfolding is_available connect build ping
  Reached-available s t r = rw (r.bus, r.named, r.proxy, r.named, r.placed, r.peer, r.answer)

  build_steps :
      (connection : Connection) (name : String) (u v : S) (client : CupsPk)
      → build z connection name u ≡ (ok client, v)
      → (z.destination_error name ≡ none) × (z.build_mechanism connection name u ≡ (answered tt, v))
  unfolding build
  build_steps connection name u v client e =
      let (a, u1, k, l) = >>=-eq-ok (lift (refused (z.destination_error name))) _ e in
      let (b, u2, m, n) = >>=-eq-ok (awaits (z.build_mechanism connection name)) _ l in
      let same : u ≡ u1 = ap (λ x. x.1) k in
      let last : u2 ≡ v = ap (λ x. x.1) n in
      (
        refused-eq-ok (z.destination_error name) (ap (λ x. x.0) k),
        cc (awaits-eq-ok (z.build_mechanism connection name) u1 u2 m, same, last),
      )

  ping_steps :
      (client : CupsPk) (u v : S)
      → ping z client u ≡ (ok tt, v)
      → (w : S) × (z.path_error default_path ≡ none)
        × (z.build_peer client.connection client.destination default_path u ≡ (answered tt, w))
        × (z.ping client.connection client.destination default_path w ≡ (answered tt, v))
  unfolding ping
  ping_steps client u v e =
      let (a, u1, p, q) = >>=-eq-ok (lift (refused (z.destination_error client.destination))) _ e in
      let (b, u2, k, l) = >>=-eq-ok (lift (refused (z.path_error default_path))) _ q in
      let peer = z.build_peer client.connection client.destination default_path in
      let (c, u3, m, n) = >>=-eq-ok (awaits peer) _ l in
      let same : u ≡ u1 = ap (λ x. x.1) p in
      let same2 : u1 ≡ u2 = ap (λ x. x.1) k in
      (
        u3,
        refused-eq-ok (z.path_error default_path) (ap (λ x. x.0) k),
        cc (awaits-eq-ok peer u2 u3 m, same, same2),
        awaits-eq-ok (z.ping client.connection client.destination default_path) u3 v n,
      )

  pinged-Reached :
      (s t v : S) (client : CupsPk)
      → connect z s ≡ (ok client, v)
      → ping z client v ≡ (ok tt, t)
      → Reached s t
  unfolding connect
  pinged-Reached s t v client p e =
      let known = connect-eq-ok z s v client p in
      let (a, u, k, l) = >>=-eq-ok (awaits (z.open_bus system)) _ p in
      let (named, built) = build_steps system mechanism_bus_name u v client l in
      let (w, placed, peer, answer) =
        ping_steps (record { connection = system; destination = mechanism_bus_name }) v t
          (subst (λ c. ping z c v ≡ (ok tt, t)) known e) in
      record {
        opened = u;
        built = v;
        peered = w;
        named = named;
        placed = placed;
        bus = awaits-eq-ok (z.open_bus system) s u k;
        proxy = built;
        peer = peer;
        answer = answer;
      }

  available-Reached : (s t : S) → is_available z s ≡ (true, t) → Reached s t
  unfolding is_available
  available-Reached s t e = from (connect z s).0 (connect z s).1 refl e
    where
      from :
          (r : Result CupsPk) (v : S)
          → connect z s ≡ (r, v)
          → reached z (r, v) ≡ (true, t)
          → Reached s t
      from (err x) v p e = cc
      from (ok client) v p e = pinged-Reached s t v client p (
          ap (λ r. (r, (ping z client v).1)) (pinged z (ping z client v).0 (ap (λ x. x.0) e))
          ∙ ap (λ t. (ok tt, t)) (ap (λ x. x.1) e))

  -- The mechanism is said to be there if and only if the system bus can be opened, a proxy can be
  -- built for the mechanism's own name and one for the object at it as a peer, and this answers a
  -- ping, each from the state of the machine that the step before has left.
  pub is_available-Reached_iff : (s t : S) → (is_available z s ≡ (true, t)) ↔ Reached s t
  is_available-Reached_iff s t = (available-Reached s t, Reached-available s t)
