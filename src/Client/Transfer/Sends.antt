-- ===== src/Client/Transfer/Sends.antt =====
-- Actions of the client that send one request, or fail before they do
-- (ipp-async/src/client.rs).
use ipp_client.Prelude.{
  ℕ, String, ◌≡◌, refl, ap, sym, subst, ◌⊎◌, inl, inr, some, List, [], ◌∷◌, ◌++◌,
}
use ipp_client.Ipp.{
  Tag, Value, Attribute, Uri, Bound, get_printer_attributes, new_request, Request, Response,
}
use ipp_client.Errors.{Result, ok, err}
use ipp_client.Host.{Host}
use ipp_client.Session.{Session, Exec, lift, ◌>>=◌, continue-cases}
use ipp_client.Client.{Client}
use ipp_client.Client.Requests.{add, put, bounded, raw_request}
use ipp_client.Client.Requests.Laws.{raw_request-eq-ok, put-eq-ok, bounded-eq-ok, user_attribute}
use ipp_client.Client.Transfer.{send, run}
use ipp_client.Client.Transfer.Laws.{send_lem}

module _ {S : Type 0} where
  -- The history grows by this request, and without a success perhaps not at all.
  abbrev pub Sent : {A : Type 0} → Request → Result A → Session S → Session S → Type 0
  Sent r (ok a) s t = t.sent ≡ s.sent ++ (r ∷ [])
  Sent r (err e) s t = (t.sent ≡ s.sent) ⊎ (t.sent ≡ s.sent ++ (r ∷ []))

  -- It sends this request and no other, and leaves the cache.
  unfoldable pub Sends : {A : Type 0} → Exec S A → Request → Type 0
  Sends action r =
      (s : Session S) → ((action s).1.cache ≡ s.cache) × Sent r (action s).0 s (action s).1

  -- It changes nothing, and its value, if it has one, is as it is to be.
  unfoldable pub Yields : {A : Type 0} → Exec S A → (A → Type 0) → Type 0
  Yields {A = A} action P =
      (s : Session S) → ((action s).1 ≡ s) × ((a : A) → (action s).0 ≡ ok a → P a)

  pub Sends-then :
      {A B : Type 0} (action : Exec S A) (P : A → Type 0) (next : A → Exec S B) (r : Request)
      → Yields action P
      → ((a : A) → P a → Sends (next a) r)
      → Sends (action >>= next) r
  unfolding Sends Yields
  Sends-then action P next r yields each s =
      let (same, known) = yields s in
      continue-cases (λ y. (y.1.cache ≡ s.cache) × Sent r y.0 s y.1) (action s).0 next (action s).1
        (λ e failed.
          (ap (λ (w : Session S). w.cache) same, inl (ap (λ (w : Session S). w.sent) same)))
        λ a given.
          subst
            (λ (w : Session S).
              ((next a (action s).1).1.cache ≡ w.cache)
              × Sent r (next a (action s).1).0 w (next a (action s).1).1)
            same (each a (known a given) (action s).1)

  -- Behind a part that is computed, whose value is known if there is one.
  pub Sends-known :
      {A B : Type 0} (x : Result A) (a : A) (next : A → Exec S B) (r : Request)
      → ((b : A) → x ≡ ok b → b ≡ a)
      → Sends (next a) r
      → Sends (lift x >>= next) r
  unfolding Yields
  Sends-known x a next r known rest =
      Sends-then (lift x) (λ b. b ≡ a) next r (λ s. (refl, known))
        λ b e. subst (λ b. Sends (next b) r) (sym e) rest

  handed-Sent :
      {A : Type 0} (r : Request) (x : Result A) (s t : Session S)
      → t.sent ≡ s.sent ++ (r ∷ [])
      → Sent r x s t
  handed-Sent r (ok a) s t e = e
  handed-Sent r (err e) s t sent = inr sent

  -- The last of an operation: it sends its request, and decodes the answer.
  pub Sends-send :
      {B : Type 0} (h : Host S) (c : Client) (request : Request) (label : String)
      (decode : Response → Result B)
      → Sends (send h c request label >>= λ resp. lift (decode resp)) request
  unfolding Sends
  Sends-send {B = B} h c request label decode s =
      let settled = send_lem h c request label s in
      let t : Session S = (send h c request label s).1 in
      let kept : t.cache ≡ s.cache = ap (λ x. x.1.cache) settled in
      let handed : t.sent ≡ s.sent ++ (request ∷ []) = ap (λ x. x.1.sent) settled in
      continue-cases (λ (y : Result B × Session S). (y.1.cache ≡ s.cache) × Sent request y.0 s y.1)
        (send h c request label s).0 (λ resp. lift (decode resp)) t (λ e failed. (kept, inr handed))
        λ resp given. (kept, handed-Sent request (decode resp) s t handed)

-- A request with an operation of its own, on a URI, with attributes behind the user's name.
abbrev pub raw_with : Client → Uri → ℕ → List (Tag × Attribute) → Request
raw_with c uri opcode attributes = record {
  builder = new_request get_printer_attributes (some uri);
  opcode = some opcode;
  attributes = user_attribute c ∷ attributes;
}

module _ {S B : Type 0} (h : Host S) where
  pub Sends-raw :
      (c : Client) (uri : Uri) (opcode : ℕ) (next : Request → Exec S B) (r : Request)
      → Sends (next (raw_with c uri opcode [])) r
      → Sends (lift (raw_request h c uri opcode) >>= next) r
  Sends-raw c uri opcode next r =
      Sends-known (raw_request h c uri opcode) (raw_with c uri opcode []) next r
        (raw_request-eq-ok h c uri opcode)

  pub Sends-put :
      (tag : Tag) (name : String) (value : Value) (q : Request) (next : Request → Exec S B)
      (r : Request)
      → Sends (next (add tag (record { name = name; value = value }) q)) r
      → Sends (lift (put h tag name value q) >>= next) r
  Sends-put tag name value q next r =
      Sends-known (put h tag name value q) (add tag (record { name = name; value = value }) q) next
        r λ t. put-eq-ok h tag name value q t

  pub Sends-bounded :
      (bound : Bound) (name detail text : String) (next : String → Exec S B) (r : Request)
      → Sends (next text) r
      → Sends (lift (bounded h bound name detail text) >>= next) r
  Sends-bounded bound name detail text next r =
      Sends-known (bounded h bound name detail text) text next r
        λ t. bounded-eq-ok h bound name detail text t

module _ {S : Type 0} (h : Host S) where
  pub Sends-run :
      (c : Client) (request : Result Request) (label : String) (r : Request)
      → ((q : Request) → request ≡ ok q → q ≡ r)
      → Sends (run h c request label) r
  unfolding run
  Sends-run c request label r known =
      Sends-known request r _ r known (Sends-send h c r label λ resp. ok tt)

-- What the code of an operation consists of, from the request to the answer.
pub ruleset operation_rules = (Sends-raw, Sends-bounded, Sends-put, Sends-send)
