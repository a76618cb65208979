-- ===== src/Client/Transfer/Gives.antt =====
-- Actions of the client that send one request and decode its answer, when the `ipp` crate takes
-- what it is given (ipp-async/src/client.rs).
use ipp_client.Prelude.{
  List, All, some, ℕ, String, none, ◌≡◌, refl, ap, sym, subst, ◌∙◌, true, arith, [], ◌∷◌, ◌++◌,
}
use ipp_client.Ipp.{
  operation_attributes, new_request, get_printer_attributes, name_bound, name_without_language, Tag,
  Value, Attribute, Uri, Bound, Builder, Request, Response, begin,
}
use ipp_client.Errors.{Result, ok, err, ◌>>=◌ as ◌>>==◌}
use ipp_client.Host.{Host}
use ipp_client.Session.{Session, Exec, lift, continue, ◌>>=◌}
use ipp_client.Client.{Client}
use ipp_client.Client.Requests.{add, start, put, with_name, bounded, user_value, raw_request}
use ipp_client.Client.Transfer.{send}
use ipp_client.Client.Transfer.Laws.{send_lem, outcome_of}
use ipp_client.Client.Transfer.Sends.{raw_with}

module _ {S : Type 0} (h : Host S) where
  -- The crate takes the texts, and the attributes.
  abbrev pub Fit : List (Bound × String) → Type 0
  Fit = All (λ text. h.fits text.0 text.1 ≡ true)

  abbrev pub Taken : List (Tag × Attribute) → Type 0
  Taken = All (λ a. h.attribute_error a.1.name a.1.value ≡ none)

  -- The action hands this request to the transport, and its value is read from the answer.
  unfoldable pub Gives :
      {A : Type 0} → Client → Exec S A → Request → String → (Response → Result A) → Type 0
  Gives c action r label decode =
      (s : Session S)
      → action s ≡ (
        outcome_of h c (h.send c.inner r s.server).0 label >>== decode,
        record s { server = (h.send c.inner r s.server).1; sent = s.sent ++ (r ∷ []) },
      )

  pub continue-lift :
      {A B : Type 0} (x : Result A) (decode : A → Result B) (t : Session S)
      → continue x (λ a. lift (decode a)) t ≡ (x >>== decode, t)
  continue-lift (ok a) decode t = refl
  continue-lift (err e) decode t = refl

  pub Gives-send :
      {B : Type 0} (c : Client) (r : Request) (label : String) (decode : Response → Result B)
      → Gives c (send h c r label >>= λ resp. lift (decode resp)) r label decode
  unfolding Gives
  Gives-send c r label decode s =
      ap (λ y. continue y.0 (λ resp. lift (decode resp)) y.1) (send_lem h c r label s)
      ∙ continue-lift _ decode _

  -- Behind a part that is known.
  pub Gives-known :
      {A B : Type 0} (c : Client) (x : Result A) (a : A) (next : A → Exec S B) (r : Request)
      (label : String) (decode : Response → Result B)
      → x ≡ ok a
      → Gives c (next a) r label decode
      → Gives c (lift x >>= next) r label decode
  Gives-known c x a next r label decode known rest =
      subst (λ x. Gives c (lift x >>= next) r label decode) (sym known) rest

  pub start-takes : (b : Builder) → h.build_error b ≡ none → start h b ≡ ok (begin b)
  unfolding start
  start-takes b built = ground (arith, built)

  pub bounded-takes :
      (bound : Bound) (name detail text : String)
      → h.fits bound text ≡ true
      → bounded h bound name detail text ≡ ok text
  unfolding bounded
  bounded-takes bound name detail text fits = ground (arith, fits)

  pub put-takes :
      (tag : Tag) (name : String) (value : Value) (r : Request)
      → h.attribute_error name value ≡ none
      → put h tag name value r ≡ ok (add tag (record { name = name; value = value }) r)
  unfolding put with_name
  put-takes tag name value r taken = ground (arith, taken)

  raw_request-takes :
      (c : Client) (uri : Uri) (opcode : ℕ)
      → h.build_error (new_request get_printer_attributes (some uri)) ≡ none
      → h.fits name_bound c.user ≡ true
      → h.attribute_error "requesting-user-name" (name_without_language c.user) ≡ none
      → raw_request h c uri opcode ≡ ok (raw_with c uri opcode [])
  unfolding raw_request user_value
  raw_request-takes c uri opcode built fits taken =
      let started = start-takes _ built in
      let fitted = bounded-takes name_bound "requesting-user-name" "name too long" c.user fits in
      let named =
        put-takes operation_attributes _ _
          (record {
            builder = new_request get_printer_attributes (some uri);
            opcode = some opcode;
            attributes = [];
          })
          taken in
      simp (started, fitted, named)

  module _ {B : Type 0} (c : Client) (label : String) (decode : Response → Result B) where
    pub Gives-raw :
        (uri : Uri) (opcode : ℕ) (next : Request → Exec S B) (r : Request)
        → h.build_error (new_request get_printer_attributes (some uri)) ≡ none
        → h.fits name_bound c.user ≡ true
        → h.attribute_error "requesting-user-name" (name_without_language c.user) ≡ none
        → Gives c (next (raw_with c uri opcode [])) r label decode
        → Gives c (lift (raw_request h c uri opcode) >>= next) r label decode
    Gives-raw uri opcode next r built fits taken =
        Gives-known c _ _ next r label decode (raw_request-takes c uri opcode built fits taken)

    pub Gives-put :
        (tag : Tag) (name : String) (value : Value) (q : Request) (next : Request → Exec S B)
        (r : Request)
        → h.attribute_error name value ≡ none
        → Gives c (next (add tag (record { name = name; value = value }) q)) r label decode
        → Gives c (lift (put h tag name value q) >>= next) r label decode
    Gives-put tag name value q next r taken =
        Gives-known c _ _ next r label decode (put-takes tag name value q taken)

    pub Gives-bounded :
        (bound : Bound) (name detail text : String) (next : String → Exec S B) (r : Request)
        → h.fits bound text ≡ true
        → Gives c (next text) r label decode
        → Gives c (lift (bounded h bound name detail text) >>= next) r label decode
    Gives-bounded bound name detail text next r fits =
        Gives-known c _ _ next r label decode (bounded-takes bound name detail text fits)

pub ruleset answer_rules = (Gives-raw, Gives-put, Gives-bounded, Gives-send)
