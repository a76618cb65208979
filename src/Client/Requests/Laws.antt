-- ===== src/Client/Requests/Laws.antt =====
-- What the requests of ipp-async/src/client.rs hold when they are built.
use ipp_client.Prelude.{ℕ, ℤ, String, ◌≡◌, true, none, some, [], ◌∷◌, arith}
use ipp_client.Ipp.{
  Tag, operation_attributes, Value, name_without_language, integer, Attribute, Uri, Bound,
  name_bound, Operation, get_printer_attributes, Builder, new_request, Request, begin,
}
use ipp_client.Errors.{ok, >>=-eq-ok}
use ipp_client.Model.Job.{JobId}
use ipp_client.Host.{Host}
use ipp_client.Client.{Client}
use ipp_client.Client.Requests.{
  add, start, bounded, with_name, put, user_value, raw_request, job_action_request,
  printer_action_request,
}

-- Every request that names the user does so in this attribute.
abbrev pub user_attribute : Client → Tag × Attribute
user_attribute c = (
  operation_attributes,
  record { name = "requesting-user-name"; value = name_without_language c.user },
)

abbrev pub int_attribute : String → ℤ → Tag × Attribute
int_attribute name value = (operation_attributes, record { name = name; value = integer value })

module _ {S : Type 0} (h : Host S) where
  pub start-eq-ok : (b : Builder) (r : Request) → start h b ≡ ok r → r ≡ begin b
  unfolding start
  start-eq-ok b r e = ground arith

  pub bounded-eq-ok :
      (bound : Bound) (name detail text t : String)
      → bounded h bound name detail text ≡ ok t
      → t ≡ text
  unfolding bounded
  bounded-eq-ok bound name detail text t e = ground arith

  pub put-eq-ok :
      (tag : Tag) (name : String) (value : Value) (r t : Request)
      → put h tag name value r ≡ ok t
      → t ≡ add tag (record { name = name; value = value }) r
  unfolding put with_name
  put-eq-ok tag name value r t e = ground arith

  pub user_value-eq-ok :
      (c : Client) (v : Value) → user_value h c ≡ ok v → v ≡ name_without_language c.user
  unfolding user_value
  user_value-eq-ok c v e =
      let (t, f, g) =
        >>=-eq-ok (bounded h name_bound "requesting-user-name" "name too long" c.user) _ e in
      cc (bounded-eq-ok _ _ _ _ t f)

  module _ (c : Client) where
    -- A request with an operation of its own that is built is one that begins as
    -- Get-Printer-Attributes on the URI, with the code written over it and the user named; nothing
    -- else is in it.
    pub raw_request-eq-ok :
        (uri : Uri) (opcode : ℕ) (r : Request)
        → raw_request h c uri opcode ≡ ok r
        → r ≡ record {
          builder = new_request get_printer_attributes (some uri);
          opcode = some opcode;
          attributes = user_attribute c ∷ [];
        }
    unfolding raw_request
    raw_request-eq-ok uri opcode r e =
        let (b, eb, e1) = >>=-eq-ok (start h (new_request get_printer_attributes (some uri))) _ e in
        let (v, ev, e2) = >>=-eq-ok (user_value h c) _ e1 in
        let pb = start-eq-ok _ b eb in
        let pv = user_value-eq-ok c v ev in let pp = put-eq-ok _ _ _ _ r e2 in rw (pp, pv, pb)

    pub printer_action_request-eq-ok :
        (operation : Operation) (uri : Uri) (r : Request)
        → printer_action_request h c operation uri ≡ ok r
        → r ≡ record {
          builder = new_request operation (some uri);
          opcode = none;
          attributes = user_attribute c ∷ [];
        }
    unfolding printer_action_request
    printer_action_request-eq-ok operation uri r e =
        let (b, eb, e1) = >>=-eq-ok (start h (new_request operation (some uri))) _ e in
        let (v, ev, e2) = >>=-eq-ok (user_value h c) _ e1 in
        rw (put-eq-ok _ _ _ _ r e2, user_value-eq-ok c v ev, start-eq-ok _ b eb)

    pub job_action_request-eq-ok :
        (operation : Operation) (uri : Uri) (id : JobId) (r : Request)
        → job_action_request h c operation uri id ≡ ok r
        → r ≡ record {
          builder = new_request operation (some uri);
          opcode = none;
          attributes = int_attribute "job-id" id ∷ user_attribute c ∷ [];
        }
    unfolding job_action_request
    job_action_request-eq-ok operation uri id r e =
        let (b, eb, e1) = >>=-eq-ok (start h (new_request operation (some uri))) _ e in
        let (v, ev, e2) = >>=-eq-ok (user_value h c) _ e1 in
        let (q, eq, e3) = >>=-eq-ok (put h operation_attributes "job-id" (integer id) b) _ e2 in
        rw (
          put-eq-ok _ _ _ _ r e3,
          user_value-eq-ok c v ev,
          put-eq-ok _ _ _ _ q eq,
          start-eq-ok _ b eb,
        )

    -- The request of an action on a job is built whenever the crate takes the operation, the user's
    -- name fits, and the crate takes the two attributes.
    pub job_action_request-builds :
        (operation : Operation) (uri : Uri) (id : JobId)
        → h.build_error (new_request operation (some uri)) ≡ none
        → h.fits name_bound c.user ≡ true
        → h.attribute_error "job-id" (integer id) ≡ none
        → h.attribute_error "requesting-user-name" (name_without_language c.user) ≡ none
        → job_action_request h c operation uri id
          ≡ ok (record {
            builder = new_request operation (some uri);
            opcode = none;
            attributes = int_attribute "job-id" id ∷ user_attribute c ∷ [];
          })
    unfolding job_action_request start user_value bounded put with_name
    job_action_request-builds operation uri id eb ef ei eu = ground (arith, eb, ef, ei, eu)
