-- ===== src/Client/Requests/Actions.antt =====
-- The requests to move a job and to identify a printer (ipp-async/src/client.rs).
use ipp_client.Prelude.{String, ◌≡◌, none, some, List, [], ◌∷◌, arith}
use ipp_client.Ipp.{
  Tag, operation_attributes, job_attributes, Value, text_without_language, keyword, uri_bound,
  keyword_bound, text_bound, Attribute, Uri, get_printer_attributes, cups_move_job, new_request,
  Request,
}
use ipp_client.Errors.{ok, >>=-eq-ok}
use ipp_client.Model.Job.{JobId}
use ipp_client.Host.{Host}
use ipp_client.Client.Opcodes.{identify_printer_code}
use ipp_client.Client.{Client, printer_uri}
use ipp_client.Client.Requests.{
  IdentifyAction, flash, sound, display, action_keyword, identify_message, identify_printer_request,
  bounded, put, raw_request, job_action_request, move_job_request,
}
use ipp_client.Client.Requests.Laws.{
  bounded-eq-ok, put-eq-ok, user_attribute, int_attribute, raw_request-eq-ok,
  job_action_request-eq-ok,
}

-- The attributes of a request to identify a printer.
abbrev pub identify_attributes : Client → IdentifyAction → List (Tag × Attribute)
identify_attributes c (display message) =
    user_attribute c
    ∷ (operation_attributes, record { name = "identify-actions"; value = keyword "display" })
    ∷ (operation_attributes, record { name = "message"; value = text_without_language message })
    ∷ []
identify_attributes c flash =
    user_attribute c
    ∷ (operation_attributes, record { name = "identify-actions"; value = keyword "flash" })
    ∷ []
identify_attributes c sound =
    user_attribute c
    ∷ (operation_attributes, record { name = "identify-actions"; value = keyword "sound" })
    ∷ []

module _ {S : Type 0} (h : Host S) (c : Client) where
  -- A request to move a job, if it is built, names the job and the user among the operation
  -- attributes and the destination's URI among the job attributes, and is addressed to the URI
  -- of the queue that has the job.
  move_job_request-eq-ok :
      (printer : String) (id : JobId) (destination : String) (r : Request)
      → move_job_request h c printer id destination ≡ ok r
      → (from : Uri) × (to : Uri) × (printer_uri h c printer ≡ ok from)
        × (printer_uri h c destination ≡ ok to)
        × (r ≡ record {
          builder = new_request cups_move_job (some from);
          opcode = none;
          attributes =
              int_attribute "job-id" id
              ∷ user_attribute c
              ∷ (job_attributes, record { name = "job-printer-uri"; value = Value.uri to.text })
              ∷ [];
        })
  unfolding move_job_request
  move_job_request-eq-ok printer id destination r e =
      let (from, ef, e1) = >>=-eq-ok (printer_uri h c printer) _ e in
      let (q, eq, e2) = >>=-eq-ok (job_action_request h c cups_move_job from id) _ e1 in
      let (to, et, e3) = >>=-eq-ok (printer_uri h c destination) _ e2 in
      let (t, eb, e4) =
        >>=-eq-ok (bounded h uri_bound "job-printer-uri" "uri too long" to.text) _ e3 in
      (
        from,
        to,
        ef,
        et,
        rw (
          put-eq-ok h _ _ _ _ r e4,
          bounded-eq-ok h _ _ _ _ t eb,
          job_action_request-eq-ok h c cups_move_job from id q eq,
        ),
      )

  -- A request to identify a printer, if it is built, names the user and the action, and has a
  -- message if and only if the action is to display one.
  pub identify_printer_request-eq-ok :
      (uri : Uri) (action : IdentifyAction) (r : Request)
      → identify_printer_request h c uri action ≡ ok r
      → r ≡ record {
        builder = new_request get_printer_attributes (some uri);
        opcode = some identify_printer_code;
        attributes = identify_attributes c action;
      }
  unfolding identify_printer_request identify_message
  identify_printer_request-eq-ok uri action r e =
      let (b, eb, e1) = >>=-eq-ok (raw_request h c uri identify_printer_code) _ e in
      let (k, ek, e2) =
        >>=-eq-ok
          (bounded h keyword_bound "identify-actions" "keyword too long" (action_keyword action)) _
          e1 in
      let (q, eq, e3) =
        >>=-eq-ok (put h operation_attributes "identify-actions" (keyword k) b) _ e2 in
      with_message action q e3 (
        rw (
          put-eq-ok h _ _ _ _ q eq,
          bounded-eq-ok h _ _ _ _ k ek,
          raw_request-eq-ok h c uri _ b eb,
        ))
    where
      with_action : IdentifyAction → Request
      with_action a = record {
        builder = new_request get_printer_attributes (some uri);
        opcode = some identify_printer_code;
        attributes =
            user_attribute c
            ∷ (
              operation_attributes,
              record { name = "identify-actions"; value = keyword (action_keyword a) },
            )
            ∷ [];
      }

      with_message :
          (a : IdentifyAction) (q : Request)
          → identify_message h c a q ≡ ok r
          → q ≡ with_action a
          → r ≡ record {
            builder = new_request get_printer_attributes (some uri);
            opcode = some identify_printer_code;
            attributes = identify_attributes c a;
          }
      with_message flash q e p = ground arith
      with_message sound q e p = ground arith
      with_message (display message) q e p =
          let (t, et, e1) =
            >>=-eq-ok (bounded h text_bound "message" "message too long" message) _ e in
          rw (put-eq-ok h _ _ _ _ r e1, bounded-eq-ok h _ _ _ _ t et, p)
