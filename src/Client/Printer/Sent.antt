-- ===== src/Client/Printer/Sent.antt =====
-- What each operation of an `IppPrinter` that is one request sends (ipp-async/src/client.rs).
use ipp_client.Prelude.{String, ◌≡◌, none, some, [], ◌∷◌}
use ipp_client.Ipp.{
  Uri, Operation, cancel_job as cancel_code, hold_job as hold_code, release_job as release_code,
  restart_job as restart_code, operation_attributes, mime_bound, mime_media_type, validate_job,
  get_printer_attributes, new_request, new_purge_jobs, Request, begin,
}
use ipp_client.Errors.{ok, >>=-eq-ok}
use ipp_client.Host.{Host}
use ipp_client.Session.{Session, Exec}
use ipp_client.Model.Job.{JobId}
use ipp_client.Client.{Client, IppPrinter}
use ipp_client.Client.Opcodes.{identify_printer_code}
use ipp_client.Client.Requests.{
  IdentifyAction, start, user_value, bounded, put, validate_job_request,
}
use ipp_client.Client.Requests.Laws.{
  int_attribute, start-eq-ok, user_value-eq-ok, bounded-eq-ok, put-eq-ok, job_action_request-eq-ok,
  user_attribute,
}
use ipp_client.Client.Requests.Actions.{identify_attributes, identify_printer_request-eq-ok}
use ipp_client.Client.Transfer.Sends.{Sends, Sent, Sends-run}
use ipp_client.Client.Jobs.{job_action_at, purge_jobs_at, identify_printer_at, validate_job_at}
use ipp_client.Client.Printer.{
  job_action, cancel_job, hold_job, release_job, restart_job, purge_jobs, validate, identify,
}
use ipp_client.Client.Printer.Laws.{Control, control, request_of, control-Sends}
use ipp_client.Client.Printer.Calls.{
  Call, Answer as CallAnswer, call_request, given_attribute, perform as perform_call, perform-Sends,
}

-- The four actions on a job.
pub data Action : Type 0 where
  cancelling holding releasing restarting : Action

abbrev pub operation_of : Action → Operation
operation_of cancelling = cancel_code
operation_of holding = hold_code
operation_of releasing = release_code
operation_of restarting = restart_code

-- The request of an action on a job of the queue at this URI.
abbrev pub action_request : Client → Operation → Uri → JobId → Request
action_request c operation uri id = record {
  builder = new_request operation (some uri);
  opcode = none;
  attributes = int_attribute "job-id" id ∷ user_attribute c ∷ [];
}

-- The operations of a printer that are one request, each with what the caller gives it.
pub data Order : Type 0 where
  controlling : Control → Order
  calling : Call → Order
  acting : Action → JobId → Order
  purging : Order
  validating : String → Order
  identifying : IdentifyAction → Order

abbrev pub Answer : Order → Type 0
Answer (calling call) = CallAnswer call
Answer _ = Unit

abbrev pub order_request : IppPrinter → Order → Request
order_request p (controlling control) = request_of p control
order_request p (calling call) = call_request p call
order_request p (acting action job) = action_request p.client (operation_of action) p.uri job
order_request p purging = begin (new_purge_jobs p.uri (some p.client.user))
order_request p (validating format) = record {
  builder = new_request validate_job (some p.uri);
  opcode = none;
  attributes =
      user_attribute p.client
      ∷ given_attribute operation_attributes ("document-format", mime_media_type format)
      ∷ [];
}
order_request p (identifying action) = record {
  builder = new_request get_printer_attributes (some p.uri);
  opcode = some identify_printer_code;
  attributes = identify_attributes p.client action;
}

module _ {S : Type 0} (h : Host S) (p : IppPrinter) where
  abbrev pub perform : (order : Order) → Exec S (Answer order)
  perform (controlling c) = control h p c
  perform (calling call) = perform_call h p call
  perform (acting cancelling job) = cancel_job h p job
  perform (acting holding job) = hold_job h p job
  perform (acting releasing job) = release_job h p job
  perform (acting restarting job) = restart_job h p job
  perform purging = purge_jobs h p
  perform (validating format) = validate h p format
  perform (identifying action) = identify h p action

  job_action-Sends :
      (action : Action) (label : String) (job : JobId)
      → Sends (job_action h p (operation_of action) label job) (order_request p (acting action job))
  unfolding job_action job_action_at
  job_action-Sends action label job =
      Sends-run h p.client _ label _
        (job_action_request-eq-ok h p.client (operation_of action) p.uri job)

  validate_job_request-eq-ok :
      (format : String) (r : Request)
      → validate_job_request h p.client p.uri format ≡ ok r
      → r ≡ order_request p (validating format)
  unfolding validate_job_request
  validate_job_request-eq-ok format r e =
      let (b, eb, e1) = >>=-eq-ok (start h (new_request validate_job (some p.uri))) _ e in
      let (v, ev, e2) = >>=-eq-ok (user_value h p.client) _ e1 in
      let (f, ef, e3) =
        >>=-eq-ok (bounded h mime_bound "document-format" "value too long" format) _ e2 in
      let (q, eq, e4) = >>=-eq-ok (put h operation_attributes "requesting-user-name" v b) _ e3 in
      rw (
        put-eq-ok h _ _ _ _ r e4,
        put-eq-ok h _ _ _ _ q eq,
        bounded-eq-ok h _ _ _ _ f ef,
        user_value-eq-ok h p.client v ev,
        start-eq-ok h _ b eb,
      )

  perform_order-Sends : (order : Order) → Sends (perform order) (order_request p order)
  unfolding cancel_job hold_job release_job restart_job purge_jobs purge_jobs_at validate
      validate_job_at identify identify_printer_at
  perform_order-Sends (controlling c) = control-Sends h p c
  perform_order-Sends (calling call) = perform-Sends h p call
  perform_order-Sends (acting cancelling job) = job_action-Sends cancelling "Cancel-Job" job
  perform_order-Sends (acting holding job) = job_action-Sends holding "Hold-Job" job
  perform_order-Sends (acting releasing job) = job_action-Sends releasing "Release-Job" job
  perform_order-Sends (acting restarting job) = job_action-Sends restarting "Restart-Job" job
  perform_order-Sends purging = Sends-run h p.client _ "Purge-Jobs" _ (start-eq-ok h _)
  perform_order-Sends (validating format) =
      Sends-run h p.client _ "Validate-Job" _ (validate_job_request-eq-ok format)
  perform_order-Sends (identifying action) =
      Sends-run h p.client _ "Identify-Printer" _
        (identify_printer_request-eq-ok h p.client p.uri action)

  -- Every operation of a printer that is one request sends at most that request, whatever the
  -- server answers: it is sent, exactly once, if the operation succeeds, and perhaps if it fails;
  -- and nothing else is sent, and the cached default stays. These are a control of the printer, an
  -- action on a job, identifying, purging, validating, and the operations on documents, attributes,
  -- subscriptions and notifications. The request goes to the printer's own URI, has the code of the
  -- operation, and names the user, the job or the subscription that is meant, and all that the
  -- caller gave, in its order.
  pub perform-Sent :
      (order : Order) (s : Session S)
      → ((perform order s).1.cache ≡ s.cache)
        × Sent (order_request p order) (perform order s).0 s (perform order s).1
  unfolding Sends
  perform-Sent order = perform_order-Sends order
