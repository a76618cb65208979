-- ===== src/Client/Queries.antt =====
-- ipp-async/src/client.rs: what the client reads from the daemon.
pub mod Laws
pub mod Requested
pub mod Query
pub mod Answered
use ipp_client.Prelude.{String, ◌<>◌, true, false, Option, none, some, List, [], ◌∷◌, first}
use ipp_client.Ipp.{
  operation_attributes, printer_attributes, text_without_language, Uri, text_bound,
  cups_get_classes, cups_get_ppds, new_request, new_get_printers, new_get_printer_attributes, Group,
  Request, Response, begin,
}
use ipp_client.Errors.{Result, err, decode}
use ipp_client.Host.{Host}
use ipp_client.Session.{Exec, pure, lift, ◌>>=◌, ◌>>◌}
use ipp_client.Model.Printer
use ipp_client.Model.Printer.{Printer}
use ipp_client.Model.Job.{Job, JobId}
use ipp_client.Model.Class
use ipp_client.Model.Class.{Class}
use ipp_client.Model.Ppd
use ipp_client.Model.Ppd.{Ppd}
use ipp_client.Subscription.{decode_all}
use ipp_client.Events.{Snapshot}
use ipp_client.Client.{Client, parse_or, printer_uri}
use ipp_client.Client.Requests.{
  PpdFilter, as_attribute, WhichJobs, not_completed, start, put, bounded, request_attributes,
  printer_attribute_names, jobs_request, job_request,
}
use ipp_client.Client.Transfer.{transmit, send, check_status, decode_printers, decode_jobs}
use ipp_client.Client.Default.{default_printer}

abbrev decode_group : Option Group → Result Printer
decode_group none = err (decode "printer-attributes" "no printer group in response")
decode_group (some group) = Printer.decode group

-- The first printer group, decoded.
unfoldable pub first_printer : Response → Result Printer
first_printer resp = decode_group (first (resp.groups_of printer_attributes))

abbrev pub class_attribute_names : List String
class_attribute_names = "printer-name" ∷ "member-names" ∷ []

abbrev pub ppd_attribute_names : List String
ppd_attribute_names = "ppd-name" ∷ "ppd-make-and-model" ∷ "ppd-device-id" ∷ []

module _ {S : Type 0} (h : Host S) (c : Client) where
  unfoldable pub printers : Exec S (List Printer)
  unfolding default_printer request_attributes transmit check_status decode_printers
  printers = do
    default ← default_printer h c
    request ← lift (request_attributes h printer_attribute_names (begin new_get_printers))
    resp ← transmit h c request
    lift (check_status h resp "CUPS-Get-Printers")
    pure (decode_printers resp default)

  unfoldable pub classes : Exec S (List Class)
  unfolding start request_attributes transmit check_status
  classes = do
    request ← lift (start h (new_request cups_get_classes none))
    request ← lift (request_attributes h class_attribute_names request)
    resp ← transmit h c request
    lift (check_status h resp "CUPS-Get-Classes")
    pure (decode_all resp printer_attributes Class.decode)

  unfoldable pub add_filter : Option PpdFilter → Request → Exec S Request
  unfolding bounded put
  add_filter none request = pure request
  add_filter (some filter) request = do
    let (name, value) = as_attribute filter
    text ← lift (bounded h text_bound name "filter value too long" value)
    lift (put h operation_attributes name (text_without_language text) request)

  unfoldable pub ppds : Option PpdFilter → Exec S (List Ppd)
  unfolding start add_filter request_attributes transmit check_status
  ppds filter = do
    request ← lift (start h (new_request cups_get_ppds none))
    request ← add_filter filter request
    request ← lift (request_attributes h ppd_attribute_names request)
    resp ← transmit h c request
    lift (check_status h resp "CUPS-Get-PPDs")
    pure (decode_all resp printer_attributes Ppd.decode)

  unfoldable pub jobs : WhichJobs → Exec S (List Job)
  unfolding jobs_request transmit check_status decode_jobs
  jobs which = do
    request ← lift (jobs_request h c which)
    resp ← transmit h c request
    lift (check_status h resp "Get-Jobs")
    pure (decode_jobs resp)

  -- A job that the server does not know is `none`; any other refusal is an error.
  unfoldable pub read_job : Response → Exec S (Option Job)
  unfolding check_status decode_jobs
  read_job resp = elim (h.is_not_found resp.status) [
    | true ↦ pure none
    | false ↦ do lift (check_status h resp "Get-Job-Attributes"); pure (first (decode_jobs resp))
  ]

  unfoldable pub job : String → JobId → Exec S (Option Job)
  unfolding job_request transmit read_job
  job printer id = do
    request ← lift (job_request h c printer id)
    resp ← transmit h c request
    read_job resp

  unfoldable pub attributes_at : Uri → Exec S Printer
  unfolding start send first_printer
  attributes_at uri = do
    request ← lift (start h (new_get_printer_attributes uri))
    resp ← send h c request "Get-Printer-Attributes"
    lift (first_printer resp)

  unfoldable pub printer_at : String → Exec S Printer
  unfolding parse_or attributes_at
  printer_at uri = do
    parsed ← lift (parse_or h ("bad printer uri " <> uri) uri)
    attributes_at parsed

  unfoldable pub printer : String → Exec S Printer
  unfolding printer_uri printer_at
  printer name = do uri ← lift (printer_uri h c name); printer_at uri.text

  unfoldable pub snapshot : Exec S Snapshot
  unfolding printers jobs
  snapshot = do ps ← printers; js ← jobs not_completed; pure (record { printers = ps; jobs = js })
