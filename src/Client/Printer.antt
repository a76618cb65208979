-- ===== src/Client/Printer.antt =====
-- ipp-async/src/client.rs: the operations of `IppPrinter`, each against the printer's own URI.
pub mod Laws
pub mod Calls
pub mod Sent
pub mod Answered
pub mod Granted
pub mod Named
use ipp_client.Prelude.{ℕ, String, Option, some, List, [], ◌∷◌}
use ipp_client.Ipp.{
  Tag, operation_attributes, job_attributes, printer_attributes, document_attributes, Value,
  mime_media_type, Operation, cancel_job as cancel_code, hold_job as hold_code,
  release_job as release_code, restart_job as restart_code, pause_printer, resume_printer, Request,
  mime_bound,
}
use ipp_client.Host.{Host}
use ipp_client.Session.{Exec, pure, lift, ◌>>=◌, ◌>>◌}
use ipp_client.Model.Printer.{Printer}
use ipp_client.Model.Job.{JobId}
use ipp_client.Model.Document
use ipp_client.Model.Document.{Document}
use ipp_client.Subscription.{decode_all}
use ipp_client.Client.{IppPrinter}
use ipp_client.Client.Opcodes.{
  get_documents, validate_document_code, disable_printer, enable_printer, hold_new_jobs_code,
  release_held_new_jobs_code, cancel_my_jobs_code, cancel_jobs, resubmit_job_code,
  set_job_attributes_code, set_printer_attributes,
}
use ipp_client.Client.Requests.{
  IdentifyAction, put, bounded, add_int, raw_request, printer_action_request,
}
use ipp_client.Client.Transfer.{send, run, decode_job_id}
use ipp_client.Client.Queries.{attributes_at}
use ipp_client.Client.Jobs.{job_action_at, purge_jobs_at, validate_job_at, identify_printer_at}
use ipp_client.Client.Print.{print_stream_at, open_file, auto_type, job_name_of}

module _ {S : Type 0} (h : Host S) (p : IppPrinter) where
  unfoldable pub attributes : Exec S Printer
  unfolding attributes_at
  attributes = attributes_at h p.client p.uri

  unfoldable pub print_stream : ℕ → Option String → String → Exec S JobId
  unfolding print_stream_at
  print_stream = print_stream_at h p.client p.uri

  unfoldable pub print_file : String → Exec S JobId
  unfolding open_file print_stream
  print_file path = do
    file ← open_file h p.client path
    print_stream file (some auto_type) (job_name_of h p.client path)

  unfoldable pub job_action : Operation → String → JobId → Exec S (Unit {0})
  unfolding job_action_at
  job_action operation label id = job_action_at h p.client operation label p.uri id

  unfoldable pub cancel_job : JobId → Exec S (Unit {0})
  unfolding job_action
  cancel_job = job_action cancel_code "Cancel-Job"

  unfoldable pub hold_job : JobId → Exec S (Unit {0})
  unfolding job_action
  hold_job = job_action hold_code "Hold-Job"

  unfoldable pub release_job : JobId → Exec S (Unit {0})
  unfolding job_action
  release_job = job_action release_code "Release-Job"

  unfoldable pub restart_job : JobId → Exec S (Unit {0})
  unfolding job_action
  restart_job = job_action restart_code "Restart-Job"

  unfoldable pub purge_jobs : Exec S (Unit {0})
  unfolding purge_jobs_at
  purge_jobs = purge_jobs_at h p.client p.uri

  unfoldable pub validate : String → Exec S (Unit {0})
  unfolding validate_job_at
  validate = validate_job_at h p.client p.uri

  unfoldable pub identify : IdentifyAction → Exec S (Unit {0})
  unfolding identify_printer_at
  identify = identify_printer_at h p.client p.uri

  unfoldable pub printer_action : Operation → String → Exec S (Unit {0})
  unfolding run printer_action_request
  printer_action operation label =
      run h p.client (printer_action_request h p.client operation p.uri) label

  unfoldable pub pause : Exec S (Unit {0})
  unfolding printer_action
  pause = printer_action pause_printer "Pause-Printer"

  unfoldable pub resume : Exec S (Unit {0})
  unfolding printer_action
  resume = printer_action resume_printer "Resume-Printer"

  -- `self.raw_request(opcode)`
  abbrev raw : ℕ → Exec S Request
  raw opcode = lift (raw_request h p.client p.uri opcode)

  unfoldable pub raw_action : ℕ → String → Exec S (Unit {0})
  unfolding run raw_request
  raw_action opcode label = run h p.client (raw_request h p.client p.uri opcode) label

  unfoldable pub disable : Exec S (Unit {0})
  unfolding raw_action
  disable = raw_action disable_printer "Disable-Printer"

  unfoldable pub enable : Exec S (Unit {0})
  unfolding raw_action
  enable = raw_action enable_printer "Enable-Printer"

  unfoldable pub hold_new_jobs : Exec S (Unit {0})
  unfolding raw_action
  hold_new_jobs = raw_action hold_new_jobs_code "Hold-New-Jobs"

  unfoldable pub release_held_new_jobs : Exec S (Unit {0})
  unfolding raw_action
  release_held_new_jobs = raw_action release_held_new_jobs_code "Release-Held-New-Jobs"

  unfoldable pub cancel_my_jobs : Exec S (Unit {0})
  unfolding raw_action
  cancel_my_jobs = raw_action cancel_my_jobs_code "Cancel-My-Jobs"

  unfoldable pub cancel_all_jobs : Exec S (Unit {0})
  unfolding raw_action
  cancel_all_jobs = raw_action cancel_jobs "Cancel-Jobs"

  unfoldable pub documents : JobId → Exec S (List Document)
  unfolding raw_request add_int send
  documents job = do
    request ← raw get_documents
    request ← lift (add_int h "job-id" job request)
    resp ← send h p.client request "Get-Documents"
    pure (decode_all resp document_attributes Document.decode)

  unfoldable pub validate_document : JobId → String → Exec S (Unit {0})
  unfolding raw_request add_int bounded put send
  validate_document job document_format = do
    request ← raw validate_document_code
    request ← lift (add_int h "job-id" job request)
    format ← lift (bounded h mime_bound "document-format" "value too long" document_format)
    request ← lift (put h operation_attributes "document-format" (mime_media_type format) request)
    send h p.client request "Validate-Document"
    pure tt

  unfoldable pub resubmit_job : JobId → Exec S JobId
  unfolding raw_request add_int send decode_job_id
  resubmit_job id = do
    request ← raw resubmit_job_code
    request ← lift (add_int h "job-id" id request)
    resp ← send h p.client request "Resubmit-Job"
    lift (decode_job_id resp)

  -- The loop over the attributes that the caller gives.
  unfoldable pub put_all : Tag → List (String × Value) → Request → Exec S Request
  unfolding put
  put_all tag [] request = pure request
  put_all tag ((name, value) ∷ rest) request = do
    next ← lift (put h tag name value request)
    put_all tag rest next

  unfoldable pub set_job_attributes : JobId → List (String × Value) → Exec S (Unit {0})
  unfolding raw_request add_int put_all send
  set_job_attributes id attributes = do
    request ← raw set_job_attributes_code
    request ← lift (add_int h "job-id" id request)
    request ← put_all job_attributes attributes request
    send h p.client request "Set-Job-Attributes"
    pure tt

  unfoldable pub set_attributes : List (String × Value) → Exec S (Unit {0})
  unfolding raw_request put_all send
  set_attributes attributes = do
    request ← raw set_printer_attributes
    request ← put_all printer_attributes attributes request
    send h p.client request "Set-Printer-Attributes"
    pure tt
