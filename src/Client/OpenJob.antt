-- ===== src/Client/OpenJob.antt =====
-- ipp-async/src/client.rs: `IppJob`, a job that documents are added to one at a time.
pub mod Laws
pub mod Life
use ipp_client.Prelude.{ℕ, String, Bool, true, false, Option, some}
use ipp_client.Ipp.{cancel_job, reader, new_create_job, new_send_document, Request}
use ipp_client.Errors.{Result, ok, err}
use ipp_client.Host.{Host}
use ipp_client.Session.{Session, Exec, pure, lift, ◌>>=◌, ◌>>◌}
use ipp_client.Model.Job.{JobId}
use ipp_client.Client.{IppPrinter}
use ipp_client.Client.Opcodes.{close_job}
use ipp_client.Client.Requests.{start, job_action_request}
use ipp_client.Client.Transfer.{send, decode_job_id}
use ipp_client.Client.Printer

pub record IppJob : Type 0 where
  pub printer : IppPrinter
  pub id : JobId
  pub closed : Bool

module _ {S : Type 0} (h : Host S) where
  unfoldable pub create_job : IppPrinter → String → Exec S IppJob
  unfolding start send decode_job_id
  create_job p job_name = do
    op ← lift (start h (new_create_job p.uri (some job_name)))
    resp ← send h p.client op "Create-Job"
    id ← lift (decode_job_id resp)
    pure (record { printer = p; id = id; closed = false })

  -- `if last { self.closed = true; }`
  abbrev mark_last : Bool → IppJob → IppJob
  mark_last true j = record j { closed = true }
  mark_last false j = j

  -- The requests of `add_document`. A method that takes `&mut self` also gives the job back, as it
  -- is after the call: an error leaves it as it was.
  unfoldable pub send_document : IppJob → ℕ → Option String → Bool → Exec S (Unit {0})
  unfolding start send
  send_document j document document_format last = do
    op ← lift (
        start h (
          new_send_document j.printer.uri j.id (reader document) (some j.printer.client.user)
            document_format last))
    send h j.printer.client op "Send-Document"
    pure tt

  abbrev pub after_document : IppJob → Bool → Result (Unit {0}) → IppJob
  after_document j last (ok done) = mark_last last j
  after_document j last (err e) = j

  unfoldable pub add_document :
      IppJob → ℕ → Option String → Bool → Session S → (Result (Unit {0}) × IppJob) × Session S
  unfolding send_document
  add_document j document document_format last s =
      let (r, s') = send_document j document document_format last s in
      ((r, after_document j last r), s')

  unfoldable pub close_request : IppJob → Exec S JobId
  unfolding job_action_request send
  close_request j = do
    request ← lift (job_action_request h j.printer.client cancel_job j.printer.uri j.id)
    let closing : Request = record request { opcode = some close_job }
    send h j.printer.client closing "Close-Job"
    pure j.id

  unfoldable pub close : IppJob → Exec S JobId
  unfolding close_request
  close j = elim j.closed [ true ↦ pure j.id | false ↦ close_request j ]

  unfoldable pub cancel : IppJob → Exec S (Unit {0})
  unfolding Printer.cancel_job
  cancel j = Printer.cancel_job h j.printer j.id
