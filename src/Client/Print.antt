-- ===== src/Client/Print.antt =====
-- ipp-async/src/client.rs: submitting documents.
pub mod Laws
pub mod Async
pub mod Dropped
pub mod Files
pub mod Accepted
use ipp_client.Prelude.{ℕ, String, true, Option, some, List, unwrap_or}
use ipp_client.Ipp.{
  Uri, cancel_job, bytes, reader, new_create_job, new_send_document, new_print_job, Response,
}
use ipp_client.Errors.{Result, ok, err, io_error}
use ipp_client.Host.{Host, Outcome, done, failed}
use ipp_client.Session.{Exec, pure, raise, lift, attempt, ◌>>=◌}
use ipp_client.Model.Job.{JobId}
use ipp_client.Client.{Client, printer_uri}
use ipp_client.Client.Requests.{start}
use ipp_client.Client.Transfer.{send, decode_job_id}
use ipp_client.Client.Jobs.{job_action_at}

abbrev pub auto_type : String
auto_type = "application/octet-stream"

module _ {S : Type 0} (h : Host S) (c : Client) where
  unfoldable pub print_bytes : String → List ℕ → String → String → Exec S JobId
  unfolding printer_uri start send decode_job_id
  print_bytes printer document document_format job_name = do
    uri ← lift (printer_uri h c printer)
    op ← lift (
        start h
          (new_print_job uri (bytes document) (some c.user) (some job_name) (some document_format)))
    resp ← send h c op "Print-Job"
    lift (decode_job_id resp)

  -- The match on the outcome of `Send-Document`. A failed clean-up is logged; the failure that is
  -- reported is that of the document.
  unfoldable pub finish : Uri → JobId → Result Response → Exec S JobId
  unfolding job_action_at
  finish cleanup_uri job (ok resp) = pure job
  finish cleanup_uri job (err e) = do
    cleanup ← attempt (job_action_at h c cancel_job "Cancel-Job" cleanup_uri job)
    raise e

  unfoldable pub print_stream_at : Uri → ℕ → Option String → String → Exec S JobId
  unfolding start send decode_job_id finish
  print_stream_at uri document document_format job_name = do
    create ← lift (start h (new_create_job uri (some job_name)))
    resp ← send h c create "Create-Job"
    job ← lift (decode_job_id resp)
    document ←
        lift
          (start h (new_send_document uri job (reader document) (some c.user) document_format true))
    sent ← attempt (send h c document "Send-Document")
    finish uri job sent

  unfoldable pub print_stream : String → ℕ → Option String → String → Exec S JobId
  unfolding printer_uri print_stream_at
  print_stream printer document document_format job_name = do
    uri ← lift (printer_uri h c printer)
    print_stream_at uri document document_format job_name

  abbrev opened : Outcome ℕ → Result ℕ
  opened (done file) = ok file
  opened (failed e) = err (io_error e)

  -- `File::open(path).await?`
  unfoldable pub open_file : String → Exec S ℕ
  open_file path s = (opened (h.open_file s.server path), s)

  abbrev pub job_name_of : String → String
  job_name_of path = unwrap_or (h.file_name path) "document"

  unfoldable pub print_file : String → String → Exec S JobId
  unfolding open_file print_stream
  print_file printer path = do
    file ← open_file path
    print_stream printer file (some auto_type) (job_name_of path)
