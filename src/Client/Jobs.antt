-- ===== src/Client/Jobs.antt =====
-- ipp-async/src/client.rs: what the client asks of a queue's jobs, and of a queue by its name.
pub mod Moved
use ipp_client.Prelude.{String, some}
use ipp_client.Ipp.{
  Uri, Operation, cancel_job as cancel_code, hold_job as hold_code, release_job as release_code,
  restart_job as restart_code, new_purge_jobs,
}
use ipp_client.Host.{Host}
use ipp_client.Session.{Exec, lift, ◌>>=◌}
use ipp_client.Model.Job.{JobId}
use ipp_client.Client.{Client, printer_uri}
use ipp_client.Client.Requests.{
  IdentifyAction, start, job_action_request, move_job_request, identify_printer_request,
  validate_job_request,
}
use ipp_client.Client.Transfer.{run}

module _ {S : Type 0} (h : Host S) (c : Client) where
  -- Against a queue identified by its URI.
  unfoldable pub job_action_at : Operation → String → Uri → JobId → Exec S (Unit {0})
  unfolding run job_action_request
  job_action_at operation label uri id = run h c (job_action_request h c operation uri id) label

  unfoldable pub job_action : Operation → String → String → JobId → Exec S (Unit {0})
  unfolding printer_uri job_action_at
  job_action operation label printer id = do
    uri ← lift (printer_uri h c printer)
    job_action_at operation label uri id

  unfoldable pub cancel_job : String → JobId → Exec S (Unit {0})
  unfolding job_action
  cancel_job = job_action cancel_code "Cancel-Job"

  unfoldable pub hold_job : String → JobId → Exec S (Unit {0})
  unfolding job_action
  hold_job = job_action hold_code "Hold-Job"

  unfoldable pub release_job : String → JobId → Exec S (Unit {0})
  unfolding job_action
  release_job = job_action release_code "Release-Job"

  unfoldable pub restart_job : String → JobId → Exec S (Unit {0})
  unfolding job_action
  restart_job = job_action restart_code "Restart-Job"

  unfoldable pub move_job : String → JobId → String → Exec S (Unit {0})
  unfolding run move_job_request
  move_job printer id destination =
      run h c (move_job_request h c printer id destination) "CUPS-Move-Job"

  unfoldable pub purge_jobs_at : Uri → Exec S (Unit {0})
  unfolding run start
  purge_jobs_at uri = run h c (start h (new_purge_jobs uri (some c.user))) "Purge-Jobs"

  unfoldable pub purge_jobs : String → Exec S (Unit {0})
  unfolding printer_uri purge_jobs_at
  purge_jobs printer = do uri ← lift (printer_uri h c printer); purge_jobs_at uri

  unfoldable pub identify_printer_at : Uri → IdentifyAction → Exec S (Unit {0})
  unfolding run identify_printer_request
  identify_printer_at uri action =
      run h c (identify_printer_request h c uri action) "Identify-Printer"

  unfoldable pub identify_printer : String → IdentifyAction → Exec S (Unit {0})
  unfolding printer_uri identify_printer_at
  identify_printer printer action = do
    uri ← lift (printer_uri h c printer)
    identify_printer_at uri action

  unfoldable pub validate_job_at : Uri → String → Exec S (Unit {0})
  unfolding run validate_job_request
  validate_job_at uri document_format =
      run h c (validate_job_request h c uri document_format) "Validate-Job"

  unfoldable pub validate_job : String → String → Exec S (Unit {0})
  unfolding printer_uri validate_job_at
  validate_job printer document_format = do
    uri ← lift (printer_uri h c printer)
    validate_job_at uri document_format
