-- ===== src/Client/Print/Async.antt =====
-- ipp-async/src/client.rs: submitting a document, step by step.
use ipp_client.Prelude.{ℕ, String, ◌≡◌, true, Option, some}
use ipp_client.Ipp.{Uri, cancel_job, reader, new_create_job, new_send_document, Response}
use ipp_client.Errors.{Result, ok, err}
use ipp_client.Host.{Host}
use ipp_client.Session.{Session}
use ipp_client.Future
use ipp_client.Future.{Future, ready, pure, attempt, ◌>>=◌, Runs, Runs->>=, Runs-attempt}
use ipp_client.Model.Job.{JobId}
use ipp_client.Client.{Client}
use ipp_client.Client.Requests.{start, job_action_request}
use ipp_client.Client.Transfer.{decode_job_id}
use ipp_client.Client.Transfer.Async.{send, run, send-Runs, run-Runs, lift-Runs}
use ipp_client.Client.Jobs
use ipp_client.Client.Print

module _ {S : Type 0} (h : Host S) (c : Client) where
  -- The match on the outcome of `Send-Document`.
  unfoldable pub finish : Uri → JobId → Result Response → Future JobId
  unfolding run
  finish cleanup_uri job (ok resp) = pure job
  finish cleanup_uri job (err e) = do
    cleanup ← attempt (run h c (job_action_request h c cancel_job cleanup_uri job) "Cancel-Job")
    ready (err e)

  unfoldable pub print_stream_at : Uri → ℕ → Option String → String → Future JobId
  unfolding send finish
  print_stream_at uri document document_format job_name = do
    create ← ready (start h (new_create_job uri (some job_name)))
    resp ← send h c create "Create-Job"
    job ← ready (decode_job_id resp)
    document ←
        ready
          (start h (new_send_document uri job (reader document) (some c.user) document_format true))
    sent ← attempt (send h c document "Send-Document")
    finish uri job sent

  finish-Runs :
      (uri : Uri) (job : JobId) (r : Result Response)
      → Runs h (finish uri job r) (Print.finish h c uri job r)
  unfolding finish Print.finish Jobs.job_action_at
  finish-Runs uri job (ok resp) = lift-Runs h c _
  finish-Runs uri job (err e) =
      Runs->>= h _ _ _ _ (Runs-attempt h _ _ (run-Runs h c _ "Cancel-Job")) λ _. lift-Runs h c _

  -- A submission that is awaited to its end with nothing between its steps is the submission that
  -- is described as one action.
  pub print_stream_at-Runs :
      (uri : Uri) (document : ℕ) (format : Option String) (name : String) (s : Session S)
      → Future.run h (print_stream_at uri document format name) s
        ≡ Print.print_stream_at h c uri document format name s
  unfolding print_stream_at Print.print_stream_at
  print_stream_at-Runs uri document format name = Runs->>= h _ _ _ _ (lift-Runs h c _) λ create.
      Runs->>= h _ _ _ _ (send-Runs h c create "Create-Job") λ resp.
        Runs->>= h _ _ _ _ (lift-Runs h c _) λ job. Runs->>= h _ _ _ _ (lift-Runs h c _) λ r.
          Runs->>= h _ _ _ _ (Runs-attempt h _ _ (send-Runs h c r "Send-Document"))
            λ sent. finish-Runs uri job sent
