-- ===== src/Client/Print/Accepted.antt =====
-- What becomes of a file whose job the server has created (ipp-async/src/client.rs).
use ipp_client.Prelude.{ℕ, String, Option, ◌≡◌, refl, ap, true, none, some, inl, inr}
use ipp_client.Ipp.{
  Uri, cancel_job, reader, new_request, name_bound, integer, name_without_language, new_create_job,
  new_send_document, Request, Response,
}
use ipp_client.Errors.{Result, ok, err, Result-cases}
use ipp_client.Host.{Host, done}
use ipp_client.Session.{Session}
use ipp_client.Model.Job.{JobId}
use ipp_client.Client.{Client, printer_uri}
use ipp_client.Client.Requests.{job_action_request}
use ipp_client.Client.Requests.Laws.{job_action_request-builds}
use ipp_client.Client.Transfer.{send, run, decode_job_id}
use ipp_client.Client.Transfer.Laws.{send_lem, outcome_of}
use ipp_client.Client.Transfer.Gives.{start-takes}
use ipp_client.Client.Jobs.{job_action_at}
use ipp_client.Client.Print.{
  auto_type, job_name_of, finish, print_stream_at, print_stream, open_file, print_file,
}
use ipp_client.Client.Print.Laws.{behind, create_request, document_request, cancel_request}

module _ {S : Type 0} (h : Host S) (c : Client) where
  send-behind :
      (r : Request) (label : String) (s : Session S)
      → send h c r label s ≡ (outcome_of h c (h.send c.inner r s.server).0 label, behind h c r s)
  send-behind r label s = send_lem h c r label s

  run-behind :
      (request : Result Request) (r : Request) (label : String) (s : Session S)
      → request ≡ ok r
      → (run h c request label s).1 ≡ behind h c r s
  unfolding run
  run-behind request r label s e =
      let left = ap (λ x. x.1) (send-behind r label s) in
      rw e (elim (Result-cases (send h c r label s).0) [
        | inl (x, p) ↦ rw p left
        | inr (x, p) ↦ rw p left
      ])

  module _ (uri : Uri) (document : ℕ) (format : Option String) (name : String) (job : JobId) where
    abbrev pub create : Request
    create = create_request h c uri document format name

    abbrev pub handed : Request
    handed = document_request h c uri document format name job

    abbrev cancelling : Request
    cancelling = cancel_request h c uri document format name job

    -- The end of a submission: the job, or the error of the document, behind the cancelling.
    abbrev pub concluded : Result Response → Session S → Result JobId × Session S
    concluded (ok resp) s = (ok job, s)
    concluded (err e) s = (err e, behind h c cancelling s)

    finish-concluded :
        (r : Result Response) (s : Session S)
        → job_action_request h c cancel_job uri job ≡ ok cancelling
        → finish h c uri job r s ≡ concluded r s
    unfolding finish job_action_at
    finish-concluded (ok resp) s built = refl
    finish-concluded (err e) s built =
        ap (λ s. (err e, s)) (run-behind _ cancelling "Cancel-Job" s built)

    -- What the server makes of Create-Job and of the document, in turn.
    abbrev pub document_outcome : Session S → Result Response
    document_outcome s =
        outcome_of h c (h.send c.inner handed (behind h c create s).server).0 "Send-Document"

    -- The crate takes the three requests of a submission.
    pub record Takes : Type 0 where
      pub creates : h.build_error (new_create_job uri (some name)) ≡ none
      pub hands :
          h.build_error (new_send_document uri job (reader document) (some c.user) format true)
          ≡ none
      pub cancels : h.build_error (new_request cancel_job (some uri)) ≡ none
      pub user : h.fits name_bound c.user ≡ true
      pub job_attribute : h.attribute_error "job-id" (integer job) ≡ none
      pub user_attribute :
          h.attribute_error "requesting-user-name" (name_without_language c.user) ≡ none

    print_stream_at-accepted :
        (s : Session S) (created : Response)
        → Takes
        → (h.send c.inner create s.server).0 ≡ done created
        → h.is_success created.status ≡ true
        → decode_job_id created ≡ ok job
        → print_stream_at h c uri document format name s
          ≡ concluded (document_outcome s) (behind h c handed (behind h c create s))
    unfolding print_stream_at
    print_stream_at-accepted s created takes answered success known =
        let begun = start-takes h _ takes.creates in
        let begun_document = start-takes h _ takes.hands in
        let first = send-behind create "Create-Job" s in
        let second = send-behind handed "Send-Document" (behind h c create s) in
        let cancel =
          job_action_request-builds h c cancel_job uri job takes.cancels takes.user
            takes.job_attribute takes.user_attribute in
        rw (begun, first, answered, success, known, begun_document, second)
          (finish-concluded (document_outcome s) (behind h c handed (behind h c create s)) cancel)

  -- If a file can be opened, the printer's name makes a URI, the crate takes the three requests of
  -- a submission, and the server accepts Create-Job with the id of a job, then the document is
  -- handed over for that job, and its outcome decides: if the server accepts it, printing succeeds
  -- with that job, and nothing else is sent; else printing fails with the error of the document,
  -- and Cancel-Job for that job is sent, whatever becomes of that. The cached default stays.
  pub print_file-accepted :
      (printer path : String) (s : Session S) (file : ℕ) (uri : Uri) (job : JobId)
      (created : Response)
      → h.open_file s.server path ≡ done file
      → printer_uri h c printer ≡ ok uri
      → Takes uri file (some auto_type) (job_name_of h c path) job
      → (h.send c.inner (create uri file (some auto_type) (job_name_of h c path) job) s.server).0
        ≡ done created
      → h.is_success created.status ≡ true
      → decode_job_id created ≡ ok job
      → print_file h c printer path s
        ≡ concluded uri file
            (some auto_type)
            (job_name_of h c path)
            job
            (document_outcome uri file (some auto_type) (job_name_of h c path) job s)
            (behind h c
              (handed uri file (some auto_type) (job_name_of h c path) job)
              (behind h c (create uri file (some auto_type) (job_name_of h c path) job) s))
  unfolding print_file open_file print_stream
  print_file-accepted printer path s file uri job created opened named takes answered success
        known =
      rw (opened, named)
        (print_stream_at-accepted uri file (some auto_type) (job_name_of h c path) job s created
          takes answered success known)
