-- ===== src/Client/OpenJob/Life.antt =====
-- The whole life of an `IppJob` (ipp-async/src/client.rs): it is created, documents are added, and
-- it is closed.
use ipp_client.Prelude.{String, ◌≡◌, Bool, true, false, some, List, [], ◌∷◌, ◌++◌, filter_map}
use ipp_client.Ipp.{cancel_job, reader, new_create_job, new_send_document, Request, Response, begin}
use ipp_client.Errors.{Error, Result, ok, err, ◌>>=◌ as ◌>>==◌}
use ipp_client.Host.{Host}
use ipp_client.Session.{Session}
use ipp_client.Model.Job.{JobId}
use ipp_client.Subscription.{to_option}
use ipp_client.Client.{IppPrinter}
use ipp_client.Client.Requests.{start, job_action_request}
use ipp_client.Client.Transfer.{send, decode_job_id}
use ipp_client.Client.Transfer.Laws.{outcome_of}
use ipp_client.Client.Print.Laws.{behind}
use ipp_client.Client.OpenJob.{IppJob, create_job, close}
use ipp_client.Client.OpenJob.Laws.{Document, add_all, closing_request}

module _ {S : Type 0} (h : Host S) where
  -- The request for a document, if it can be built.
  abbrev document_request : IppPrinter → JobId → Document → Result Request
  document_request p id (document, format, last) =
      start h (new_send_document p.uri id (reader document) (some p.client.user) format last)

  abbrev pub document_requests : IppPrinter → JobId → List Document → List Request
  document_requests p id = filter_map (λ d. to_option (document_request p id d))

  abbrev job_of : IppPrinter → JobId → IppJob
  job_of p id = record { printer = p; id = id; closed = false }

  abbrev closed_by : IppPrinter → JobId → Session S → Result Response
  closed_by p id u =
      outcome_of h p.client (h.send p.client.inner (closing_request h (job_of p id)) u.server).0
        "Close-Job"

  -- How closing a job in a session ends, by whether it is closed: with what the server made of it,
  -- or what could not be built, and the requests that it sends.
  pub data Ending (p : IppPrinter) (id : JobId) (u : Session S)
      : Bool → Result JobId → List Request → Type 0 where
    known : Ending p id u true (ok id) []
    unbuilt :
        (e : Error)
        → job_action_request h p.client cancel_job p.uri id ≡ err e
        → Ending p id u false (err e) []
    told :
        (resp : Response)
        → closed_by p id u ≡ ok resp
        → Ending p id u false (ok id) (closing_request h (job_of p id) ∷ [])
    refused :
        (e : Error)
        → closed_by p id u ≡ err e
        → Ending p id u false (err e) (closing_request h (job_of p id) ∷ [])

  abbrev Ends : IppJob → Session S → Bool → Result JobId × Session S → Type 0
  Ends j s closed x =
      (l : List Request) × (x.1.sent ≡ s.sent ++ l) × Ending j.printer j.id s closed x.0 l

  module _ (p : IppPrinter) (name : String) where
    -- The documents are added to the job that was created, and it is closed.
    abbrev add_and_close : List Document → Result IppJob × Session S → Result JobId × Session S
    add_and_close ds (err e, s) = (err e, s)
    add_and_close ds (ok j, s) = let ((ended, k), t) = add_all h j ds s in close h k t

    unfoldable pub submit_all : List Document → Session S → Result JobId × Session S
    unfolding create_job
    submit_all ds s = add_and_close ds (create_job h p name s)

    abbrev create_request : Request
    create_request = begin (new_create_job p.uri (some name))

    -- What the server makes of Create-Job.
    abbrev created_by : Session S → Result JobId
    created_by s =
        outcome_of h p.client (h.send p.client.inner create_request s.server).0 "Create-Job"
        >>== decode_job_id

    -- The documents added to a job of this id, behind Create-Job.
    abbrev added : JobId → List Document → Session S → (Bool × IppJob) × Session S
    added id ds s = add_all h (job_of p id) ds (behind h p.client create_request s)

    -- How a submission of these documents may end, with what the server made of it, or what could
    -- not be built, and the requests that it has sent.
    pub data Life (ds : List Document) (s : Session S) : Result JobId → List Request → Type 0 where
      unsent :
          (e : Error) → start h (new_create_job p.uri (some name)) ≡ err e → Life ds s (err e) []
      uncreated : (e : Error) → created_by s ≡ err e → Life ds s (err e) (create_request ∷ [])
      created :
          (id : JobId) {r : Result JobId} {l : List Request}
          → created_by s ≡ ok id
          → Ending p id (added id ds s).1 (added id ds s).0.0 r l
          → Life ds s r (create_request ∷ (document_requests p id ds ++ l))

    abbrev pub Lives : List Document → Session S → Result JobId × Session S → Type 0
    Lives ds s x = (l : List Request) × (x.1.sent ≡ s.sent ++ l) × Life ds s x.0 l
