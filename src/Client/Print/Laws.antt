-- ===== src/Client/Print/Laws.antt =====
-- Submitting a document by Create-Job and Send-Document (ipp-async/src/client.rs).
use mathlib.Core.List.{append_assoc, append-nil}
use ipp_client.Prelude.{
  ℕ, String, inl, inr, ◌≡◌, refl, subst, ap, ◌∙◌, sym, true, Option, none, some, List, [], ◌∷◌,
  ◌++◌,
}
use ipp_client.Ipp.{
  Uri, cancel_job, reader, new_request, new_create_job, new_send_document, Request, Response, begin,
}
use ipp_client.Errors.{Error, Result, ok, err, Result-cases, ◌>>=◌ as ◌>>==◌}
use ipp_client.Host.{Host}
use ipp_client.Session.{Session, Exec, continue, continue-cases, lift, attempt, ◌>>=◌}
use ipp_client.Model.Job.{JobId}
use ipp_client.Client.{Client}
use ipp_client.Client.Requests.{start, job_action_request}
use ipp_client.Client.Requests.Laws.{
  start-eq-ok, job_action_request-eq-ok, int_attribute, user_attribute,
}
use ipp_client.Client.Transfer.{send, run, decode_job_id}
use ipp_client.Client.Transfer.Laws.{send_lem, outcome_of}
use ipp_client.Client.Jobs.{job_action_at}
use ipp_client.Client.Print.{finish, print_stream_at}

module _ {S : Type 0} (h : Host S) (c : Client) where
  pub send-sent :
      (r : Request) (label : String) (s : Session S)
      → (send h c r label s).1.sent ≡ s.sent ++ (r ∷ [])
  send-sent r label s = ap (λ (x : Result Response × Session S). x.1.sent) (send_lem h c r label s)

  pub run-sent :
      (request : Result Request) (r : Request) (label : String) (s : Session S)
      → request ≡ ok r
      → (run h c request label s).1.sent ≡ s.sent ++ (r ∷ [])
  unfolding run
  run-sent request r label s e = rw e (elim (Result-cases (send h c r label s).0) [
    | inl (x, p) ↦ rw p (send-sent r label s)
    | inr (x, p) ↦ rw p (send-sent r label s)
  ])

  pub run-unsent :
      (request : Result Request) (e : Error) (label : String) (s : Session S)
      → request ≡ err e
      → (run h c request label s).1 ≡ s
  unfolding run
  run-unsent request e label s p = rw p

  -- The session behind a request.
  abbrev pub behind : Request → Session S → Session S
  behind r s = record s { server = (h.send c.inner r s.server).1; sent = s.sent ++ (r ∷ []) }

  pub continue-bind :
      {A B D : Type 0} (x : Result A) (f : A → Result B) (next : B → Exec S D) (s : Session S)
      → continue x (λ a. lift (f a) >>= next) s ≡ continue (x >>== f) next s
  continue-bind (ok a) f next s = refl
  continue-bind (err e) f next s = refl

  module _ (uri : Uri) (document : ℕ) (format : Option String) (name : String) where
    abbrev pub create_request : Request
    create_request = begin (new_create_job uri (some name))

    abbrev pub document_request : JobId → Request
    document_request job =
        begin (new_send_document uri job (reader document) (some c.user) format true)

    abbrev pub cancel_request : JobId → Request
    cancel_request job = record {
      builder = new_request cancel_job (some uri);
      opcode = none;
      attributes = int_attribute "job-id" job ∷ user_attribute c ∷ [];
    }

    -- What the server makes of Create-Job, and then of the document for a job.
    abbrev pub created_by : Session S → Result JobId
    created_by s =
        outcome_of h c (h.send c.inner create_request s.server).0 "Create-Job" >>== decode_job_id

    abbrev pub handed_by : JobId → Session S → Result Response
    handed_by job s =
        outcome_of h c (h.send c.inner (document_request job) (behind create_request s).server).0
          "Send-Document"

    abbrev pub document_built : JobId → Result Request
    document_built job =
        start h (new_send_document uri job (reader document) (some c.user) format true)

    -- The outcomes of a submission, each with what the server made of it, or what could not be
    -- built, and with the requests that it sends.
    pub data Submission (s : Session S) : Result JobId → List Request → Type 0 where
      unsent :
          (e : Error) → start h (new_create_job uri (some name)) ≡ err e → Submission s (err e) []
      uncreated : (e : Error) → created_by s ≡ err e → Submission s (err e) (create_request ∷ [])
      orphaned :
          (e : Error) (job : JobId)
          → created_by s ≡ ok job
          → document_built job ≡ err e
          → Submission s (err e) (create_request ∷ [])
      printed :
          (job : JobId) (resp : Response)
          → created_by s ≡ ok job
          → handed_by job s ≡ ok resp
          → Submission s (ok job) (create_request ∷ document_request job ∷ [])
      cancelled :
          (e : Error) (job : JobId)
          → created_by s ≡ ok job
          → handed_by job s ≡ err e
          → job_action_request h c cancel_job uri job ≡ ok (cancel_request job)
          → Submission s (err e) (create_request ∷ document_request job ∷ cancel_request job ∷ [])
      uncancelled :
          (e x : Error) (job : JobId)
          → created_by s ≡ ok job
          → handed_by job s ≡ err e
          → job_action_request h c cancel_job uri job ≡ err x
          → Submission s (err e) (create_request ∷ document_request job ∷ [])

    abbrev pub Submitted : Session S → Result JobId × Session S → Type 0
    Submitted s x = (t : List Request) × (x.1.sent ≡ s.sent ++ t) × Submission s x.0 t

    finish-Submitted :
        (s u : Session S) (job : JobId) (r : Result Response)
        → u.sent ≡ s.sent ++ (create_request ∷ document_request job ∷ [])
        → created_by s ≡ ok job
        → handed_by job s ≡ r
        → Submitted s (finish h c uri job r u)
    unfolding finish job_action_at
    finish-Submitted s u job (ok resp) p created handed = (_, p, printed job resp created handed)
    finish-Submitted s u job (err e) p created handed =
        elim (Result-cases (job_action_request h c cancel_job uri job)) [
          | inl (x, q) ↦ (
            _,
            ap (λ (v : Session S). v.sent) (run-unsent _ x "Cancel-Job" u q) ∙ p,
            uncancelled e x job created handed q,
          )
          | inr (r, q) ↦
              let built = q ∙ ap ok (job_action_request-eq-ok h c cancel_job uri job r q) in
              (
                _,
                run-sent _ (cancel_request job) "Cancel-Job" u built
                    ∙ ap (λ t. t ++ (cancel_request job ∷ [])) p
                    ∙ append_assoc s.sent _ _,
                cancelled e job created handed built,
              )
        ]

    -- What follows the creation of a job.
    abbrev handing : JobId → Exec S JobId
    handing job = do
      document ← lift (document_built job)
      sent ← attempt (send h c document "Send-Document")
      finish h c uri job sent

    handing-Submitted :
        (s : Session S) (job : JobId)
        → created_by s ≡ ok job
        → Submitted s (handing job (behind create_request s))
    handing-Submitted s job created =
        let t = behind create_request s in
        continue-cases (Submitted s) (document_built job) _ t
          (λ e q. (_, refl, orphaned e job created q))
          λ r q.
            let known = start-eq-ok h _ r q in
            let told = send_lem h c r "Send-Document" t in
            finish-Submitted s (send h c r "Send-Document" t).1 job (send h c r "Send-Document" t).0
              (ap (λ (x : Result Response × Session S). x.1.sent) told
                ∙ ap (λ q. t.sent ++ (q ∷ [])) known
                ∙ append_assoc s.sent (create_request ∷ []) (document_request job ∷ []))
              created
              (sym (
                ap (λ x. x.0) told
                ∙ ap (λ q. outcome_of h c (h.send c.inner q t.server).0 "Send-Document") known))

    created-handing :
        (s : Session S) (create : Request)
        → start h (new_create_job uri (some name)) ≡ ok create
        → print_stream_at h c uri document format name s
          ≡ continue (created_by s) handing (behind create_request s)
    unfolding print_stream_at
    created-handing s create p =
        let known = p ∙ ap ok (start-eq-ok h _ create p) in
        rw (known, send_lem h c create_request "Create-Job" s)
          (continue-bind (outcome_of h c (h.send c.inner create_request s.server).0 "Create-Job")
            decode_job_id handing (behind create_request s))

    -- Whatever the server answers, a submission sends Create-Job; if the server creates a job,
    -- then its document; and if the server takes this, no more, and the result is the job. If
    -- Create-Job fails, the error is that of its answer. If sending the document fails, Cancel-Job
    -- for that job follows, unless that request cannot be built, and the error is that of the
    -- document. If the request for the document cannot be built, the job that was created is not
    -- cancelled; and nothing is sent, if Create-Job cannot be built. The error is then that of
    -- building it.
    pub print_stream_at-Submitted :
        (s : Session S) → Submitted s (print_stream_at h c uri document format name s)
    unfolding print_stream_at
    print_stream_at-Submitted s = elim (Result-cases (start h (new_create_job uri (some name)))) [
      | inl (e, p) ↦ rw p ([], sym (append-nil s.sent), unsent e p)
      | inr (create, p) ↦ subst (Submitted s) (sym (created-handing s create p)) (
          continue-cases (Submitted s) (created_by s) handing (behind create_request s)
            (λ e q. (_, refl, uncreated e q)) (λ job q. handing-Submitted s job q))
    ]
