-- ===== src/Client/Print/Dropped.antt =====
-- What a submission has sent if its future is dropped on the way (ipp-async/src/client.rs).
use ipp_client.Prelude.{
  ℕ, String, ◌≡◌, refl, ap, ◌∙◌, sym, subst, inl, inr, true, Option, some, List, [], ◌∷◌,
  Bool-cases,
}
use ipp_client.Ipp.{Uri, cancel_job, reader, new_create_job, new_send_document, Request, Response}
use ipp_client.Errors.{Error, Result, ok, err, ◌>>=◌, Result-cases}
use ipp_client.Host.{Host, Outcome, done, failed}
use ipp_client.Future.{Future, follow, on_ok, ready, pure, attempt, ◌>>◌, follow-follow}
use ipp_client.Future.Pool.{Moment, handed}
use ipp_client.Model.Job.{JobId}
use ipp_client.Client.{Client}
use ipp_client.Client.Requests.{start, job_action_request}
use ipp_client.Client.Requests.Laws.{start-eq-ok, job_action_request-eq-ok}
use ipp_client.Client.Transfer.{received, check_status, decode_job_id}
use ipp_client.Client.Transfer.Async.{exchange, send, run}
use ipp_client.Client.Print.Laws.{create_request, document_request, cancel_request}
use ipp_client.Client.Print.Async.{finish, print_stream_at}

module _ {S : Type 0} (h : Host S) (c : Client) where
  -- What `send` makes of the server's answer.
  abbrev pub answered : String → Outcome Response → Result Response
  answered label answer =
      received h answer >>= λ resp. check_status h resp label >>= λ checked. ok resp

  -- The future that answers at once with what `send` makes of the answer.
  checked :
      {A : Type 0} (label : String) (o : Outcome Response) (next : Result Response → Future A)
      → follow (on_ok (λ resp. ready (check_status h resp label) >> pure resp) (received h o)) next
        ≡ next (answered label o)
  unfolding follow check_status
  checked label (failed e) next = refl
  checked label (done resp) next = elim (Bool-cases (h.is_success resp.status)) [
    | inl y ↦ rw (follow, y) refl
    | inr n ↦ rw (follow, n) refl
  ]

  handed-send :
      {A : Type 0} (request : Request) (label : String) (next : Result Response → Future A)
      (m : Moment) (ms : List Moment)
      → handed (m ∷ ms) (follow (send h c request label) next)
        ≡ request ∷ handed ms (next (answered label m.outside.heard))
  unfolding handed follow send exchange
  handed-send request label next m ms =
      ap (λ f. request ∷ handed ms f) (checked label m.outside.heard next)

  handed_done : {A : Type 0} (ms : List Moment) (r : Result A) → handed ms (ready r) ≡ []
  unfolding handed
  handed_done [] r = refl
  handed_done (m ∷ ms) r = refl

  -- What is sent after a result: nothing behind an error, and the rest behind a value.
  handed-on_ok :
      {A B : Type 0} (P : List Request → Type 0) (ms : List Moment) (r : Result A)
      (next : A → Future B)
      → ((e : Error) → r ≡ err e → P [])
      → ((a : A) → r ≡ ok a → P (handed ms (next a)))
      → P (handed ms (on_ok next r))
  handed-on_ok P ms (ok a) next failing following = following a refl
  handed-on_ok P ms (err e) next failing following =
      subst P (sym (handed_done ms (err e))) (failing e refl)

  -- A request whose outcome is looked at no further, at the end.
  handed_last :
      {A : Type 0} (request : Request) (label : String) (r : Result A) (m : Moment)
      (ms : List Moment)
      → handed (m ∷ ms) (
          follow
            (attempt (follow (send h c request label) (on_ok λ resp. pure tt)))
            (on_ok λ cleanup. ready r))
        ≡ request ∷ []
  unfolding follow
  handed_last request label r m ms =
      ap (handed (m ∷ ms)) (
        ap (λ f. follow f (on_ok λ cleanup. ready r)) (follow-follow (send h c request label) _ _)
        ∙ follow-follow (send h c request label) _ _)
      ∙ handed-send request label _ m ms
      ∙ ap (λ rest. request ∷ rest) (ended (answered label m.outside.heard))
    where
      ended :
          (x : Result Response)
          → handed ms
              (follow (follow (on_ok (λ resp. pure tt) x) λ y. pure y) (on_ok λ cleanup. ready r))
            ≡ []
      ended (ok resp) = handed_done ms r
      ended (err e) = handed_done ms r

  module _ (uri : Uri) (document : ℕ) (format : Option String) (name : String) where
    -- The job that the server says it has created.
    abbrev pub Created : Moment → JobId → Type 0
    Created m job =
        (resp : Response) × (answered "Create-Job" m.outside.heard ≡ ok resp)
        × (decode_job_id resp ≡ ok job)

    abbrev created_only : List Request
    created_only = create_request h c uri document format name ∷ []

    abbrev with_document : JobId → List Request → List Request
    with_document job rest =
        create_request h c uri document format name
        ∷ document_request h c uri document format name job
        ∷ rest

    -- What may have been sent in these steps.
    pub data Handed : List Moment → List Request → Type 0 where
      nothing : (ms : List Moment) → Handed ms []
      created : (m : Moment) (ms : List Moment) → Handed (m ∷ ms) created_only
      documented :
          (m n : Moment) (ms : List Moment) (job : JobId)
          → Created m job
          → Handed (m ∷ n ∷ ms) (with_document job [])
      cancelled :
          (m n o : Moment) (ms : List Moment) (job : JobId) (e : Error)
          → Created m job
          → answered "Send-Document" n.outside.heard ≡ err e
          → Handed
              (m ∷ n ∷ o ∷ ms)
              (with_document job (cancel_request h c uri document format name job ∷ []))

    finish-Handed :
        (m n : Moment) (ms : List Moment) (job : JobId)
        → Created m job
        → (r : Result Response) → answered "Send-Document" n.outside.heard ≡ r
        → Handed (m ∷ n ∷ ms) (with_document job (handed ms (finish h c uri job r)))
    unfolding handed finish follow run
    finish-Handed m n [] job made r e = documented m n [] job made
    finish-Handed m n (o ∷ ms) job made (ok resp) e = documented m n (o ∷ ms) job made
    finish-Handed m n (o ∷ ms) job made (err x) e =
        elim (Result-cases (job_action_request h c cancel_job uri job)) [
          | inl (y, p) ↦ rw (follow, p) (documented m n (o ∷ ms) job made)
          | inr (request, p) ↦
              subst (λ sent. Handed (m ∷ n ∷ o ∷ ms) (with_document job sent))
                (ap (λ r. r ∷ []) (sym (job_action_request-eq-ok h c cancel_job uri job request p))
                  ∙ sym (handed_last {A = JobId} request "Cancel-Job" (err x) o ms)
                  ∙ sym (rw (follow, p) refl))
                (cancelled m n o ms job x made e)
        ]

    document-Handed :
        (m : Moment) (ms : List Moment) (job : JobId)
        → Created m job
        → Handed (m ∷ ms) (
            create_request h c uri document format name
            ∷ handed ms (
                follow
                  (attempt
                    (send h c (document_request h c uri document format name job) "Send-Document"))
                  (on_ok λ sent. finish h c uri job sent)))
    unfolding handed follow
    document-Handed m [] job made = created m []
    document-Handed m (n ∷ ms) job made =
        subst (λ t. Handed (m ∷ n ∷ ms) (create_request h c uri document format name ∷ t))
          (sym (
            ap (handed (n ∷ ms)) (follow-follow (send h c request "Send-Document") _ _)
            ∙ handed-send request "Send-Document" _ n ms))
          (finish-Handed m n ms job made _ refl)
      where
        request : Request
        request = document_request h c uri document format name job

    -- A submission may be dropped at any step. What it has sent by then is an initial part of
    -- Create-Job, Send-Document for the job that the server said it had created, and Cancel-Job
    -- for that job; and Cancel-Job was sent only if Send-Document had failed.
    pub print_stream_at-Handed :
        (ms : List Moment) → Handed ms (handed ms (print_stream_at h c uri document format name))
    unfolding handed print_stream_at follow
    print_stream_at-Handed [] = nothing []
    print_stream_at-Handed (m ∷ ms) =
        handed-on_ok (Handed (m ∷ ms)) (m ∷ ms) (start h (new_create_job uri (some name))) _
          (λ e p. nothing (m ∷ ms))
          λ create p. subst (Handed (m ∷ ms)) (sym (handed-send create "Create-Job" _ m ms)) (
            renamed create _ (start-eq-ok h _ create p) (
              handed-on_ok sent ms (answered "Create-Job" m.outside.heard) _ (λ e q. created m ms)
                λ resp q.
                  handed-on_ok sent ms (decode_job_id resp) _ (λ e k. created m ms)
                    λ job k.
                      handed-on_ok sent ms
                        (start h
                          (new_send_document uri job (reader document) (some c.user) format true))
                        _ (λ e l. created m ms)
                        λ r l.
                          subst (λ d. sent (handed ms (documents job d)))
                            (sym (start-eq-ok h _ r l)) (document-Handed m ms job (resp, q, k))))
      where
        sent : List Request → Type 0
        sent t = Handed (m ∷ ms) (create_request h c uri document format name ∷ t)

        renamed :
            (r : Request) (t : List Request)
            → r ≡ create_request h c uri document format name
            → sent t
            → Handed (m ∷ ms) (r ∷ t)
        renamed r t e = subst (λ r. Handed (m ∷ ms) (r ∷ t)) (sym e)

        documents : JobId → Request → Future JobId
        documents job d =
            follow (attempt (send h c d "Send-Document")) (on_ok λ x. finish h c uri job x)
