-- ===== src/Client/Jobs/Moved.antt =====
-- Moving a job from one queue to another (ipp-async/src/client.rs).
use ipp_client.Prelude.{String, ◌≡◌, ap, ◌∙◌, true, none, some, [], ◌∷◌, ◌++◌}
use ipp_client.Ipp.{
  job_attributes, Value, integer, name_without_language, name_bound, uri_bound, Uri, cups_move_job,
  new_request, Request,
}
use ipp_client.Errors.{ok, ◌>>=◌ as ◌>>==◌}
use ipp_client.Host.{Host}
use ipp_client.Session.{Session, continue, lift}
use ipp_client.Model.Job.{JobId}
use ipp_client.Client.{Client, printer_uri}
use ipp_client.Client.Requests.{move_job_request}
use ipp_client.Client.Requests.Laws.{user_attribute, int_attribute, job_action_request-builds}
use ipp_client.Client.Transfer.{run}
use ipp_client.Client.Transfer.Laws.{outcome_of, send_lem}
use ipp_client.Client.Transfer.Gives.{bounded-takes, put-takes, continue-lift}
use ipp_client.Client.Jobs.{move_job}

-- The request names the job and the user, and the queue that the job is to go to, and is addressed
-- to the queue that has it.
abbrev pub moving : Client → Uri → JobId → Uri → Request
moving c from id to = record {
  builder = new_request cups_move_job (some from);
  opcode = none;
  attributes =
      int_attribute "job-id" id
      ∷ user_attribute c
      ∷ (job_attributes, record { name = "job-printer-uri"; value = Value.uri to.text })
      ∷ [];
}

module _ {S : Type 0} (h : Host S) (c : Client) where
  -- The crate takes the request.
  pub record Takes (from : Uri) (id : JobId) (to : Uri) : Type 0 where
    pub builder : h.build_error (new_request cups_move_job (some from)) ≡ none
    pub user : h.fits name_bound c.user ≡ true
    pub target : h.fits uri_bound to.text ≡ true
    pub id_attribute : h.attribute_error "job-id" (integer id) ≡ none
    pub user_attribute :
        h.attribute_error "requesting-user-name" (name_without_language c.user) ≡ none
    pub target_attribute : h.attribute_error "job-printer-uri" (Value.uri to.text) ≡ none

  move_job_request-builds :
      (printer destination : String) (from to : Uri) (id : JobId)
      → printer_uri h c printer ≡ ok from
      → printer_uri h c destination ≡ ok to
      → Takes from id to
      → move_job_request h c printer id destination ≡ ok (moving c from id to)
  unfolding move_job_request
  move_job_request-builds printer destination from to id source target takes =
      let begun =
        job_action_request-builds h c cups_move_job from id takes.builder takes.user
          takes.id_attribute takes.user_attribute in
      let bounded =
        bounded-takes h uri_bound "job-printer-uri" "uri too long" to.text takes.target in
      let added =
        put-takes h job_attributes "job-printer-uri" (Value.uri to.text)
          (record {
            builder = new_request cups_move_job (some from);
            opcode = none;
            attributes = int_attribute "job-id" id ∷ user_attribute c ∷ [];
          })
          takes.target_attribute in
      rw (source, begun, target, bounded, added)

  -- If the names of both queues make URIs, and the crate takes the request, then a job is moved by
  -- one request, handed to the transport exactly once: it names the job and the user among the
  -- operation attributes and the destination's URI among the job attributes, and is addressed to
  -- the queue that has the job. Moving succeeds if the server accepts it, and else fails with the
  -- transport's error, or one with the operation's name and the status. The cached default stays.
  pub move_job-moved :
      (printer destination : String) (from to : Uri) (id : JobId) (s : Session S)
      → printer_uri h c printer ≡ ok from
      → printer_uri h c destination ≡ ok to
      → Takes from id to
      → move_job h c printer id destination s ≡ (
        outcome_of h c (h.send c.inner (moving c from id to) s.server).0 "CUPS-Move-Job"
            >>== λ resp. ok tt,
        record s {
          server = (h.send c.inner (moving c from id to) s.server).1;
          sent = s.sent ++ (moving c from id to ∷ []);
        },
      )
  unfolding move_job run
  move_job-moved printer destination from to id s source target takes =
      let built = move_job_request-builds printer destination from to id source target takes in
      rw built (
        ap (λ y. continue y.0 (λ resp. lift (ok tt)) y.1)
          (send_lem h c (moving c from id to) "CUPS-Move-Job" s)
        ∙ continue-lift h _ (λ resp. ok tt) _)
