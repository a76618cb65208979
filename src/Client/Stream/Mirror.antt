-- ===== src/Client/Stream/Mirror.antt =====
-- What a snapshot shows of what the daemon reports (ipp-async/src/client.rs).
use ipp_client.Prelude.{
  String, ◌≡◌, refl, ap, ◌∙◌, sym, true, Option, none, some, List, [], ◌∷◌, ◌++◌, map, filter_map,
  push_option,
}
use ipp_client.Ipp.{
  printer_attributes, job_attributes, array, Uri, Group, new_get_printers, Request, Response, begin,
}
use ipp_client.Errors.{Result, ok, err}
use ipp_client.Host.{Host, done}
use ipp_client.Session.{Session, Exec, continue, ◌>>=◌, pure}
use ipp_client.Model.Printer
use ipp_client.Model.Printer.{Printer}
use ipp_client.Model.Job
use ipp_client.Model.Job.{Job}
use ipp_client.Subscription.{decode_all, to_option}
use ipp_client.Events.{Snapshot}
use ipp_client.Client.{Client, parse_or}
use ipp_client.Client.Requests.{printer_attribute_names, not_completed}
use ipp_client.Client.Transfer.{mark_default, decode_marked, decode_printers, decode_jobs}
use ipp_client.Client.Transfer.Gives.{Fit, Taken}
use ipp_client.Client.Default.{default_printer}
use ipp_client.Client.Default.Laws.{default_printer-cached}
use ipp_client.Client.Queries.{printers, jobs, snapshot}
use ipp_client.Client.Queries.Query.{
  for_jobs, keyword_values, keyword_texts, wanted, texts_of, attributes_of, builder_of,
  query_request,
}
use ipp_client.Client.Queries.Answered.{checked, request_attributes-takes, ask-decoded}
use ipp_client.Client.Stream.Queries.{listed}

-- The request for the printers.
abbrev pub printers_request : Request
printers_request = record {
  builder = new_get_printers;
  opcode = none;
  attributes = wanted printer_attribute_names ∷ [];
}

push-marked :
    (d : Option String) (r : Result Printer) (ps : List Printer)
    → push_option (decode_marked d r) (map (mark_default d) ps)
      ≡ map (mark_default d) (push_option (to_option r) ps)
push-marked d (ok p) ps = refl
push-marked d (err e) ps = refl

marked-groups :
    (d : Option String) (gs : List Group)
    → filter_map (λ g. decode_marked d (Printer.decode g)) gs
      ≡ map (mark_default d) (filter_map (λ g. to_option (Printer.decode g)) gs)
marked-groups d [] = refl
marked-groups d (g ∷ gs) =
    ap (push_option (decode_marked d (Printer.decode g))) (marked-groups d gs)
    ∙ push-marked d (Printer.decode g) (filter_map (λ g. to_option (Printer.decode g)) gs)

-- The printers of a response are those that can be decoded, each with its mark.
decode_printers-marked :
    (resp : Response) (d : Option String)
    → decode_printers resp d
      ≡ map (mark_default d) (decode_all resp printer_attributes Printer.decode)
unfolding decode_printers decode_all
decode_printers-marked resp d = marked-groups d (resp.groups_of printer_attributes)

module _ {S : Type 0} (h : Host S) (c : Client) where
  -- The crate takes the two requests of a snapshot, and the server answers both: these printers and
  -- these jobs are what can be decoded of the answers.
  pub record Reports (s : Session S) (ps : List Printer) (js : List Job) : Type 0 where
    pub root : Uri
    pub listing : Response
    pub active : Response
    pub base : parse_or h "bad CUPS uri" c.base ≡ ok root
    pub built : h.build_error (builder_of c (for_jobs not_completed) root) ≡ none
    pub fit : Fit h (keyword_texts printer_attribute_names)
    pub taken :
        h.attribute_error "requested-attributes" (array (keyword_values printer_attribute_names))
        ≡ none
    pub jobs_fit : Fit h (texts_of (for_jobs not_completed))
    pub jobs_taken : Taken h (attributes_of (for_jobs not_completed))
    pub answered :
        (h.send c.inner printers_request (default_printer h c s).1.server).0 ≡ done listing
    pub success : h.is_success listing.status ≡ true
    pub decoded : decode_all listing printer_attributes Printer.decode ≡ ps
    pub jobs_answered :
        (h.send c.inner
          (query_request c (for_jobs not_completed) root)
          (h.send c.inner printers_request (default_printer h c s).1.server).1).0
        ≡ done active
    pub jobs_success : h.is_success active.status ≡ true
    pub jobs_decoded : decode_all active job_attributes Job.decode ≡ js

  default_found :
      (s : Session S)
      → (d : Option String) × (default_printer h c s ≡ (ok d, (default_printer h c s).1))
        × ((default_printer h c s).1.cache ≡ some d)
  default_found s =
      let (d, t, e, k) = default_printer-cached h c s in
      (
        d,
        e ∙ ap (λ u. (ok d, u)) (sym (ap (λ x. x.1) e)),
        ap (λ (x : Result (Option String) × Session S). x.1.cache) e ∙ k,
      )

  -- The session behind the request for the printers.
  abbrev behind_printers : Session S → Session S
  behind_printers s =
      let t = (default_printer h c s).1 in
      record t {
        server = (h.send c.inner printers_request t.server).1;
        sent = t.sent ++ (printers_request ∷ []);
      }

  printers_told :
      (s : Session S) (ps : List Printer) (js : List Job) (d : Option String)
      → Reports s ps js
      → default_printer h c s ≡ (ok d, (default_printer h c s).1)
      → printers h c s ≡ (ok (map (mark_default d) ps), behind_printers s)
  unfolding printers
  printers_told s ps js d told found =
      let t = (default_printer h c s).1 in
      let asked =
        request_attributes-takes h c printer_attribute_names (begin new_get_printers) told.fit
          told.taken in
      let answer =
        checked h c "CUPS-Get-Printers" (λ resp. decode_printers resp d) printers_request t in
      let listing : listed h c d t ≡ (ok (map (mark_default d) ps), behind_printers s) =
        rw asked
          (answer ∙ rw (told.answered, told.success, decode_printers-marked, told.decoded)) in
      ap (λ x. continue x.0 (λ d. listed h c d) x.1) found ∙ listing

  -- The session behind the request for the jobs as well.
  abbrev behind_jobs : Uri → Session S → Session S
  behind_jobs root s =
      let t = behind_printers s in
      let request = query_request c (for_jobs not_completed) root in
      record t { server = (h.send c.inner request t.server).1; sent = t.sent ++ (request ∷ []) }

  jobs_told :
      (s : Session S) (ps : List Printer) (js : List Job) (told : Reports s ps js)
      → jobs h c not_completed (behind_printers s) ≡ (ok js, behind_jobs told.root s)
  unfolding decode_jobs
  jobs_told s ps js told =
      ask-decoded h c (for_jobs not_completed) told.root (behind_printers s) told.base told.built
        told.jobs_fit told.jobs_taken
      ∙ rw (told.jobs_answered, told.jobs_success, told.jobs_decoded)

  -- What a snapshot shows of what the server reports.
  abbrev pub mirrored : Option String → List Printer → List Job → Snapshot
  mirrored d ps js = record { printers = map (mark_default d) ps; jobs = js }

  abbrev with_printers : List Printer → Exec S Snapshot
  with_printers ps = do js ← jobs h c not_completed; pure (record { printers = ps; jobs = js })

  pub snapshot-mirrored :
      (s : Session S) (ps : List Printer) (js : List Job) (told : Reports s ps js)
      → (d : Option String) × (snapshot h c s ≡ (ok (mirrored d ps js), behind_jobs told.root s))
        × ((snapshot h c s).1.cache ≡ some d)
  unfolding snapshot
  snapshot-mirrored s ps js told =
      let (d, found, kept) = default_found s in
      let both : snapshot h c s ≡ (ok (mirrored d ps js), behind_jobs told.root s) =
        ap (λ x. continue x.0 with_printers x.1) (printers_told s ps js d told found)
        ∙ ap
            (λ y.
              continue y.0 (λ js. pure (record { printers = map (mark_default d) ps; jobs = js }))
                y.1)
            (jobs_told s ps js told) in
      (d, both, ap (λ (x : Result Snapshot × Session S). x.1.cache) both ∙ kept)
