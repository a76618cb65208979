-- ===== src/Client/Queries/Answered.antt =====
-- That each query asks for what it is to ask for, and reads the answer (ipp-async/src/client.rs).
use ipp_client.Prelude.{String, ◌≡◌, refl, Bool-cases, inl, inr, none, some, List, [], ◌∷◌, ◌++◌}
use ipp_client.Ipp.{
  operation_attributes, keyword, array, text_without_language, keyword_bound, text_bound, Uri,
  cups_get_classes, cups_get_ppds, new_request, new_get_jobs, new_get_job_attributes, Request,
  Response, begin,
}
use ipp_client.Errors.{ok, ◌>>=◌ as ◌>>==◌}
use ipp_client.Host.{Host, Outcome, done, failed}
use ipp_client.Session.{Session, pure, lift, continue, ◌>>=◌, ◌>>◌}
use ipp_client.Client.{Client}
use ipp_client.Client.Requests.{
  as_attribute, as_keyword, keywords, request_attributes, job_attribute_names, jobs_request,
  job_request,
}
use ipp_client.Client.Transfer.{transmit, received, send, check_status}
use ipp_client.Client.Transfer.Laws.{outcome_of}
use ipp_client.Client.Transfer.Gives.{
  Gives, Gives-send, Fit, Taken, start-takes, bounded-takes, put-takes,
}
use ipp_client.Client.Queries.{
  class_attribute_names, ppd_attribute_names, classes, add_filter, ppds, jobs, attributes_at,
  printer_at, printer, first_printer,
}
use ipp_client.Client.Queries.Laws.{job_lem}
use ipp_client.Client.Queries.Query.{
  Query, for_classes, for_ppds, for_jobs, for_job, for_printer_at, for_printer, keyword_values,
  named, wanted, builder_of, attributes_of, query_request, keyword_texts, texts_of, ask, Target,
  reading,
}

module _ {S : Type 0} (h : Host S) (c : Client) where
  keywords-takes :
      (detail : String) (names : List String)
      → Fit h (keyword_texts names)
      → keywords h detail names ≡ ok (keyword_values names)
  unfolding keywords
  keywords-takes detail [] fit = refl
  keywords-takes detail (name ∷ names) (fits, fit) =
      let first = bounded-takes h keyword_bound name detail name fits in
      simp (first, keywords-takes detail names fit)

  pub request_attributes-takes :
      (names : List String) (r : Request)
      → Fit h (keyword_texts names)
      → h.attribute_error "requested-attributes" (array (keyword_values names)) ≡ none
      → request_attributes h names r
        ≡ ok (record r { attributes = r.attributes ++ (wanted names ∷ []) })
  unfolding request_attributes
  request_attributes-takes names r fit taken =
      let known = keywords-takes "keyword too long" names fit in
      let added = put-takes h operation_attributes "requested-attributes" _ r taken in
      simp (known, added)

  -- Behind the request, the answer is checked and read.
  pub checked :
      {A : Type 0} (label : String) (value : Response → A) (r : Request) (s : Session S)
      → (transmit h c r >>= λ resp. lift (check_status h resp label) >> pure (value resp)) s ≡ (
        outcome_of h c (h.send c.inner r s.server).0 label >>== λ resp. ok (value resp),
        record s { server = (h.send c.inner r s.server).1; sent = s.sent ++ (r ∷ []) },
      )
  unfolding transmit check_status
  checked label value r s = settled (h.send c.inner r s.server).0 _
    where
      settled :
          (o : Outcome Response) (t : Session S)
          → continue
              (received h o)
              (λ resp. lift (check_status h resp label) >> pure (value resp))
              t
            ≡ (outcome_of h c o label >>== (λ resp. ok (value resp)), t)
      settled (failed e) t = refl
      settled (done resp) t = elim (Bool-cases (h.is_success resp.status)) [
        | inl y ↦ rw y refl
        | inr n ↦ rw n refl
      ]

  read_printer :
      (r : Request) (s : Session S)
      → (send h c r "Get-Printer-Attributes" >>= λ resp. lift (first_printer resp)) s ≡ (
        outcome_of h c (h.send c.inner r s.server).0 "Get-Printer-Attributes" >>== first_printer,
        record s { server = (h.send c.inner r s.server).1; sent = s.sent ++ (r ∷ []) },
      )
  unfolding Gives
  read_printer r s = Gives-send h c r "Get-Printer-Attributes" first_printer s

  -- A query whose request names this URI, if the crate takes the texts and the attributes of its
  -- request, hands that request to the transport exactly once, and leaves the cache. It gives what
  -- it reads from an answer of success; else the transport's error, or one with the name of the
  -- operation and the status of the answer. But a job that the server does not know is absent,
  -- without an error.
  pub ask-decoded :
      (q : Query) (uri : Uri) (s : Session S)
      → Target h c q uri
      → h.build_error (builder_of c q uri) ≡ none
      → Fit h (texts_of q)
      → Taken h (attributes_of q)
      → ask h c q s ≡ (
        reading h c q (h.send c.inner (query_request c q uri) s.server).0,
        record s {
          server = (h.send c.inner (query_request c q uri) s.server).1;
          sent = s.sent ++ (query_request c q uri ∷ []);
        },
      )
  unfolding classes ppds add_filter jobs jobs_request job_request printer_at printer attributes_at
  ask-decoded for_classes uri s target built fit (taken, none_left) =
      let started = start-takes h _ built in
      let begun = begin (new_request cups_get_classes none) in
      let asked = request_attributes-takes class_attribute_names begun fit taken in
      rw (started, asked) (checked "CUPS-Get-Classes" _ _ s)
  ask-decoded (for_ppds none) uri s target built fit (taken, none_left) =
      let started = start-takes h _ built in
      let begun = begin (new_request cups_get_ppds none) in
      let asked = request_attributes-takes ppd_attribute_names begun fit taken in
      rw (started, asked) (checked "CUPS-Get-PPDs" _ _ s)
  ask-decoded (for_ppds (some filter)) uri s target built (fits, fit) (takes, (taken, none_left)) =
      let (name, value) = as_attribute filter in
      let kept = named name (text_without_language value) in
      let begun = begin (new_request cups_get_ppds none) in
      let started = start-takes h _ built in
      let fitted = bounded-takes h text_bound name "filter value too long" value fits in
      let added = put-takes h operation_attributes name (text_without_language value) begun takes in
      let asked =
        request_attributes-takes ppd_attribute_names (record begun { attributes = kept ∷ [] }) fit
          taken in
      rw (started, fitted, added, asked) (checked "CUPS-Get-PPDs" _ _ s)
  ask-decoded (for_jobs which) uri s target built (fits, fit) (taken, (takes, (own, none_left))) =
      let begun = begin (new_get_jobs uri (some c.user)) in
      let chosen = named "which-jobs" (keyword (as_keyword which)) in
      let first = record begun { attributes = wanted job_attribute_names ∷ [] } in
      let second = record begun { attributes = wanted job_attribute_names ∷ chosen ∷ [] } in
      let started = start-takes h _ built in
      let asked = request_attributes-takes job_attribute_names begun fit taken in
      let fitted =
        bounded-takes h keyword_bound "which-jobs" "keyword too long" (as_keyword which) fits in
      let added = put-takes h operation_attributes "which-jobs" _ first takes in
      let mine = put-takes h operation_attributes "my-jobs" _ second own in
      rw (target, started, asked, fitted, added, mine) (checked "Get-Jobs" _ _ s)
  ask-decoded (for_job name id) uri s target built fit (taken, none_left) =
      let started = start-takes h _ built in
      let begun = begin (new_get_job_attributes uri id (some c.user)) in
      let asked = request_attributes-takes job_attribute_names begun fit taken in
      job_lem h c name id _ s (rw (target, started) asked)
  ask-decoded (for_printer_at text) uri s target built fit taken =
      let started = start-takes h _ built in rw (target, started) (read_printer _ s)
  ask-decoded (for_printer name) uri s (queue, known, target) built fit taken =
      let started = start-takes h _ built in rw (known, target, started) (read_printer _ s)
