-- ===== src/Client/Queries/Laws.antt =====
-- What the client reads from the daemon (ipp-async/src/client.rs): jobs that are gone, and the
-- printers of a snapshot with their default.
use ipp_client.Prelude.{
  String, ◌≡◌, refl, ap, ◌∙◌, sym, ◌↔◌, inl, inr, true, Bool-cases, Option, none, some, List, [],
  ◌∷◌, ◌++◌, All, first, subst, if◌then◌else◌,
}
use ipp_client.Ipp.{new_get_printers, Request, Response, begin}
use ipp_client.Errors.{Result, ok, err, transport, ipp_error, ok-injective}
use ipp_client.Host.{Host, Outcome, done, failed}
use ipp_client.Session.{Session, lift, continue, >>=-eq-ok}
use ipp_client.Model.Printer.{Printer}
use ipp_client.Model.Job.{Job, JobId}
use ipp_client.Client.{Client}
use ipp_client.Client.Requests.{request_attributes, printer_attribute_names, job_request}
use ipp_client.Client.Transfer.{transmit, received, check_status, decode_printers, decode_jobs}
use ipp_client.Client.Transfer.Laws.{decode_printers-default}
use ipp_client.Client.Default.{default_printer}
use ipp_client.Client.Default.Laws.{default_printer-cached}
use ipp_client.Client.Queries.{printers, read_job, job}

module _ {S : Type 0} (h : Host S) (c : Client) where
  -- What an answer says of a job.
  abbrev pub job_of : Outcome Response → Result (Option Job)
  job_of (failed e) = err (transport e)
  job_of (done resp) =
      if h.is_not_found resp.status
      then ok none
      else if h.is_success resp.status
      then ok (first (decode_jobs resp))
      else err (ipp_error "Get-Job-Attributes" (h.status_text resp.status))

  read_job_lem : (resp : Response) (s : Session S) → read_job h c resp s ≡ (job_of (done resp), s)
  unfolding read_job check_status
  read_job_lem resp s = elim (Bool-cases (h.is_not_found resp.status)) [
    | inl t ↦ rw (read_job, t)
    | inr f ↦ elim (Bool-cases (h.is_success resp.status)) [
      | inl t ↦ rw (read_job, f, check_status, t)
      | inr g ↦ rw (read_job, f, check_status, g)
    ]
  ]

  answered_job :
      (answer : Outcome Response) (s : Session S)
      → continue (received h answer) (λ resp. read_job h c resp) s ≡ (job_of answer, s)
  answered_job (failed e) s = refl
  answered_job (done resp) s = read_job_lem resp s

  -- A job whose request can be built is asked for once. It is absent, without an error, if the
  -- server does not know it; any other answer without success is an error with its status, an
  -- answer with success gives the first job in it, and a failure of the transport is an error.
  pub job_lem :
      (printer : String) (id : JobId) (request : Request) (s : Session S)
      → job_request h c printer id ≡ ok request
      → job h c printer id s ≡ (
        job_of (h.send c.inner request s.server).0,
        record s { server = (h.send c.inner request s.server).1; sent = s.sent ++ (request ∷ []) },
      )
  unfolding job transmit
  job_lem printer id request s e = rw (job, e) (answered_job _ _)

  -- The marks of printers that are listed with success agree with the default that is then in the
  -- cache: a printer is marked if and only if its name is the default's.
  pub printers-default :
      (s t : Session S) (ps : List Printer)
      → printers h c s ≡ (ok ps, t)
      → (d : Option String) × (t.cache ≡ some d)
        × All (λ (p : Printer). (p.is_default ≡ true) ↔ (d ≡ some p.name)) ps
  unfolding printers transmit
  printers-default s t ps e =
      let (d, u, e1, k) = default_printer-cached h c s in
      let (d', u', e2, p2) = >>=-eq-ok (default_printer h c) _ e in
      let (q, w, e4, p4) =
        >>=-eq-ok (lift (request_attributes h printer_attribute_names (begin new_get_printers))) _
          p2 in
      let (resp, x, e5, p5) = >>=-eq-ok (transmit h c q) _ p4 in
      let (n, y, e6, p6) = >>=-eq-ok (lift (check_status h resp "CUPS-Get-Printers")) _ p5 in
      let chosen : d' ≡ d = ok-injective (ap (λ x. x.0) (sym e2 ∙ e1)) in
      let m1 : u' ≡ u = ap (λ x. x.1) (sym e2 ∙ e1) in
      let m3 : u' ≡ w = ap (λ x. x.1) e4 in
      let m4 : w.cache ≡ x.cache = ap (λ (z : Result Response × Session S). z.1.cache) e5 in
      let m5 : x ≡ y = ap (λ x. x.1) e6 in
      let m6 : y ≡ t = ap (λ x. x.1) p6 in
      let listed : decode_printers resp d' ≡ ps = ok-injective (ap (λ x. x.0) p6) in
      (
        d',
        cc (k, chosen, m1, m3, m4, m5, m6),
        subst (All (λ (p : Printer). (p.is_default ≡ true) ↔ (d' ≡ some p.name))) listed
            (decode_printers-default resp d'),
      )
