-- ===== src/Client/Stream/Queries.antt =====
-- What `IppClient::events` asks of the daemon (ipp-async/src/client.rs), query by query.
use mathlib.Core.List.{map-append, append-nil, append_assoc}
use ipp_client.Prelude.{
  ℕ, String, ◌≡◌, refl, ap, ◌∙◌, sym, ◌⊎◌, inl, inr, Option, none, some, List, [], ◌∷◌, ◌++◌, map,
}
use ipp_client.Ipp.{
  Tag, operation_attributes, keyword_bound, keyword, Value, cups_get_default, Builder, new_request,
  new_get_printers, new_get_jobs, Request, Response, begin,
}
use ipp_client.Errors.{Result, ok, err, >>=-eq-ok}
use ipp_client.Host.{Host}
use ipp_client.Session.{Session, Exec, continue-cases, lift, pure, ◌>>=◌, ◌>>◌}
use ipp_client.Model.Printer.{Printer}
use ipp_client.Client.{Client, parse_or}
use ipp_client.Client.Requests.{
  start, put, keywords, bounded, request_attributes, jobs_request, WhichJobs, as_keyword,
  job_attribute_names, printer_attribute_names,
}
use ipp_client.Client.Requests.Laws.{start-eq-ok, put-eq-ok}
use ipp_client.Client.Transfer.{transmit, send, check_status, decode_printers, decode_jobs}
use ipp_client.Client.Transfer.Laws.{send_lem}
use ipp_client.Client.Default.{server_default, first_name}
use ipp_client.Client.Queries.{jobs}

-- The queries of a snapshot.
pub data Query : Type 0 where
  get_default get_printers get_jobs : Query

-- By the constructor of a request whose operation is not written over.
abbrev begun_as : Builder → Option ℕ → Option Query
begun_as (new_request cups_get_default none) none = some get_default
begun_as new_get_printers none = some get_printers
begun_as (new_get_jobs root user) none = some get_jobs
begun_as _ _ = none

abbrev pub query_of : Request → Option Query
query_of r = begun_as r.builder r.opcode

module _ {S : Type 0} where
  -- The history has grown by these queries, and by nothing else.
  abbrev pub Grows : Session S → Session S → List Query → Type 0
  Grows s t qs = map query_of t.sent ≡ map query_of s.sent ++ map some qs

  abbrev pub Asked : {A : Type 0} → Query → Result A → Session S → Session S → Type 0
  Asked q (ok a) s t = Grows s t (q ∷ [])
  Asked q (err e) s t = Grows s t [] ⊎ Grows s t (q ∷ [])

  pub Grows-nil : (s : Session S) → Grows s s []
  Grows-nil s = sym (append-nil (map query_of s.sent))

  pub Grows-trans :
      (s t u : Session S) (qs rs : List Query) → Grows s t qs → Grows t u rs → Grows s u (qs ++ rs)
  Grows-trans s t u qs rs first then =
      then
      ∙ ap (λ l. l ++ map some rs) first
      ∙ append_assoc (map query_of s.sent) (map some qs) (map some rs)
      ∙ ap (λ l. map query_of s.sent ++ l) (sym (map-append some qs rs))

  -- It sends this query and no other, and leaves the cache.
  unfoldable pub Asks : {A : Type 0} → Exec S A → Query → Type 0
  Asks action q =
      (s : Session S) → ((action s).1.cache ≡ s.cache) × Asked q (action s).0 s (action s).1

module _ {S : Type 0} (h : Host S) where
  put-query :
      (tag : Tag) (name : String) (value : Value) (r t : Request)
      → put h tag name value r ≡ ok t
      → query_of t ≡ query_of r
  put-query tag name value r t e = ap query_of (put-eq-ok h tag name value r t e)

  request_attributes-query :
      (names : List String) (r t : Request)
      → request_attributes h names r ≡ ok t
      → query_of t ≡ query_of r
  unfolding request_attributes
  request_attributes-query names r t e =
      let (wanted, e1, e2) = >>=-eq-ok (keywords h "keyword too long" names) _ e in
      put-query _ _ _ r t e2

  jobs_request-query :
      (c : Client) (which : WhichJobs) (t : Request)
      → jobs_request h c which ≡ ok t
      → query_of t ≡ some get_jobs
  unfolding jobs_request
  jobs_request-query c which t e =
      let (root, e0, e1) = >>=-eq-ok (parse_or h "bad CUPS uri" c.base) _ e in
      let (b, eb, e2) = >>=-eq-ok (start h (new_get_jobs root (some c.user))) _ e1 in
      let (r, er, e3) = >>=-eq-ok (request_attributes h job_attribute_names b) _ e2 in
      let (k, ek, e4) =
        >>=-eq-ok (bounded h keyword_bound "which-jobs" "keyword too long" (as_keyword which)) _
          e3 in
      let (q, eq, e5) = >>=-eq-ok (put h operation_attributes "which-jobs" (keyword k) r) _ e4 in
      put-query _ _ _ q t e5
      ∙ put-query _ _ _ r q eq
      ∙ request_attributes-query job_attribute_names b r er
      ∙ ap query_of (start-eq-ok h _ b eb)

  module _ (c : Client) where
    sent-Grows :
        (r : Request) (q : Query) (s t : Session S)
        → query_of r ≡ some q
        → t.sent ≡ s.sent ++ (r ∷ [])
        → Grows s t (q ∷ [])
    sent-Grows r q s t known sent =
        ap (map query_of) sent
        ∙ map-append query_of s.sent (r ∷ [])
        ∙ ap (λ o. map query_of s.sent ++ (o ∷ [])) known

    send-Asks :
        {B : Type 0} (r : Request) (q : Query) (label : String) (decode : Response → B)
        → query_of r ≡ some q
        → Asks (send h c r label >>= λ resp. pure (decode resp)) q
    unfolding Asks
    send-Asks {B = B} r q label decode known s =
        let told = send_lem h c r label s in
        let t : Session S = (send h c r label s).1 in
        let same : t.cache ≡ s.cache = ap (λ x. x.1.cache) told in
        let grown : Grows s t (q ∷ []) = sent-Grows r q s t known (ap (λ x. x.1.sent) told) in
        continue-cases (λ (y : Result B × Session S). (y.1.cache ≡ s.cache) × Asked q y.0 s y.1)
          (send h c r label s).0 (λ resp. pure (decode resp)) t (λ e failed. (same, inr grown))
          λ resp given. (same, grown)

    transmit-Asks :
        {B : Type 0} (r : Request) (q : Query) (label : String) (decode : Response → B)
        → query_of r ≡ some q
        → Asks
            (transmit h c r >>= λ resp. (lift (check_status h resp label) >> pure (decode resp)))
            q
    unfolding transmit check_status Asks
    transmit-Asks {B = B} r q label decode known s =
        let t : Session S = (transmit h c r s).1 in
        let grown : Grows s t (q ∷ []) = sent-Grows r q s t known refl in
        continue-cases (λ (y : Result B × Session S). (y.1.cache ≡ s.cache) × Asked q y.0 s y.1)
          (transmit h c r s).0 (λ resp. lift (check_status h resp label) >> pure (decode resp)) t
          (λ e failed. (refl, inr grown))
          λ resp given.
            continue-cases (λ (y : Result B × Session S). (y.1.cache ≡ s.cache) × Asked q y.0 s y.1)
              (check_status h resp label) (λ u. pure (decode resp)) t
              (λ e failed. (refl, inr grown)) λ u fine. (refl, grown)

    -- Behind a part that may fail before anything is sent.
    lift-Asks :
        {A B : Type 0} (x : Result A) (next : A → Exec S B) (q : Query)
        → ((a : A) → x ≡ ok a → Asks (next a) q)
        → Asks (lift x >>= next) q
    unfolding Asks
    lift-Asks (err e) next q each s = (refl, inl (Grows-nil s))
    lift-Asks (ok a) next q each s = each a refl s

    pub server_default-Asks : Asks (server_default h c) get_default
    unfolding server_default
    server_default-Asks =
        lift-Asks (start h (new_request cups_get_default none)) _ get_default λ b eb.
          lift-Asks (put h operation_attributes "requested-attributes" (keyword "printer-name") b) _
            get_default
            λ r er. send-Asks r get_default "CUPS-Get-Default" first_name (
              put-query operation_attributes "requested-attributes" (keyword "printer-name") b r er
              ∙ ap query_of (start-eq-ok h (new_request cups_get_default none) b eb))

    -- What follows the default in `printers`.
    abbrev pub listed : Option String → Exec S (List Printer)
    listed default = do
      request ← lift (request_attributes h printer_attribute_names (begin new_get_printers))
      resp ← transmit h c request
      lift (check_status h resp "CUPS-Get-Printers")
      pure (decode_printers resp default)

    pub listed-Asks : (default : Option String) → Asks (listed default) get_printers
    listed-Asks default = lift-Asks _ _ get_printers λ r er.
        transmit-Asks r get_printers "CUPS-Get-Printers" (λ resp. decode_printers resp default)
          (request_attributes-query printer_attribute_names _ r er)

    pub jobs-Asks : (which : WhichJobs) → Asks (jobs h c which) get_jobs
    unfolding jobs
    jobs-Asks which =
        lift-Asks _ _ get_jobs
          λ r er. transmit-Asks r get_jobs "Get-Jobs" decode_jobs (jobs_request-query c which r er)
