-- ===== src/Client/Queries/Query.antt =====
-- The queries of ipp-async/src/client.rs: what each asks for, and what it reads from an answer.
use ipp_client.Prelude.{String, ◌<>◌, ◌≡◌, true, Option, none, some, List, [], ◌∷◌, ◌++◌, map}
use ipp_client.Ipp.{
  Tag, operation_attributes, printer_attributes, Value, Values, no_values, one_more, keyword, array,
  boolean, text_without_language, Bound, keyword_bound, text_bound, Attribute, Uri,
  cups_get_classes, cups_get_ppds, Builder, new_request, new_get_jobs, new_get_job_attributes,
  new_get_printer_attributes, Request, Response,
}
use ipp_client.Errors.{Result, ok, ◌>>=◌ as ◌>>==◌}
use ipp_client.Host.{Host, Outcome}
use ipp_client.Session.{Exec}
use ipp_client.Model.Printer.{Printer}
use ipp_client.Model.Job.{Job, JobId}
use ipp_client.Model.Class
use ipp_client.Model.Class.{Class}
use ipp_client.Model.Ppd
use ipp_client.Model.Ppd.{Ppd}
use ipp_client.Subscription.{decode_all}
use ipp_client.Client.{Client, parse_or, printer_uri}
use ipp_client.Client.Requests.{PpdFilter, as_attribute, WhichJobs, as_keyword, job_attribute_names}
use ipp_client.Client.Transfer.{decode_jobs}
use ipp_client.Client.Transfer.Laws.{outcome_of}
use ipp_client.Client.Queries.{
  class_attribute_names, ppd_attribute_names, classes, ppds, jobs, job, printer_at, printer,
  first_printer,
}
use ipp_client.Client.Queries.Laws.{job_of}

-- The queries that are one request, each with what the caller gives it.
pub data Query : Type 0 where
  for_classes : Query
  for_ppds : Option PpdFilter → Query
  for_jobs : WhichJobs → Query
  for_job : String → JobId → Query
  for_printer_at for_printer : String → Query

abbrev pub Answer : Query → Type 0
Answer for_classes = List Class
Answer (for_ppds filter) = List Ppd
Answer (for_jobs which) = List Job
Answer (for_job name id) = Option Job
Answer (for_printer_at uri) = Printer
Answer (for_printer name) = Printer

abbrev pub keyword_values : List String → Values
keyword_values [] = no_values
keyword_values (name ∷ names) = one_more (keyword name) (keyword_values names)

abbrev pub named : String → Value → Tag × Attribute
named name value = (operation_attributes, record { name = name; value = value })

-- The attributes that an answer is to have.
abbrev pub wanted : List String → Tag × Attribute
wanted names = named "requested-attributes" (array (keyword_values names))

abbrev filtered : Option PpdFilter → List (Tag × Attribute)
filtered none = []
filtered (some filter) =
    let (name, value) = as_attribute filter in named name (text_without_language value) ∷ []

-- The request of a query, with the URI that it names if it names one.
abbrev pub builder_of : Client → Query → Uri → Builder
builder_of c for_classes uri = new_request cups_get_classes none
builder_of c (for_ppds filter) uri = new_request cups_get_ppds none
builder_of c (for_jobs which) uri = new_get_jobs uri (some c.user)
builder_of c (for_job name id) uri = new_get_job_attributes uri id (some c.user)
builder_of c (for_printer_at text) uri = new_get_printer_attributes uri
builder_of c (for_printer name) uri = new_get_printer_attributes uri

abbrev pub attributes_of : Query → List (Tag × Attribute)
attributes_of for_classes = wanted class_attribute_names ∷ []
attributes_of (for_ppds filter) = filtered filter ++ (wanted ppd_attribute_names ∷ [])
attributes_of (for_jobs which) =
    wanted job_attribute_names
    ∷ named "which-jobs" (keyword (as_keyword which))
    ∷ named "my-jobs" (boolean true)
    ∷ []
attributes_of (for_job name id) = wanted job_attribute_names ∷ []
attributes_of (for_printer_at text) = []
attributes_of (for_printer name) = []

abbrev pub query_request : Client → Query → Uri → Request
query_request c q uri = record {
  builder = builder_of c q uri;
  opcode = none;
  attributes = attributes_of q;
}

-- The texts that are converted to bounded strings of the crate.
abbrev pub keyword_texts : List String → List (Bound × String)
keyword_texts names = map (λ name. (keyword_bound, name)) names

abbrev filter_texts : Option PpdFilter → List (Bound × String)
filter_texts none = []
filter_texts (some filter) = (text_bound, (as_attribute filter).1) ∷ []

abbrev pub texts_of : Query → List (Bound × String)
texts_of for_classes = keyword_texts class_attribute_names
texts_of (for_ppds filter) = filter_texts filter ++ keyword_texts ppd_attribute_names
texts_of (for_jobs which) = (keyword_bound, as_keyword which) ∷ keyword_texts job_attribute_names
texts_of (for_job name id) = keyword_texts job_attribute_names
texts_of _ = []

module _ {S : Type 0} (h : Host S) (c : Client) where
  abbrev pub ask : (q : Query) → Exec S (Answer q)
  ask for_classes = classes h c
  ask (for_ppds filter) = ppds h c filter
  ask (for_jobs which) = jobs h c which
  ask (for_job name id) = job h c name id
  ask (for_printer_at uri) = printer_at h c uri
  ask (for_printer name) = printer h c name

  -- The URI that the request names: a queue's, the printer's, or the server's.
  abbrev pub Target : Query → Uri → Type 0
  Target for_classes uri = Unit
  Target (for_ppds filter) uri = Unit
  Target (for_jobs which) uri = parse_or h "bad CUPS uri" c.base ≡ ok uri
  Target (for_job name id) uri = printer_uri h c name ≡ ok uri
  Target (for_printer_at text) uri = parse_or h ("bad printer uri " <> text) text ≡ ok uri
  Target (for_printer name) uri =
      (queue : Uri) × (printer_uri h c name ≡ ok queue)
      × (parse_or h ("bad printer uri " <> queue.text) queue.text ≡ ok uri)

  -- What a query makes of an answer.
  abbrev pub reading : (q : Query) → Outcome Response → Result (Answer q)
  reading for_classes o = outcome_of h c o "CUPS-Get-Classes" >>== λ resp.
      ok (decode_all resp printer_attributes Class.decode)
  reading (for_ppds filter) o = outcome_of h c o "CUPS-Get-PPDs" >>== λ resp.
      ok (decode_all resp printer_attributes Ppd.decode)
  reading (for_jobs which) o = outcome_of h c o "Get-Jobs" >>== λ resp. ok (decode_jobs resp)
  reading (for_job name id) o = job_of h c o
  reading (for_printer_at uri) o = outcome_of h c o "Get-Printer-Attributes" >>== first_printer
  reading (for_printer name) o = outcome_of h c o "Get-Printer-Attributes" >>== first_printer
