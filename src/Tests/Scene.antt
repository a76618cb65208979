-- ===== src/Tests/Scene.antt =====
-- A print service for the tests: it answers its requests by a script, and the crate around it
-- takes every value.
use ipp_client.Prelude.{
  ℕ, suc, ℤ, pos, String, true, false, Option, none, some, List, [], ◌∷◌, ◌==◌, str_eq, show_ℕ,
  if◌then◌else◌,
}
use ipp_client.Ipp.{
  Tag, job_attributes, printer_attributes, subscription_attributes, integer, enum,
  name_without_language, Uri, Group, Response, Request, begin, new_get_printers,
}
use ipp_client.Errors.{Cause, Result, ok, err}
use ipp_client.Host.{Host, Outcome, done, failed}
use ipp_client.Session.{Session}
use ipp_client.Client.{Client, IppPrinter, plain_transport}
use ipp_client.Model.Printer.{Printer}
use ipp_client.Model.PrinterState.{idle, stopped}
use ipp_client.Model.JobState.{processing, completed}
use ipp_client.Model.Job.{Job, indeterminate}
use ipp_client.Model.StateReason
use ipp_client.Model.PrinterOptions.{PrinterOptions, no_values}
use ipp_client.Events.{Snapshot}

abbrev pub uri_of : String → Uri
uri_of text = record { text = text; scheme = some "http"; host = some "print.example" }

abbrev pub lost : Cause
lost = record { text = "connection reset"; deeper = "broken pipe" ∷ [] }

-- The state is the number of requests that were answered; lpoptions can be read from `options`.
abbrev pub scripted : (ℕ → Outcome Response) → Option String → Host ℕ
scripted script options = record {
  parse_uri = λ text. done (uri_of text);
  build_error = λ b. none;
  fits = λ bound text. true;
  attribute_error = λ name value. none;
  is_success = λ status. status == 0;
  is_not_found = λ status. status == 0x0406;
  status_text = show_ℕ;
  send = λ t r n. (script n, suc n);
  read_to_string = λ n path. options;
  open_file = λ n path. done 7;
  file_name = λ path. some path;
  home = some "/home/ada";
  user = some "ada";
}

-- A response with one group.
abbrev same_tag : Tag → Tag → Option (Unit {0})
same_tag job_attributes job_attributes = some tt
same_tag printer_attributes printer_attributes = some tt
same_tag subscription_attributes subscription_attributes = some tt
same_tag _ _ = none

abbrev if_same : Option (Unit {0}) → List Group → List Group
if_same none gs = []
if_same (some u) gs = gs

abbrev pub reply : ℕ → Tag → List Group → Response
reply status tag gs = record { status = status; groups_of = λ t. if_same (same_tag tag t) gs }

abbrev pub job_group : Group
job_group name =
    if str_eq name "job-id"
    then some (integer (pos 42))
    else if str_eq name "job-state"
    then some (enum (pos 5))
    else if str_eq name "job-impressions"
    then some (integer (pos 10))
    else if str_eq name "job-impressions-completed"
    then some (integer (pos 4))
    else none

abbrev pub printer_group : String → Group
printer_group queue name =
    if str_eq name "printer-name"
    then some (name_without_language queue)
    else if str_eq name "printer-state"
    then some (enum (pos 3))
    else none

abbrev pub subscription_group : Group
subscription_group name =
    if str_eq name "notify-subscription-id" then some (integer (pos 9)) else none

abbrev pub empty_group : Group
empty_group name = none

abbrev pub client : Client
client = record {
  inner = plain_transport (uri_of "http://print.example:631");
  base = "http://print.example:631";
  user = "ada";
}

abbrev pub office : IppPrinter
office = record { client = client; uri = uri_of "ipp://print.example/office" }

abbrev pub fresh : Session ℕ
fresh = record { server = 0; sent = []; cache = none }

abbrev no_options : PrinterOptions
no_options = record {
  media = no_values;
  sides = no_values;
  color_mode = no_values;
  quality = no_values;
  output_bin = no_values;
}

abbrev pub printer_at : String → Printer
printer_at name = record {
  name = name;
  uri = "";
  device_uri = "";
  info = none;
  location = none;
  state = idle;
  reasons = StateReason.parse "media-empty-error" ∷ StateReason.parse "toner-low-warning" ∷ [];
  accepting_jobs = true;
  supplies = [];
  is_default = false;
  options = no_options;
}

abbrev pub job_at : ℤ → Job
job_at id = record {
  id = id;
  printer = "office";
  name = none;
  user = none;
  state = processing;
  reasons = [];
  progress = indeterminate;
  created = none;
  pages_printed = none;
  completed = none;
}

abbrev pub morning : Snapshot
morning = record {
  printers = printer_at "office" ∷ printer_at "attic" ∷ [];
  jobs = job_at (pos 1) ∷ job_at (pos 2) ∷ [];
}

abbrev pub noon : Snapshot
noon = record {
  printers = (record (printer_at "office") { state = stopped }) ∷ [];
  jobs = (record (job_at (pos 2)) { state = completed }) ∷ job_at (pos 3) ∷ [];
}

-- Every request is answered with a job.
abbrev pub obliging : Host ℕ
obliging = scripted (λ n. done (reply 0 job_attributes (job_group ∷ []))) none

-- The first request is answered, and the connection is then lost.
abbrev pub breaking : Host ℕ
breaking =
    scripted (λ n. if n == 0 then done (reply 0 job_attributes (job_group ∷ [])) else failed lost)
      none

-- Every request is answered with two printers, one of them not decodable.
abbrev pub listing : Host ℕ
listing =
    scripted (λ n. done (reply 0 printer_attributes (empty_group ∷ printer_group "office" ∷ [])))
      none

-- The request that was built.
abbrev pub known_request : Result Request → Request
known_request (ok r) = r
known_request (err e) = begin new_get_printers
