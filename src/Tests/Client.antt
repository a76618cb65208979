-- ===== src/Tests/Client.antt =====
-- What the client reads and sends, against a scripted service.
use ipp_client.Prelude.{
  ℕ, pos, String, ◌≡◌, ◌↔◌, refl, true, Option, none, some, List, [], ◌∷◌, All,
}
use ipp_client.Ipp.{printer_attributes, job_attributes}
use ipp_client.Errors.{transport, Result, ok, err}
use ipp_client.Lpoptions
use ipp_client.Session.{Session}
use ipp_client.Model.Printer
use ipp_client.Model.Printer.{Printer}
use ipp_client.Client.Requests.{start, put, with_name, bounded, keywords, request_attributes}
use ipp_client.Client.Transfer.{transmit, check_status, decode_printers}
use ipp_client.Attrs
use ipp_client.Client.{printer_uri, parse_or}
use ipp_client.Client.Print.{print_file, auto_type}
use ipp_client.Client.Print.Accepted.{create, handed, print_file-accepted}
use ipp_client.Client.Print.Laws.{cancel_request}
use ipp_client.Client.Transfer.{decode_job_id}
use ipp_client.Ipp.{Uri}
use ipp_client.Client.Queries.Query.{for_ppds, ask, query_request}
use ipp_client.Client.Queries.Answered.{ask-decoded}
use ipp_client.Client.Requests.{make}
use ipp_client.Subscription.{decode_all}
use ipp_client.Client.Print.Files.{Printed, print_file-Printed}
use ipp_client.Subscription.{decode_all}
use ipp_client.Client.Default.{default_printer, server_default, or_no_default}
use ipp_client.Client.Default.Laws.{default_printer_lem}
use ipp_client.Client.Queries.{printers}
use ipp_client.Client.Requests.{printer_attribute_names, job_attribute_names}
use ipp_client.Client.Queries.{class_attribute_names, ppd_attribute_names}
use ipp_client.Client.Queries.Requested.{restricted, decode-restricted}
use ipp_client.Model.Job
use ipp_client.Model.Class
use ipp_client.Model.Ppd
use ipp_client.Client.Queries.Laws.{printers-default}
use ipp_client.Client.Print.{print_stream_at}
use ipp_client.Client.Print.Laws.{Submitted, print_stream_at-Submitted}
use ipp_client.Tests.Scene.{
  lost, job_group, obliging, breaking, listing, reply, printer_group, empty_group, client, fresh,
  uri_of,
}

abbrev office_uri : Uri
office_uri = uri_of "http://print.example:631/printers/office"

-- The job is created, and the connection is then lost: the job is cancelled.
print_file-accepted_example : print_file breaking client "office" "letter.pdf" fresh ≡ (
  err (transport lost),
  record {
    server = 3;
    sent =
        create breaking client office_uri 7 (some auto_type) "letter.pdf" (pos 42)
        ∷ handed breaking client office_uri 7 (some auto_type) "letter.pdf" (pos 42)
        ∷ cancel_request breaking client office_uri 7 (some auto_type) "letter.pdf" (pos 42)
        ∷ [];
    cache = none;
  },
)
unfolding printer_uri parse_or decode_job_id Attrs.int
print_file-accepted_example =
    print_file-accepted breaking client "office" "letter.pdf" fresh 7 office_uri (pos 42)
      (reply 0 job_attributes (job_group ∷ [])) refl refl
      (record {
        creates = refl;
        hands = refl;
        cancels = refl;
        user = refl;
        job_attribute = refl;
        user_attribute = refl;
      })
      refl refl refl

print_file-Printed_example :
    Printed breaking client "office" "/tmp/letter.pdf" fresh
      (print_file breaking client "office" "/tmp/letter.pdf" fresh)
print_file-Printed_example = print_file-Printed breaking client "office" "/tmp/letter.pdf" fresh

default_printer_lem_example : default_printer listing client fresh ≡ (
  ok (or_no_default listing client (server_default listing client fresh).0),
  record (server_default listing client fresh).1 {
    cache = some (or_no_default listing client (server_default listing client fresh).0);
  },
)
unfolding Lpoptions.default_printer Lpoptions.default_printer_from
    Lpoptions.default_printer_from_all
default_printer_lem_example = default_printer_lem listing client fresh

abbrev ok_or_nothing : Result (List Printer) → List Printer
ok_or_nothing (ok ps) = ps
ok_or_nothing (err e) = []

abbrev printed : List Printer
printed =
    decode_printers (reply 0 printer_attributes (empty_group ∷ printer_group "office" ∷ []))
      (some "office")

abbrev cached : Session ℕ
cached = record fresh { cache = some (some "office") }

printers-default_example :
    (d : Option String) × ((printers listing client cached).1.cache ≡ some d)
    × All (λ (p : Printer). (p.is_default ≡ true) ↔ (d ≡ some p.name)) printed
unfolding printers default_printer start put with_name transmit check_status request_attributes
    keywords bounded
printers-default_example =
    printers-default listing client cached (printers listing client cached).1 printed refl

ask-decoded_example : ask obliging client (for_ppds (some (make "Acme"))) fresh ≡ (
  ok [],
  record fresh {
    server = 1;
    sent = query_request client (for_ppds (some (make "Acme"))) (uri_of "") ∷ [];
  },
)
unfolding decode_all
ask-decoded_example =
    ask-decoded obliging client (for_ppds (some (make "Acme"))) (uri_of "") fresh tt refl
      (refl, (refl, (refl, (refl, tt)))) (refl, (refl, tt))

print_stream_at-Submitted_example :
    Submitted breaking client
      (uri_of "ipp://print.example/office")
      7
      none
      "letter"
      fresh
      (print_stream_at breaking client (uri_of "ipp://print.example/office") 7 none "letter" fresh)
print_stream_at-Submitted_example =
    print_stream_at-Submitted breaking client (uri_of "ipp://print.example/office") 7 none "letter"
      fresh

decode-restricted_example :
    (Printer.decode (restricted printer_attribute_names (printer_group "office"))
      ≡ Printer.decode (printer_group "office"))
    × (Job.decode (restricted job_attribute_names (printer_group "office"))
        ≡ Job.decode (printer_group "office"))
    × (Class.decode (restricted class_attribute_names (printer_group "office"))
        ≡ Class.decode (printer_group "office"))
    × (Ppd.decode (restricted ppd_attribute_names (printer_group "office"))
        ≡ Ppd.decode (printer_group "office"))
decode-restricted_example = decode-restricted (printer_group "office")
