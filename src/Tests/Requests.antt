-- ===== src/Tests/Requests.antt =====
-- Jobs that stay open, requests and clients, against a scripted service.
use ipp_client.Prelude.{
  ℕ, String, pos, ◌<>◌, ◌≡◌, ◌≢◌, ◌↔◌, refl, Duration, from_secs, true, false, none, some, List, [],
  ◌∷◌,
}
use ipp_client.Prelude.Text.{trim_end_matches}
use ipp_client.Ipp.{subscription_attributes, Value, integer, keyword, Uri}
use ipp_client.Errors.{ok}
use ipp_client.Client.{Client, plain_transport, printer_uri, parse_or, default_user, with_uri}
use ipp_client.Client.Build.{IppClientBuilder, is_confidential, builder, set_basic_auth, build}
use ipp_client.Client.Build.Laws.{build-warns, with_uri-slashes}
use ipp_client.Client.Requests.{
  start, put, add_int, with_name, bounded, user_value, raw_request, job_action_request,
}
use ipp_client.Client.Jobs.{move_job}
use ipp_client.Client.Jobs.Moved.{moving, move_job-moved}
use ipp_client.Client.Transfer.{send, transmit, check_status, run}
use ipp_client.Client.Jobs.{cancel_job, job_action, job_action_at}
use ipp_client.Client.Printer.{set_job_attributes, put_all}
use ipp_client.Client.Printer.Calls.{
  Call, subscribing, setting_job, reading_subscription, call_request, perform as perform_call,
}
use ipp_client.Client.Printer.Answered.{perform-decoded}
use ipp_client.Client.Printer.Granted.{granted, IsLease, subscribe-granted}
use ipp_client.Client.Notify.{subscribe}
use ipp_client.Subscription
use ipp_client.Subscription.{Subscription, job_completed, other, from_keyword}
use ipp_client.Host.{Host, done}
use ipp_client.Attrs
use ipp_client.Subscription.{decode_subscription, decode_all}
use ipp_client.Client.Printer.Sent.{
  cancelling, acting, calling, perform, order_request, perform-Sent,
}
use ipp_client.Client.Printer.Named.{act, printer_of, by_name, by_name-Addressed}
use ipp_client.Client.OpenJob.{IppJob}
use ipp_client.Client.OpenJob.Laws.{Document}
use ipp_client.Tests.Scene.{
  scripted, reply, subscription_group, obliging, client, office, fresh, uri_of,
}

-- A job of the office printer, with no document yet.
abbrev letter : IppJob
letter = record { printer = office; id = pos 42; closed = false }

abbrev pages : List Document
pages = (7, none, false) ∷ (8, none, true) ∷ []

by_name-Addressed_example :
    ((by_name obliging client (act cancelling (pos 42)) "office" fresh).1.cache ≡ none)
    × ((by_name obliging client (act cancelling (pos 42)) "office" fresh).1.sent
        ≡ order_request
            (printer_of client (uri_of "http://print.example:631/printers/office"))
            (acting cancelling (pos 42))
          ∷ [])
unfolding cancel_job job_action printer_uri parse_or job_action_at run job_action_request start
    user_value bounded put with_name send transmit check_status
by_name-Addressed_example =
    by_name-Addressed obliging client (act cancelling (pos 42)) "office" fresh

abbrev queue_uri : String → Uri
queue_uri name = uri_of ("http://print.example:631/printers/" <> name)

move_job-moved_example : move_job obliging client "office" (pos 42) "attic" fresh ≡ (
  ok tt,
  record fresh {
    server = 1;
    sent = moving client (queue_uri "office") (pos 42) (queue_uri "attic") ∷ [];
  },
)
unfolding printer_uri parse_or
move_job-moved_example =
    move_job-moved obliging client "office" "attic" (queue_uri "office") (queue_uri "attic")
      (pos 42) fresh refl refl
      (record {
        builder = refl;
        user = refl;
        target = refl;
        id_attribute = refl;
        user_attribute = refl;
        target_attribute = refl;
      })

abbrev urgent : List (String × Value)
urgent = ("job-priority", integer (pos 80)) ∷ ("job-hold-until", keyword "no-hold") ∷ []

-- The caller's attributes follow the job, in their order.
perform-Sent_example :
    ((perform obliging office (calling (setting_job (pos 42) urgent)) fresh).1.cache ≡ none)
    × ((perform obliging office (calling (setting_job (pos 42) urgent)) fresh).1.sent
        ≡ order_request office (calling (setting_job (pos 42) urgent)) ∷ [])
unfolding set_job_attributes put_all raw_request add_int start user_value bounded put with_name send
    transmit check_status
perform-Sent_example = perform-Sent obliging office (calling (setting_job (pos 42) urgent)) fresh

-- Every request is answered with a subscription.
abbrev subscribed_host : Host ℕ
subscribed_host =
    scripted (λ n. done (reply 0 subscription_attributes (subscription_group ∷ []))) none

perform-decoded_example :
    perform_call subscribed_host office (reading_subscription (pos 9)) fresh ≡ (
      ok (record { id = pos 9; events = []; lease = none; subscriber = none }),
      record {
        server = 1;
        sent = call_request office (reading_subscription (pos 9)) ∷ [];
        cache = none;
      },
    )
unfolding decode_all decode_subscription Attrs.require_int Attrs.int Attrs.texts Attrs.text
perform-decoded_example =
    perform-decoded subscribed_host office (reading_subscription (pos 9)) fresh refl (refl, tt)
      (refl, (refl, tt))

abbrev hour : Duration
hour = from_secs 3600

abbrev wanted : Call
wanted = subscribing (job_completed ∷ other "acme-lid-opened" ∷ []) (some hour)

-- Every request is answered with the subscription that is wanted.
abbrev granting : Host ℕ
granting =
    scripted
      (λ n. done (
        reply 0 subscription_attributes
          (granted (pos 9) (call_request office wanted).attributes ∷ [])))
      none

subscribe-granted_example :
    (sub : Subscription) × ((subscribe granting office
        (job_completed ∷ other "acme-lid-opened" ∷ [])
        (some hour)
        fresh).0
      ≡ ok sub)
    × (sub.id ≡ pos 9)
    × (sub.events ≡ job_completed ∷ other "acme-lid-opened" ∷ [])
    × ((sub.lease ≡ some hour) ↔ IsLease (some hour))
unfolding from_keyword Subscription.keyword
subscribe-granted_example =
    subscribe-granted granting office (job_completed ∷ other "acme-lid-opened" ∷ []) (some hour)
      (pos 9)
      (reply 0 subscription_attributes
        (granted (pos 9) (call_request office wanted).attributes ∷ []))
      fresh refl (refl, (refl, (refl, (refl, tt)))) (refl, (refl, (refl, (refl, tt))))
      (tt, (refl, tt)) refl refl refl

abbrev careless : IppClientBuilder
careless = set_basic_auth "ada" "secret" (builder "http://print.example:631/")

abbrev careless_client : Client
careless_client = record {
  inner = record {
    uri = uri_of "http://print.example:631/";
    request_timeout = none;
    basic_auth = some ("ada", "secret");
    ca_certs = [];
    ignore_tls_errors = false;
  };
  base = trim_end_matches b'/' "http://print.example:631/";
  user = "ada";
}

build-warns_example : (true ≡ true) ↔ (
    (careless.basic_auth ≢ none)
    × ((uri_of "http://print.example:631/").scheme ≢ some "https")
    × ((uri_of "http://print.example:631/").scheme ≢ some "ipps")
    × ((uri_of "http://print.example:631/").host ≢ some "localhost")
    × ((uri_of "http://print.example:631/").host ≢ some "127.0.0.1")
    × ((uri_of "http://print.example:631/").host ≢ some "::1")
    × ((uri_of "http://print.example:631/").host ≢ some "[::1]"))
unfolding build parse_or default_user is_confidential
build-warns_example =
    build-warns obliging careless (uri_of "http://print.example:631/") careless_client true refl
      refl

abbrev slashed : Client
slashed = record {
  inner = plain_transport (uri_of "http://print.example:631//");
  base = "http://print.example:631";
  user = "ada";
}

with_uri-slashes_example :
    printer_uri obliging slashed "office"
    ≡ parse_or obliging
        ("bad printer uri for " <> "office")
        ("http://print.example:631" <> "/printers/" <> "office")
unfolding with_uri parse_or trim_end_matches
with_uri-slashes_example =
    with_uri-slashes obliging "http://print.example:631" "office" "ada" 2 slashed (λ h. cc) refl
