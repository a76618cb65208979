-- ===== src/Client/Printer/Answered.antt =====
-- What the operations of an `IppPrinter` make of the server's answer
-- (ipp-async/src/client.rs).
use mathlib.Core.List.{append-nil, append_assoc}
use ipp_client.Prelude.{
  Duration, String, ◌≡◌, refl, sym, ap, ◌∙◌, Option, none, some, List, [], ◌∷◌, ◌++◌, map, first,
}
use ipp_client.Ipp.{
  Bound, name_bound, mime_bound, keyword_bound, new_request, get_printer_attributes, Tag, Value,
  Values, document_attributes, subscription_attributes, event_notification_attributes, Request,
  Response,
}
use ipp_client.Errors.{Result, ok, ok_or, ◌>>=◌ as ◌>>==◌}
use ipp_client.Host.{Host}
use ipp_client.Session.{Session, Exec, continue, lift, ◌>>=◌}
use ipp_client.Model.Document
use ipp_client.Subscription
use ipp_client.Subscription.{
  NotifyEvent, decode_all, decode_subscription, decode_notification, missing,
}
use ipp_client.Client.{IppPrinter}
use ipp_client.Client.Requests.{add, add_int}
use ipp_client.Client.Transfer.{decode_job_id}
use ipp_client.Client.Transfer.Laws.{outcome_of}
use ipp_client.Client.Transfer.Gives.{
  Gives, Fit, Taken, Gives-known, put-takes, bounded-takes, answer_rules,
}
use ipp_client.Client.Printer.{
  documents, validate_document, resubmit_job, put_all, set_job_attributes, set_attributes,
}
use ipp_client.Client.Notify.{
  put_lease, event_keywords, poll_interval_of, subscribe, subscriptions, subscription,
  notifications, renew_subscription, cancel_subscription,
}
use ipp_client.Client.Notify.Laws.{event_values, lease_attributes}
use ipp_client.Client.Printer.Calls.{
  Call, listing_documents, resubmitting, validating_document, setting_job, setting_printer,
  subscribing, listing_subscriptions, reading_subscription, cancelling_subscription,
  renewing_subscription, reading_notifications, Answer, given_attribute, call_request, perform,
}

-- The first subscription of an answer, if it has one.
abbrev first_of : Response → Result Subscription.Subscription
first_of resp =
    ok_or (first (decode_all resp subscription_attributes decode_subscription))
      (missing "notify-subscription-id")

-- What an operation reads from an answer.
abbrev pub decoded : (call : Call) → Response → Result (Answer call)
decoded (listing_documents job) resp = ok (decode_all resp document_attributes Document.decode)
decoded (resubmitting job) resp = decode_job_id resp
decoded (validating_document job format) resp = ok tt
decoded (setting_job job given) resp = ok tt
decoded (setting_printer given) resp = ok tt
decoded (subscribing events lease) resp = first_of resp
decoded listing_subscriptions resp =
    ok (decode_all resp subscription_attributes decode_subscription)
decoded (reading_subscription id) resp = first_of resp
decoded (cancelling_subscription id) resp = ok tt
decoded (renewing_subscription id lease) resp = ok tt
decoded (reading_notifications ids) resp = ok (record {
  events = decode_all resp event_notification_attributes decode_notification;
  poll_after = poll_interval_of resp;
})

-- The operation's name, in its errors.
abbrev pub label_of : Call → String
label_of (listing_documents job) = "Get-Documents"
label_of (resubmitting job) = "Resubmit-Job"
label_of (validating_document job format) = "Validate-Document"
label_of (setting_job job given) = "Set-Job-Attributes"
label_of (setting_printer given) = "Set-Printer-Attributes"
label_of (subscribing events lease) = "Create-Printer-Subscriptions"
label_of listing_subscriptions = "Get-Subscriptions"
label_of (reading_subscription id) = "Get-Subscription-Attributes"
label_of (cancelling_subscription id) = "Cancel-Subscription"
label_of (renewing_subscription id lease) = "Renew-Subscription"
label_of (reading_notifications ids) = "Get-Notifications"

-- The texts that are converted to bounded strings of the crate.
abbrev event_texts : List NotifyEvent → List (Bound × String)
event_texts es = map (λ e. (keyword_bound, Subscription.keyword e)) es

abbrev pub texts_of : IppPrinter → Call → List (Bound × String)
texts_of p (validating_document job format) =
    (name_bound, p.client.user) ∷ (mime_bound, format) ∷ []
texts_of p (subscribing events lease) =
    (name_bound, p.client.user) ∷ (keyword_bound, "ippget") ∷ event_texts events
texts_of p _ = (name_bound, p.client.user) ∷ []

module _ {S : Type 0} (h : Host S) (p : IppPrinter) where
  event_keywords-takes :
      (es : List NotifyEvent) → Fit h (event_texts es) → event_keywords h es ≡ ok (event_values es)
  unfolding event_keywords
  event_keywords-takes [] fit = refl
  event_keywords-takes (e ∷ es) (fits, fit) =
      let first =
        bounded-takes h keyword_bound "notify-events" "keyword too long" (Subscription.keyword e)
          fits in
      simp (first, event_keywords-takes es fit)

  put_lease-takes :
      (lease : Option Duration) (q : Request)
      → Taken h (lease_attributes lease)
      → put_lease h lease q ≡ ok (record q { attributes = q.attributes ++ lease_attributes lease })
  unfolding put_lease
  put_lease-takes none q taken =
      ap (λ l. ok (record q { attributes = l })) (sym (append-nil q.attributes))
  put_lease-takes (some n) q (taken, none_left) = put-takes h _ _ _ q taken

  put_all-takes :
      (tag : Tag) (given : List (String × Value)) (q : Request) (s : Session S)
      → Taken h (map (given_attribute tag) given)
      → put_all h p tag given q s
        ≡ (ok (record q { attributes = q.attributes ++ map (given_attribute tag) given }), s)
  unfolding put_all
  put_all-takes tag [] q s taken =
      ap (λ l. (ok (record q { attributes = l }), s)) (sym (append-nil q.attributes))
  put_all-takes tag ((name, value) ∷ given) q s (taken, others) =
      ap (λ x. continue x (λ next. put_all h p tag given next) s)
        (put-takes h tag name value q taken)
      ∙ put_all-takes tag given (add tag (record { name = name; value = value }) q) s others
      ∙ ap (λ l. (ok (record q { attributes = l }), s))
          (append_assoc q.attributes (given_attribute tag (name, value) ∷ [])
            (map (given_attribute tag) given))

  module _ {B : Type 0} (label : String) (decode : Response → Result B) where
    Gives-put_all :
        (tag : Tag) (given : List (String × Value)) (q : Request) (next : Request → Exec S B)
        (r : Request)
        → Taken h (map (given_attribute tag) given)
        → Gives h p.client
            (next (record q { attributes = q.attributes ++ map (given_attribute tag) given }))
            r
            label
            decode
        → Gives h p.client (put_all h p tag given q >>= next) r label decode
    unfolding Gives
    Gives-put_all tag given q next r taken rest s =
        ap (λ y. continue y.0 next y.1) (put_all-takes tag given q s taken) ∙ rest s

    Gives-put_lease :
        (lease : Option Duration) (q : Request) (next : Request → Exec S B) (r : Request)
        → Taken h (lease_attributes lease)
        → Gives h p.client
            (next (record q { attributes = q.attributes ++ lease_attributes lease }))
            r
            label
            decode
        → Gives h p.client (lift (put_lease h lease q) >>= next) r label decode
    Gives-put_lease lease q next r taken =
        Gives-known h p.client _ _ next r label decode (put_lease-takes lease q taken)

    Gives-event_keywords :
        (es : List NotifyEvent) (next : Values → Exec S B) (r : Request)
        → Fit h (event_texts es)
        → Gives h p.client (next (event_values es)) r label decode
        → Gives h p.client (lift (event_keywords h es) >>= next) r label decode
    Gives-event_keywords es next r fit =
        Gives-known h p.client _ _ next r label decode (event_keywords-takes es fit)

  ruleset call_rules = (answer_rules, Gives-put_all, Gives-put_lease, Gives-event_keywords)

  Gives-call :
      (call : Call)
      → h.build_error (new_request get_printer_attributes (some p.uri)) ≡ none
      → Fit h (texts_of p call)
      → Taken h (call_request p call).attributes
      → Gives h p.client (perform h p call) (call_request p call) (label_of call) (decoded call)
  unfolding documents resubmit_job validate_document set_job_attributes set_attributes subscriptions
      subscription cancel_subscription renew_subscription notifications subscribe add_int
  Gives-call (subscribing events lease) built fit taken = search (call_rules) depth 9
  Gives-call _ built fit taken = search (call_rules) depth 9

  -- An operation that carries the caller's data, if the crate takes the texts and the attributes
  -- that this call gives it, hands its request to the transport exactly once, and leaves the cache.
  -- Its result is what it reads from an answer of success, and an error when there is nothing to
  -- read; else it is the transport's error, or one with the name of the operation and the status of
  -- the answer.
  pub perform-decoded :
      (call : Call) (s : Session S)
      → h.build_error (new_request get_printer_attributes (some p.uri)) ≡ none
      → Fit h (texts_of p call)
      → Taken h (call_request p call).attributes
      → perform h p call s ≡ (
        outcome_of h p.client
              (h.send p.client.inner (call_request p call) s.server).0
              (label_of call)
            >>== decoded call,
        record s {
          server = (h.send p.client.inner (call_request p call) s.server).1;
          sent = s.sent ++ (call_request p call ∷ []);
        },
      )
  unfolding Gives
  perform-decoded call s built fit taken = Gives-call call built fit taken s
