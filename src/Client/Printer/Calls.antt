-- ===== src/Client/Printer/Calls.antt =====
-- What the operations of an `IppPrinter` that carry the caller's data send
-- (ipp-async/src/client.rs).
use mathlib.Core.List.{append-nil, append_assoc}
use ipp_client.Prelude.{
  Duration, ℕ, ℤ, false, refl, String, ◌≡◌, sym, subst, ap, ◌∙◌, Option, List, [], ◌∷◌, ◌++◌, map,
}
use ipp_client.Ipp.{
  Tag, operation_attributes, job_attributes, printer_attributes, Value, mime_media_type, boolean,
  array, Attribute, Request,
}
use ipp_client.Errors.{ok, ok-injective}
use ipp_client.Host.{Host}
use ipp_client.Session.{Exec, ◌>>=◌, continue-cases}
use ipp_client.Model.Job.{JobId}
use ipp_client.Model.Document.{Document}
use ipp_client.Subscription.{NotifyEvent, Subscription, Notifications}
use ipp_client.Client.{IppPrinter}
use ipp_client.Client.Requests.{put, add, add_int}
use ipp_client.Client.Requests.Laws.{put-eq-ok, int_attribute}
use ipp_client.Client.Transfer.Sends.{Sends, Yields, Sends-then, raw_with, operation_rules}
use ipp_client.Client.Printer.{
  documents, validate_document, resubmit_job, put_all, set_job_attributes, set_attributes,
}
use ipp_client.Client.Notify.{
  integers, subscribe, subscriptions, subscription, notifications, renew_subscription,
  cancel_subscription,
}
use ipp_client.Client.Notify.Laws.{
  Sends-put_lease, requested_attributes, subscribe-Sends, lease_attributes,
}

-- The operations, each with what the caller gives it.
pub data Call : Type 0 where
  listing_documents resubmitting : JobId → Call
  validating_document : JobId → String → Call
  setting_job : JobId → List (String × Value) → Call
  setting_printer : List (String × Value) → Call
  subscribing : List NotifyEvent → Option Duration → Call
  listing_subscriptions : Call
  reading_subscription cancelling_subscription : ℤ → Call
  renewing_subscription : ℤ → Option Duration → Call
  reading_notifications : List ℤ → Call

abbrev pub Answer : Call → Type 0
Answer (listing_documents job) = List Document
Answer (resubmitting job) = JobId
Answer (subscribing events lease) = Subscription
Answer listing_subscriptions = List Subscription
Answer (reading_subscription id) = Subscription
Answer (reading_notifications ids) = Notifications
Answer _ = Unit

abbrev pub opcode_of : Call → ℕ
opcode_of (setting_printer given) = 0x0013
opcode_of (setting_job job given) = 0x0014
opcode_of (subscribing events lease) = 0x0016
opcode_of (reading_subscription id) = 0x0018
opcode_of listing_subscriptions = 0x0019
opcode_of (renewing_subscription id lease) = 0x001a
opcode_of (cancelling_subscription id) = 0x001b
opcode_of (reading_notifications ids) = 0x001c
opcode_of (listing_documents job) = 0x0035
opcode_of (resubmitting job) = 0x003a
opcode_of (validating_document job format) = 0x003d

abbrev pub given_attribute : Tag → String × Value → Tag × Attribute
given_attribute tag (name, value) = (tag, record { name = name; value = value })

-- The attributes that follow the user's name.
abbrev pub arguments : Call → List (Tag × Attribute)
arguments (listing_documents job) = int_attribute "job-id" job ∷ []
arguments (resubmitting job) = int_attribute "job-id" job ∷ []
arguments (validating_document job format) =
    int_attribute "job-id" job
    ∷ given_attribute operation_attributes ("document-format", mime_media_type format)
    ∷ []
arguments (setting_job job given) =
    int_attribute "job-id" job ∷ map (given_attribute job_attributes) given
arguments (setting_printer given) = map (given_attribute printer_attributes) given
arguments (subscribing events lease) = requested_attributes events lease
arguments listing_subscriptions = []
arguments (reading_subscription id) = int_attribute "notify-subscription-id" id ∷ []
arguments (cancelling_subscription id) = int_attribute "notify-subscription-id" id ∷ []
arguments (renewing_subscription id lease) =
    int_attribute "notify-subscription-id" id ∷ lease_attributes lease
arguments (reading_notifications ids) =
    given_attribute operation_attributes ("notify-subscription-ids", array (integers ids))
    ∷ given_attribute operation_attributes ("notify-wait", boolean false)
    ∷ []

abbrev pub call_request : IppPrinter → Call → Request
call_request p call = raw_with p.client p.uri (opcode_of call) (arguments call)

module _ {S : Type 0} (h : Host S) (p : IppPrinter) where
  abbrev pub perform : (call : Call) → Exec S (Answer call)
  perform (listing_documents job) = documents h p job
  perform (resubmitting job) = resubmit_job h p job
  perform (validating_document job format) = validate_document h p job format
  perform (setting_job job given) = set_job_attributes h p job given
  perform (setting_printer given) = set_attributes h p given
  perform (subscribing events lease) = subscribe h p events lease
  perform listing_subscriptions = subscriptions h p
  perform (reading_subscription id) = subscription h p id
  perform (cancelling_subscription id) = cancel_subscription h p id
  perform (renewing_subscription id lease) = renew_subscription h p id lease
  perform (reading_notifications ids) = notifications h p ids

  put_all-Yields :
      (tag : Tag) (given : List (String × Value)) (q : Request)
      → Yields
          (put_all h p tag given q)
          (λ r. r ≡ record q { attributes = q.attributes ++ map (given_attribute tag) given })
  unfolding put_all Yields
  put_all-Yields tag [] q s = (
    refl,
    λ r e.
        sym (ok-injective e)
        ∙ ap (λ l. record q { attributes = l }) (sym (append-nil q.attributes)),
  )
  put_all-Yields tag ((name, value) ∷ given) q s =
      continue-cases (λ y. (y.1 ≡ s) × ((r : Request) → y.0 ≡ ok r → r ≡ added))
        (put h tag name value q) (λ next. put_all h p tag given next) s
        (λ e failed. (refl, λ r e. cc))
        λ next built.
          let (same, known) = put_all-Yields tag given next s in
          (same, λ r e. known r e ∙ extended next (put-eq-ok h tag name value q next built))
    where
      added : Request
      added = record q {
        attributes =
            q.attributes ++ (given_attribute tag (name, value) ∷ map (given_attribute tag) given);
      }

      extended :
          (next : Request)
          → next ≡ add tag (record { name = name; value = value }) q
          → record next { attributes = next.attributes ++ map (given_attribute tag) given } ≡ added
      extended next known = rw known (
          ap (λ l. record q { attributes = l })
            (append_assoc q.attributes (given_attribute tag (name, value) ∷ [])
              (map (given_attribute tag) given)))

  Sends-put_all :
      {B : Type 0} (tag : Tag) (given : List (String × Value)) (q : Request)
      (next : Request → Exec S B) (r : Request)
      → Sends (next (record q { attributes = q.attributes ++ map (given_attribute tag) given })) r
      → Sends (put_all h p tag given q >>= next) r
  Sends-put_all tag given q next r rest =
      Sends-then (put_all h p tag given q) _ next r (put_all-Yields tag given q)
        λ b known. subst (λ b. Sends (next b) r) (sym known) rest

  ruleset sending_rules = (operation_rules, Sends-put_all, Sends-put_lease)

  pub perform-Sends : (call : Call) → Sends (perform call) (call_request p call)
  unfolding documents resubmit_job validate_document set_job_attributes set_attributes subscriptions
      subscription cancel_subscription renew_subscription notifications add_int
  perform-Sends (subscribing events lease) = subscribe-Sends h p events lease
  perform-Sends _ = search (sending_rules)
