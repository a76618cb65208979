-- ===== src/Subscription/Exact.antt =====
-- The attributes of subscriptions and notifications, written and decoded
-- (ipp-async/src/subscription.rs).
use mathlib.Core.Path.{ap₂}
use ipp_client.Prelude.{
  ℕ, pos, negsuc, ◌<◌, Duration, from_secs, String, unwrap_or, ◌≡◌, refl, ap, sym, ◌∙◌, ◌↔◌, subst,
  Option, none, some, and_then, map_option, keep_if, is_positive, to_ℕ, List, [], ◌∷◌, All, map,
  arith, ℤ,
}
use ipp_client.Ipp.{integer, Group}
use ipp_client.Errors.{ok, >>=-eq-ok, ok-injective}
use ipp_client.Attrs
use ipp_client.Model.Written.{name_back, int_back, texts_back}
use ipp_client.Model.Wire.{IsKnown, IsWire, int-IsKnown, required-IsI32}
use ipp_client.Subscription.{
  NotifyEvent, printer_state_changed, printer_stopped, job_created, job_state_changed,
  job_completed, job_stopped, all, other, keyword, from_keyword, Subscription, decode_subscription,
  Notification, decode_notification,
}
use ipp_client.Subscription.Laws.{from_keyword-keyword}
use ipp_client.Subscription.Written.{
  IsPlain, IsLasting, IsHeld, IsTold, lease_seconds, subscription_group, notification_group,
  subscription-IsWire, notification-IsWire,
}

keyword-IsPlain : (e : NotifyEvent) → from_keyword (keyword e) ≡ e → IsPlain e
unfolding keyword
keyword-IsPlain (other k) h = h
keyword-IsPlain printer_state_changed h = tt
keyword-IsPlain printer_stopped h = tt
keyword-IsPlain job_created h = tt
keyword-IsPlain job_state_changed h = tt
keyword-IsPlain job_completed h = tt
keyword-IsPlain job_stopped h = tt
keyword-IsPlain all h = tt

pub from_keyword-keyword_plain : (e : NotifyEvent) → IsPlain e → from_keyword (keyword e) ≡ e
unfolding keyword from_keyword
from_keyword-keyword_plain (other k) h = h
from_keyword-keyword_plain printer_state_changed h = refl
from_keyword-keyword_plain printer_stopped h = refl
from_keyword-keyword_plain job_created h = refl
from_keyword-keyword_plain job_state_changed h = refl
from_keyword-keyword_plain job_completed h = refl
from_keyword-keyword_plain job_stopped h = refl
from_keyword-keyword_plain all h = refl

from_keyword-IsPlain : (k : String) → IsPlain (from_keyword k)
from_keyword-IsPlain k =
    keyword-IsPlain (from_keyword k) (ap from_keyword (from_keyword-keyword.0 k))

events_back : (es : List NotifyEvent) → All IsPlain es → map from_keyword (map keyword es) ≡ es
events_back [] plain = refl
events_back (e ∷ es) (plain, rest) =
    ap₂ (λ e es. e ∷ es) (from_keyword-keyword_plain e plain) (events_back es rest)

abbrev lease_read : Option ℤ → Option Duration
lease_read seconds = map_option (keep_if seconds is_positive) λ seconds. from_secs (to_ℕ seconds)

seconds_back : (n : ℕ) → 0 < n → lease_read (some (pos n)) ≡ some (from_secs n)
seconds_back n h = ground arith

lease_back :
    (lease : Option Duration)
    → IsLasting lease
    → lease_read (and_then (map_option (lease_seconds lease) integer) Attrs.as_int) ≡ lease
unfolding Attrs.as_int
lease_back none h = refl
lease_back (some d) (positive, (bound, whole)) =
    seconds_back d.secs positive
    ∙ ap (λ nanos. some (record { secs = d.secs; nanos = nanos })) (sym whole)

subscription_back :
    (s : Subscription) → IsHeld s → decode_subscription (subscription_group s) ≡ ok s
unfolding decode_subscription Attrs.require_int Attrs.text Attrs.int Attrs.texts Attrs.value
    Attrs.flatten Attrs.as_int
subscription_back s held = λ i. ok (record {
  id = s.id;
  events =
      (ap (map from_keyword) (texts_back (map keyword s.events)) ∙ events_back s.events held.events)
        i;
  lease = lease_back s.lease held.lease i;
  subscriber = name_back s.subscriber i;
})

notification_back :
    (n : Notification) → IsTold n → decode_notification (notification_group n) ≡ ok n
unfolding decode_notification Attrs.require_int Attrs.text Attrs.int Attrs.value Attrs.as_int
    Attrs.as_text
notification_back n told = λ i. ok (record {
  subscription_id = n.subscription_id;
  event = from_keyword-keyword_plain n.event told.event i;
  job_id = int_back n.job_id i;
  text = name_back n.text i;
  sequence = int_back n.sequence i;
})

events-IsPlain : (ks : List String) → All IsPlain (map from_keyword ks)
events-IsPlain [] = tt
events-IsPlain (k ∷ ks) = (from_keyword-IsPlain k, events-IsPlain ks)

lease_read-IsLasting : (seconds : Option ℤ) → IsKnown seconds → IsLasting (lease_read seconds)
lease_read-IsLasting none h = tt
lease_read-IsLasting (some (pos n)) h = ground arith
lease_read-IsLasting (some (negsuc n)) h = tt

decode_subscription-IsHeld :
    (g : Group) (s : Subscription) → IsWire g → decode_subscription g ≡ ok s → IsHeld s
unfolding decode_subscription Attrs.require_int
decode_subscription-IsHeld g s wire e =
    let a = Attrs.new g in
    let int = λ (name : String). int-IsKnown g name wire in
    let (id, e1, p1) = >>=-eq-ok (Attrs.require_int a "notify-subscription-id") _ e in
    subst IsHeld (ok-injective p1) (record {
      id =
          required-IsI32 (Attrs.int a "notify-subscription-id") _ id (int "notify-subscription-id")
            e1;
      events = events-IsPlain (Attrs.texts a "notify-events");
      lease =
          lease_read-IsLasting (Attrs.int a "notify-lease-duration") (int "notify-lease-duration");
    })

event_read-IsPlain :
    (k : Option String) → IsPlain (unwrap_or (map_option k from_keyword) (other ""))
unfolding from_keyword
event_read-IsPlain none = from_keyword-IsPlain ""
event_read-IsPlain (some k) = from_keyword-IsPlain k

decode_notification-IsTold :
    (g : Group) (n : Notification) → IsWire g → decode_notification g ≡ ok n → IsTold n
unfolding decode_notification Attrs.require_int
decode_notification-IsTold g n wire e =
    let a = Attrs.new g in
    let int = λ (name : String). int-IsKnown g name wire in
    let (id, e1, p1) = >>=-eq-ok (Attrs.require_int a "notify-subscription-id") _ e in
    subst IsTold (ok-injective p1) (record {
      subscription_id =
          required-IsI32 (Attrs.int a "notify-subscription-id") _ id (int "notify-subscription-id")
            e1;
      event = event_read-IsPlain (Attrs.text a "notify-subscribed-event");
      job_id = int "notify-job-id";
      sequence = int "notify-sequence-number";
    })

-- A subscription whose parts are written as attributes, each under its own name, has integers of 32
-- bits there and is decoded from them as it is, if and only if its id is of 32 bits, its lease, if
-- it has one, is a positive number of seconds below 2 ^ 31 without a fraction, and none of its
-- events is an `other` that holds the keyword of another event. A notification that is written in
-- the same way is decoded as it is, from integers of 32 bits, if and only if its subscription's id,
-- and its job's id and sequence number if they are known, are of 32 bits, and its event is no such
-- `other`. Texts have no greatest length here.
pub decode-IsHeld_iff :
    ((s : Subscription)
      → (IsWire (subscription_group s) × (decode_subscription (subscription_group s) ≡ ok s))
        ↔ IsHeld s)
    × ((n : Notification)
        → (IsWire (notification_group n) × (decode_notification (notification_group n) ≡ ok n))
          ↔ IsTold n)
decode-IsHeld_iff = (
  λ s. (
    λ (wire, e). decode_subscription-IsHeld (subscription_group s) s wire e,
    λ held. (subscription-IsWire s held, subscription_back s held),
  ),
  λ n. (
    λ (wire, e). decode_notification-IsTold (notification_group n) n wire e,
    λ told. (notification-IsWire n told, notification_back n told),
  ),
)
