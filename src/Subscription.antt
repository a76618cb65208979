-- ===== src/Subscription.antt =====
-- ipp-async/src/subscription.rs: events, subscriptions, notifications, and the decoding of every
-- group of a response that can be read.
pub mod Laws
pub mod Written
pub mod Exact
use ipp_client.Prelude.{
  ℕ, ℤ, String, Option, none, some, List, [], ◌∷◌, map, map_option, keep_if, unwrap_or, filter_map,
  is_positive, to_ℕ, Duration, from_secs, str_eq, if◌then◌else◌,
}
use ipp_client.Ipp.{Tag, Group, Response}
use ipp_client.Errors.{Error, Result, ok, err, ◌>>=◌, decode}
use ipp_client.Attrs

pub data NotifyEvent : Type 0 where
  printer_state_changed printer_stopped job_created job_state_changed : NotifyEvent
  job_completed job_stopped all : NotifyEvent
  other : String → NotifyEvent

unfoldable pub keyword : NotifyEvent → String
keyword printer_state_changed = "printer-state-changed"
keyword printer_stopped = "printer-stopped"
keyword job_created = "job-created"
keyword job_state_changed = "job-state-changed"
keyword job_completed = "job-completed"
keyword job_stopped = "job-stopped"
keyword all = "all"
keyword (other k) = k

unfoldable pub from_keyword : String → NotifyEvent
from_keyword k =
    if str_eq k "printer-state-changed"
    then printer_state_changed
    else if str_eq k "printer-stopped"
    then printer_stopped
    else if str_eq k "job-created"
    then job_created
    else if str_eq k "job-state-changed"
    then job_state_changed
    else if str_eq k "job-completed"
    then job_completed
    else if str_eq k "job-stopped"
    then job_stopped
    else if str_eq k "all"
    then all
    else other k

pub record Subscription : Type 0 where
  pub id : ℤ
  pub events : List NotifyEvent
  pub lease : Option Duration
  pub subscriber : Option String

unfoldable pub decode_subscription : Group → Result Subscription
unfolding from_keyword
decode_subscription group = do
  let a = Attrs.new group
  id ← Attrs.require_int a "notify-subscription-id"
  ok (record {
    id = id;
    events = map from_keyword (Attrs.texts a "notify-events");
    lease =
        map_option (keep_if (Attrs.int a "notify-lease-duration") is_positive)
          λ seconds. from_secs (to_ℕ seconds);
    subscriber = Attrs.text a "notify-subscriber-user-name";
  })

pub record Notification : Type 0 where
  pub subscription_id : ℤ
  pub event : NotifyEvent
  pub job_id : Option ℤ
  pub text : Option String
  pub sequence : Option ℤ

unfoldable pub decode_notification : Group → Result Notification
unfolding from_keyword
decode_notification group = do
  let a = Attrs.new group
  subscription_id ← Attrs.require_int a "notify-subscription-id"
  ok (record {
    subscription_id = subscription_id;
    event = unwrap_or (map_option (Attrs.text a "notify-subscribed-event") from_keyword) (other "");
    job_id = Attrs.int a "notify-job-id";
    text = Attrs.text a "notify-text";
    sequence = Attrs.int a "notify-sequence-number";
  })

pub record Notifications : Type 0 where
  pub events : List Notification
  pub poll_after : Option Duration

-- `Ok` is kept, `Err` is logged and skipped.
abbrev pub to_option {ℓ} : {T : Type ℓ} → Result T → Option T
to_option (ok a) = some a
to_option (err e) = none

unfoldable pub decode_all {ℓ} : {T : Type ℓ} → Response → Tag → (Group → Result T) → List T
decode_all resp tag decode = filter_map (λ group. to_option (decode group)) (resp.groups_of tag)

unfoldable pub missing : String → Error
missing what = decode what "not present in the response"
