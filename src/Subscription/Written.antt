-- ===== src/Subscription/Written.antt =====
-- Subscriptions and notifications written as attributes (ipp-async/src/subscription.rs).
use ipp_client.Prelude.{
  pos, ◌<◌, ◌^◌, Duration, ◌≡◌, Option, none, some, map_option, All, map, str_eq, if◌then◌else◌, ℤ,
}
use ipp_client.Ipp.{name_without_language, integer, array, Group}
use ipp_client.Model.Written.{texts_of}
use ipp_client.Model.Wire.{
  IsI32, IsKnown, IsWire, Carried-if, texts_of-Scalars, name-Carried, int-Carried,
}
use ipp_client.Subscription.{NotifyEvent, other, keyword, from_keyword, Subscription, Notification}

-- An event that is no `other` with a keyword of its own.
abbrev pub IsPlain : NotifyEvent → Type 0
IsPlain (other k) = from_keyword k ≡ other k
IsPlain _ = Unit

-- A lease is a positive number of seconds below 2 ^ 31 without a fraction, if there is one.
abbrev pub IsLasting : Option Duration → Type 0
IsLasting none = Unit
IsLasting (some d) = (0 < d.secs) × ((d.secs < 2 ^ 31) × (d.nanos ≡ 0))

-- The subscriptions that a server can report.
pub record IsHeld (s : Subscription) : Type 0 where
  pub id : IsI32 s.id
  pub events : All IsPlain s.events
  pub lease : IsLasting s.lease

-- The notifications that a server can report.
pub record IsTold (n : Notification) : Type 0 where
  pub subscription_id : IsI32 n.subscription_id
  pub event : IsPlain n.event
  pub job_id : IsKnown n.job_id
  pub sequence : IsKnown n.sequence

-- A lease as a server writes it.
abbrev pub lease_seconds : Option Duration → Option ℤ
lease_seconds lease = map_option lease λ d. pos d.secs

lease-IsKnown : (lease : Option Duration) → IsLasting lease → IsKnown (lease_seconds lease)
lease-IsKnown none h = tt
lease-IsKnown (some d) (positive, (bound, whole)) = bound

-- The attributes of a subscription and of a notification, as a server writes them.
abbrev pub subscription_group : Subscription → Group
subscription_group s name =
    if str_eq name "notify-subscription-id"
    then some (integer s.id)
    else if str_eq name "notify-events"
    then some (array (texts_of (map keyword s.events)))
    else if str_eq name "notify-lease-duration"
    then map_option (lease_seconds s.lease) integer
    else if str_eq name "notify-subscriber-user-name"
    then map_option s.subscriber name_without_language
    else none

abbrev pub notification_group : Notification → Group
notification_group n name =
    if str_eq name "notify-subscription-id"
    then some (integer n.subscription_id)
    else if str_eq name "notify-subscribed-event"
    then some (name_without_language (keyword n.event))
    else if str_eq name "notify-job-id"
    then map_option n.job_id integer
    else if str_eq name "notify-text"
    then map_option n.text name_without_language
    else if str_eq name "notify-sequence-number"
    then map_option n.sequence integer
    else none

pub subscription-IsWire : (s : Subscription) → IsHeld s → IsWire (subscription_group s)
unfolding IsWire
subscription-IsWire s held name = Carried-if (str_eq name "notify-subscription-id") _ _ held.id (
    Carried-if (str_eq name "notify-events") _ _ (texts_of-Scalars (map keyword s.events)) (
      Carried-if (str_eq name "notify-lease-duration") _ _
        (int-Carried (lease_seconds s.lease) (lease-IsKnown s.lease held.lease))
        (Carried-if (str_eq name "notify-subscriber-user-name") _ none (name-Carried s.subscriber)
          tt)))

pub notification-IsWire : (n : Notification) → IsTold n → IsWire (notification_group n)
unfolding IsWire
notification-IsWire n told name =
    Carried-if (str_eq name "notify-subscription-id") _ _ told.subscription_id (
      Carried-if (str_eq name "notify-subscribed-event") _ _ tt (
        Carried-if (str_eq name "notify-job-id") _ _ (int-Carried n.job_id told.job_id) (
          Carried-if (str_eq name "notify-text") _ _ (name-Carried n.text) (
            Carried-if (str_eq name "notify-sequence-number") _ none
              (int-Carried n.sequence told.sequence) tt))))
