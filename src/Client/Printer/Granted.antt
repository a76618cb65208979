-- ===== src/Client/Printer/Granted.antt =====
-- A subscription that a server grants as it was asked for, read back: the request of
-- ipp-async/src/client.rs against the decoder of subscription.rs.
use mathlib.Core.Path.{ap₂}
use ipp_client.Prelude.{
  Duration, as_secs, from_secs, ℤ, as_i32, is_positive, to_ℕ, ◌<◌, ◌^◌, Bool, true, false, ◌≡◌,
  refl, ap, ◌∙◌, ◌↔◌, Option, none, some, map_option, keep_if, List, [], ◌∷◌, All, map, str_eq,
  arith, if◌then◌else◌, ◌&&◌,
}
use ipp_client.Ipp.{
  Tag, subscription_attributes, integer, new_request, get_printer_attributes, Attribute, Group,
  Response,
}
use ipp_client.Errors.{ok}
use ipp_client.Host.{Host, done}
use ipp_client.Session.{Session}
use ipp_client.Attrs
use ipp_client.Subscription.{
  NotifyEvent, Subscription, from_keyword, decode_all, decode_subscription,
}
use ipp_client.Subscription.Exact.{from_keyword-keyword_plain}
use ipp_client.Subscription.Written.{IsPlain}
use ipp_client.Client.{IppPrinter}
use ipp_client.Client.Notify.{subscribe}
use ipp_client.Client.Notify.Laws.{event_values}
use ipp_client.Client.Printer.Calls.{subscribing, call_request}
use ipp_client.Client.Printer.Answered.{texts_of, perform-decoded}
use ipp_client.Client.Transfer.Gives.{Fit, Taken}

abbrev is_subscription : Tag → Bool
is_subscription subscription_attributes = true
is_subscription _ = false

-- The value that a request gives a subscription's attribute.
abbrev asked : List (Tag × Attribute) → Group
asked [] name = none
asked ((tag, a) ∷ rest) name =
    let later = asked rest name in
    if is_subscription tag && str_eq a.name name then some a.value else later

-- The subscription that a request asks for, under an id.
abbrev pub granted : ℤ → List (Tag × Attribute) → Group
granted id attributes name =
    if str_eq name "notify-subscription-id" then some (integer id) else asked attributes name

-- A lease that can be asked for: none, or whole seconds, from one to below 2 ^ 31.
abbrev pub IsLease : Option Duration → Type 0
IsLease none = Unit
IsLease (some d) = (0 < d.secs) × (d.secs < 2 ^ 31) × (d.nanos ≡ 0)

abbrev lease_read : Option Duration → Option Duration
lease_read lease =
    map_option (keep_if (map_option lease λ d. as_i32 (as_secs d)) is_positive)
      λ seconds. from_secs (to_ℕ seconds)

IsLease-iff : (lease : Option Duration) → (lease_read lease ≡ lease) ↔ IsLease lease
unfolding as_i32
IsLease-iff none = ground arith
IsLease-iff (some n) = ground arith

events_back :
    (es : List NotifyEvent)
    → All IsPlain es
    → map from_keyword (Attrs.filter_values Attrs.as_text (event_values es)) ≡ es
unfolding Attrs.filter_values Attrs.as_text
events_back [] plain = refl
events_back (e ∷ es) (plain, rest) =
    ap₂ (λ e es. e ∷ es) (from_keyword-keyword_plain e plain) (events_back es rest)

decode-granted :
    (p : IppPrinter) (id : ℤ) (events : List NotifyEvent) (lease : Option Duration)
    → decode_subscription (granted id (call_request p (subscribing events lease)).attributes)
      ≡ ok (record {
        id = id;
        events = map from_keyword (Attrs.filter_values Attrs.as_text (event_values events));
        lease = lease_read lease;
        subscriber = none;
      })
unfolding decode_subscription Attrs.require_int Attrs.int Attrs.text Attrs.texts Attrs.value
    Attrs.flatten Attrs.as_int
decode-granted p id events none = refl
decode-granted p id events (some n) = refl

module _ {S : Type 0} (h : Host S) (p : IppPrinter) where
  -- If the crate takes what a subscription asks for, and the server grants it as it was asked for,
  -- under an id, then subscribing succeeds with this id and the events that were asked for, none of
  -- them an `other` with a keyword of its own; and with the lease that was asked for if and only if
  -- there is none or it is of whole seconds, at least one and below 2 ^ 31 of them.
  pub subscribe-granted :
      (events : List NotifyEvent) (lease : Option Duration) (id : ℤ) (resp : Response)
      (s : Session S)
      → h.build_error (new_request get_printer_attributes (some p.uri)) ≡ none
      → Fit h (texts_of p (subscribing events lease))
      → Taken h (call_request p (subscribing events lease)).attributes
      → All IsPlain events
      → (h.send p.client.inner (call_request p (subscribing events lease)) s.server).0 ≡ done resp
      → h.is_success resp.status ≡ true
      → resp.groups_of subscription_attributes
        ≡ granted id (call_request p (subscribing events lease)).attributes ∷ []
      → (sub : Subscription) × ((subscribe h p events lease s).0 ≡ ok sub)
        × (sub.id ≡ id)
        × (sub.events ≡ events)
        × ((sub.lease ≡ lease) ↔ IsLease lease)
  unfolding decode_all
  subscribe-granted events lease id resp s built fit taken plain answered success echoed = (
    record {
      id = id;
      events = map from_keyword (Attrs.filter_values Attrs.as_text (event_values events));
      lease = lease_read lease;
      subscriber = none;
    },
    ap (λ x. x.0) (perform-decoded h p (subscribing events lease) s built fit taken)
        ∙ rw (answered, success, echoed, decode-granted p id events lease),
    refl,
    events_back events plain,
    IsLease-iff lease,
  )
