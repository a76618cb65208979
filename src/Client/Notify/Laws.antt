-- ===== src/Client/Notify/Laws.antt =====
-- What a subscription asks for (ipp-async/src/client.rs).
use mathlib.Core.Path.{ap₂}
use mathlib.Core.List.{append-nil}
use ipp_client.Prelude.{
  Duration, as_secs, pos, as_i32, as_i32-small, ◌<◌, String, ◌≡◌, ◌∙◌, sym, ap, ◌^◌, Option, none,
  some, List, [], ◌∷◌, ◌++◌,
}
use ipp_client.Ipp.{
  Tag, subscription_attributes, Value, Values, no_values, one_more, keyword, keyword_bound, integer,
  array, Attribute, Request,
}
use ipp_client.Errors.{ok, ok-injective, >>=-eq-ok as bind-eq-ok}
use ipp_client.Host.{Host}
use ipp_client.Session.{Exec, lift, ◌>>=◌}
use ipp_client.Subscription
use ipp_client.Subscription.{NotifyEvent, Subscription, decode_all, decode_subscription}
use ipp_client.Client.{IppPrinter}
use ipp_client.Client.Opcodes.{create_printer_subscriptions}
use ipp_client.Client.Requests.{bounded}
use ipp_client.Client.Requests.Laws.{put-eq-ok, bounded-eq-ok}
use ipp_client.Client.Transfer.Sends.{Sends, Sends-known, raw_with, operation_rules}
use ipp_client.Client.Notify.{event_keywords, put_lease, subscribe}

abbrev pub event_values : List NotifyEvent → Values
event_values [] = no_values
event_values (e ∷ es) = one_more (keyword (Subscription.keyword e)) (event_values es)

abbrev named : String → Value → Tag × Attribute
named name value = (subscription_attributes, record { name = name; value = value })

-- Without a lease no attribute is sent, and the server chooses.
abbrev pub lease_attributes : Option Duration → List (Tag × Attribute)
lease_attributes none = []
lease_attributes (some n) = named "notify-lease-duration" (integer (as_i32 (as_secs n))) ∷ []

abbrev pub requested_attributes : List NotifyEvent → Option Duration → List (Tag × Attribute)
requested_attributes events lease =
    named "notify-events" (array (event_values events))
    ∷ named "notify-pull-method" (keyword "ippget")
    ∷ lease_attributes lease

module _ {S : Type 0} (h : Host S) where
  event_keywords-eq-ok :
      (es : List NotifyEvent) (v : Values) → event_keywords h es ≡ ok v → v ≡ event_values es
  unfolding event_keywords
  event_keywords-eq-ok [] v e = sym (ok-injective e)
  event_keywords-eq-ok (x ∷ es) v e =
      let (k, e1, p1) =
        bind-eq-ok
          (bounded h keyword_bound "notify-events" "keyword too long" (Subscription.keyword x)) _
          e in
      let (rest, e2, p2) = bind-eq-ok (event_keywords h es) _ p1 in
      sym (ok-injective p2)
      ∙ ap₂ (λ k rest. one_more (keyword k) rest) (bounded-eq-ok h _ _ _ _ k e1)
          (event_keywords-eq-ok es rest e2)

  pub put_lease-eq-ok :
      (lease : Option Duration) (r t : Request)
      → put_lease h lease r ≡ ok t
      → t ≡ record r { attributes = r.attributes ++ lease_attributes lease }
  unfolding put_lease
  put_lease-eq-ok none r t e =
      sym (ok-injective e) ∙ ap (λ l. record r { attributes = l }) (sym (append-nil r.attributes))
  put_lease-eq-ok (some n) r t e = put-eq-ok h _ _ _ r t e

  pub Sends-put_lease :
      {B : Type 0} (lease : Option Duration) (q : Request) (next : Request → Exec S B) (r : Request)
      → Sends (next (record q { attributes = q.attributes ++ lease_attributes lease })) r
      → Sends (lift (put_lease h lease q) >>= next) r
  Sends-put_lease lease q next r =
      Sends-known (put_lease h lease q) _ next r (put_lease-eq-ok lease q)

  Sends-event_keywords :
      {B : Type 0} (es : List NotifyEvent) (next : Values → Exec S B) (r : Request)
      → Sends (next (event_values es)) r
      → Sends (lift (event_keywords h es) >>= next) r
  Sends-event_keywords es next r =
      Sends-known (event_keywords h es) (event_values es) next r (event_keywords-eq-ok es)

  -- Subscribing names the events by their keywords in their order, the pull method, and the lease
  -- if one is asked for.
  pub subscribe-Sends :
      (p : IppPrinter) (events : List NotifyEvent) (lease : Option Duration)
      → Sends
          (subscribe h p events lease)
          (raw_with p.client p.uri create_printer_subscriptions (requested_attributes events lease))
  unfolding subscribe
  subscribe-Sends p events lease =
      search (operation_rules, Sends-event_keywords, Sends-put_lease) depth 8

  -- Of a lease below 2 ^ 31 seconds, the whole seconds are asked for.
  lease-exact :
      (d : Duration)
      → d.secs < 2 ^ 31
      → lease_attributes (some d) ≡ named "notify-lease-duration" (integer (pos d.secs)) ∷ []
  lease-exact d h = ap (λ i. named "notify-lease-duration" (integer i) ∷ []) (as_i32-small d.secs h)
