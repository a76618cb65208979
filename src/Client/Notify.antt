-- ===== src/Client/Notify.antt =====
-- ipp-async/src/client.rs: subscriptions to a printer's events, and their notifications.
pub mod Laws
use ipp_client.Prelude.{
  ℕ, ℤ, as_i32, false, Option, none, some, List, [], ◌∷◌, first, and_then, map_option, keep_if,
  is_positive, to_ℕ, Duration, as_secs, from_secs,
}
use ipp_client.Ipp.{
  operation_attributes, subscription_attributes, event_notification_attributes, Values, no_values,
  one_more, keyword, keyword_bound, integer, boolean, array, Request, Response,
}
use ipp_client.Errors.{Result, ok_or, ok, ◌>>=◌ as ◌>>==◌}
use ipp_client.Host.{Host}
use ipp_client.Session.{Exec, pure, lift, ◌>>=◌, ◌>>◌}
use ipp_client.Attrs
use ipp_client.Subscription
use ipp_client.Subscription.{
  NotifyEvent, Subscription, Notifications, decode_all, decode_subscription, decode_notification,
  missing,
}
use ipp_client.Client.{IppPrinter}
use ipp_client.Client.Opcodes.{
  create_printer_subscriptions, get_subscriptions, get_subscription_attributes, get_notifications,
  renew_subscription_code, cancel_subscription_code,
}
use ipp_client.Client.Requests.{put, bounded, add_int, raw_request}
use ipp_client.Client.Transfer.{send}

-- The integers of an array value.
abbrev pub integers : List ℤ → Values
integers [] = no_values
integers (i ∷ is) = one_more (integer i) (integers is)

abbrev pub poll_interval_of : Response → Option Duration
poll_interval_of resp =
    map_option
      (keep_if
        (and_then (first (resp.groups_of operation_attributes))
          λ g. Attrs.int (Attrs.new g) "notify-get-interval")
        is_positive)
      λ seconds. from_secs (to_ℕ seconds)

module _ {S : Type 0} (h : Host S) where
  -- The keyword of each event, or the first that is too long.
  unfoldable pub event_keywords : List NotifyEvent → Result Values
  unfolding bounded
  event_keywords [] = ok no_values
  event_keywords (e ∷ es) =
      bounded h keyword_bound "notify-events" "keyword too long" (Subscription.keyword e) >>== λ k.
      event_keywords es >>== λ rest. ok (one_more (keyword k) rest)

  -- `if let Some(lease) = lease`, with `lease.as_secs() as i32`.
  unfoldable pub put_lease : Option Duration → Request → Result Request
  unfolding put
  put_lease none request = ok request
  put_lease (some lease) request =
      put h subscription_attributes "notify-lease-duration" (integer (as_i32 (as_secs lease)))
        request

  module _ (p : IppPrinter) where
    abbrev raw : ℕ → Exec S Request
    raw opcode = lift (raw_request h p.client p.uri opcode)

    abbrev first_subscription : Response → Result Subscription
    first_subscription resp =
        ok_or (first (decode_all resp subscription_attributes decode_subscription))
          (missing "notify-subscription-id")

    unfoldable pub subscribe : List NotifyEvent → Option Duration → Exec S Subscription
    unfolding raw_request event_keywords bounded put put_lease send
    subscribe events lease = do
      request ← raw create_printer_subscriptions
      names ← lift (event_keywords events)
      request ← lift (put h subscription_attributes "notify-events" (array names) request)
      method ← lift (bounded h keyword_bound "notify-pull-method" "keyword too long" "ippget")
      request ← lift (put h subscription_attributes "notify-pull-method" (keyword method) request)
      request ← lift (put_lease lease request)
      resp ← send h p.client request "Create-Printer-Subscriptions"
      lift (first_subscription resp)

    unfoldable pub subscriptions : Exec S (List Subscription)
    unfolding raw_request send
    subscriptions = do
      request ← raw get_subscriptions
      resp ← send h p.client request "Get-Subscriptions"
      pure (decode_all resp subscription_attributes decode_subscription)

    unfoldable pub subscription : ℤ → Exec S Subscription
    unfolding raw_request add_int send
    subscription id = do
      request ← raw get_subscription_attributes
      request ← lift (add_int h "notify-subscription-id" id request)
      resp ← send h p.client request "Get-Subscription-Attributes"
      lift (first_subscription resp)

    unfoldable pub notifications : List ℤ → Exec S Notifications
    unfolding raw_request put send
    notifications subscription_ids = do
      request ← raw get_notifications
      request ← lift (
          put h operation_attributes "notify-subscription-ids" (array (integers subscription_ids))
            request)
      request ← lift (put h operation_attributes "notify-wait" (boolean false) request)
      resp ← send h p.client request "Get-Notifications"
      pure (record {
        events = decode_all resp event_notification_attributes decode_notification;
        poll_after = poll_interval_of resp;
      })

    unfoldable pub renew_subscription : ℤ → Option Duration → Exec S (Unit {0})
    unfolding raw_request add_int put_lease send
    renew_subscription id lease = do
      request ← raw renew_subscription_code
      request ← lift (add_int h "notify-subscription-id" id request)
      request ← lift (put_lease lease request)
      send h p.client request "Renew-Subscription"
      pure tt

    unfoldable pub cancel_subscription : ℤ → Exec S (Unit {0})
    unfolding raw_request add_int send
    cancel_subscription id = do
      request ← raw cancel_subscription_code
      request ← lift (add_int h "notify-subscription-id" id request)
      send h p.client request "Cancel-Subscription"
      pure tt
