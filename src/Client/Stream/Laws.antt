-- ===== src/Client/Stream/Laws.antt =====
-- What a consumer of `IppClient::events` (ipp-async/src/client.rs) sees over many turns.
use ipp_client.Prelude.{
  length, ◌+◌, ℕ, suc, ◌≡◌, refl, ◌∙◌, ap, Option, none, some, List, [], ◌∷◌, ◌++◌, map, arith, All,
  min, ◌^◌, filter_map, filter_map-append,
}
use ipp_client.Errors.{Error, Result, ok, err}
use ipp_client.Subscription.{to_option}
use ipp_client.Events.{
  PrinterEvent, resynchronised, Snapshot, diff, backoff_after, max_backoff, poll_interval,
}
use ipp_client.Events.Replay.{
  View, view, apply, follow, SameView, IsValid, job-follow, printer-follow, follow-diff,
}
use ipp_client.Events.Backoff.{delay_after, delay_after_lem}
use ipp_client.Client.Stream.{Poller, start_poller, turn, events_for, poll}
use ipp_client.Client.{Client}
use ipp_client.Host.{Host}
use ipp_client.Session.{Session}
use ipp_client.Client.Default.{invalidate_default_printer_cache}

-- What the stream yields over the turns whose snapshots had these outcomes, and the variables of
-- the loop after them.
unfoldable pub yielded : Poller → List (Result Snapshot) → List (Result PrinterEvent)
unfolding turn
yielded p [] = []
yielded p (o ∷ os) = let t = turn p o in t.yields ++ yielded t.next os

unfoldable pub after : Poller → List (Result Snapshot) → Poller
unfolding turn
after p [] = p
after p (o ∷ os) = after ((turn p o).next) os

-- The events among what is yielded.
abbrev pub heard : List (Result PrinterEvent) → List PrinterEvent
heard = filter_map to_option

abbrev pub OutcomeIsValid : Result Snapshot → Type 0
OutcomeIsValid (ok s) = IsValid s
OutcomeIsValid (err e) = Unit

-- The consumer's view is that of the snapshot that the loop keeps, if it keeps one.
abbrev pub InStep : Option Snapshot → View → Type 0
InStep none v = Unit
InStep (some s) v = SameView v (view s)

heard_ok : (es : List PrinterEvent) → heard (map ok es) ≡ es
heard_ok [] = refl
heard_ok (e ∷ es) = ap (λ t. e ∷ t) (heard_ok es)

follow-same :
    (a b : View) (es : List PrinterEvent) → SameView a b → SameView (follow a es) (follow b es)
follow-same a b es same = record {
  jobs = λ k. rw (job-follow, job-follow, same.jobs k);
  printers = λ n. rw (printer-follow, printer-follow, same.printers n);
}

events_for-InStep :
    (before : Option Snapshot) (current : Snapshot) (v : View)
    → InStep before v
    → IsValid current
    → SameView (follow v (events_for before current)) (view current)
unfolding follow
events_for-InStep none current v h valid = record { jobs = λ k. refl; printers = λ n. refl }
events_for-InStep (some s) current v h valid =
    let same = follow-same v (view s) (diff s current) h in
    let there = follow-diff s current valid in
    record {
      jobs = λ k. same.jobs k ∙ there.jobs k;
      printers = λ n. same.printers n ∙ there.printers n;
    }

turn-InStep :
    (p : Poller) (o : Result Snapshot) (v : View)
    → InStep p.previous v
    → OutcomeIsValid o
    → InStep (turn p o).next.previous (follow v (heard (turn p o).yields))
unfolding turn
turn-InStep p (ok s) v h valid = rw heard_ok (events_for-InStep p.previous s v h valid)
turn-InStep p (err e) v h valid = tt

follow-append :
    (v : View) (es fs : List PrinterEvent) → follow v (es ++ fs) ≡ follow (follow v es) fs
unfolding follow
follow-append v [] fs = refl
follow-append v (e ∷ es) fs = follow-append (apply v e) es fs

run-InStep :
    (p : Poller) (os : List (Result Snapshot)) (v : View)
    → InStep p.previous v
    → All OutcomeIsValid os
    → InStep (after p os).previous (follow v (heard (yielded p os)))
unfolding after yielded follow
run-InStep p [] v h valid = h
run-InStep p (o ∷ os) v h valid =
    let t = turn p o in
    rw (filter_map-append to_option t.yields, follow-append v (heard t.yields))
      (run-InStep t.next os (follow v (heard t.yields)) (turn-InStep p o v h valid.0) valid.1)

-- Whatever the outcomes of the snapshots are, as long as no snapshot lists an id or a name twice,
-- a consumer that follows the events yielded since the start has the view of the snapshot that the
-- loop keeps, whenever it keeps one; no view is assumed at the start.
pub yielded-follow :
    (os : List (Result Snapshot)) (v : View)
    → All OutcomeIsValid os
    → InStep (after start_poller os).previous (follow v (heard (yielded start_poller os)))
yielded-follow os v valid = run-InStep start_poller os v tt valid

-- The loop after outcomes that end in a success keeps that snapshot and no delay.
pub after-ok :
    (p : Poller) (os : List (Result Snapshot)) (s : Snapshot)
    → after p (os ++ (ok s ∷ [])) ≡ record { previous = some s; backoff = 0 }
unfolding after turn
after-ok p [] s = refl
after-ok p (o ∷ os) s = after-ok ((turn p o).next) os s

after-append :
    (p : Poller) (os rest : List (Result Snapshot)) → after p (os ++ rest) ≡ after (after p os) rest
unfolding after
after-append p [] rest = refl
after-append p (o ∷ os) rest = after-append ((turn p o).next) os rest

after-backoff :
    (p : Poller) (es : List Error) (n : ℕ)
    → p.backoff ≡ delay_after n
    → (after p (map err es)).backoff ≡ delay_after (n + length es)
unfolding after turn
after-backoff p [] n h = h ∙ ap delay_after (omega arith)
after-backoff p (e ∷ es) n h =
    after-backoff ((turn p (err e)).next) es (suc n) (ap backoff_after h)
    ∙ ap delay_after (omega arith)

-- A turn that fails behind a success and then k failures yields its error alone and sleeps 2 ^ k
-- seconds, at most 30; this holds after any earlier outcomes.
pub turn-failures :
    (os : List (Result Snapshot)) (s : Snapshot) (es : List Error) (e : Error)
    → ((turn (after start_poller ((os ++ (ok s ∷ [])) ++ map err es)) (err e)).yields ≡ err e ∷ [])
      × ((turn (after start_poller ((os ++ (ok s ∷ [])) ++ map err es)) (err e)).sleep
          ≡ min (2 ^ length es) max_backoff)
unfolding turn
turn-failures os s es e = (
  refl,
  rw (after-append start_poller (os ++ (ok s ∷ [])) (map err es), after-ok start_poller os s)
      (ap backoff_after (
          after-backoff (record { previous = some s; backoff = 0 }) es 0 refl
          ∙ ap delay_after (omega arith))
        ∙ delay_after_lem (length es)),
)

-- The first success behind a failure yields the whole snapshot as one event, and the loop then
-- sleeps the usual interval, whatever came before.
pub turn-recovery :
    (os : List (Result Snapshot)) (e : Error) (s : Snapshot)
    → ((turn (after start_poller (os ++ (err e ∷ []))) (ok s)).yields
        ≡ ok (resynchronised s.printers s.jobs) ∷ [])
      × ((turn (after start_poller (os ++ (err e ∷ []))) (ok s)).sleep ≡ poll_interval)
unfolding after turn
turn-recovery os e s = (rw (after-append start_poller os (err e ∷ [])), refl)

module _ {S : Type 0} (h : Host S) (c : Client) where
  -- A turn of a loop that keeps no snapshot, as after a failure, does not read the cached default
  -- printer: it does the same as on an empty cache.
  pub poll-uncached :
      (p : Poller) (s : Session S)
      → p.previous ≡ none
      → poll h c p s ≡ poll h c p (record s { cache = none })
  unfolding poll invalidate_default_printer_cache
  poll-uncached p s e = rw e
