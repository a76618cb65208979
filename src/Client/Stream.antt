-- ===== src/Client/Stream.antt =====
-- ipp-async/src/client.rs: `IppClient::events`, the polling loop, one turn at a time.
pub mod Laws
pub mod Watch
pub mod Queries
pub mod Asked
pub mod Log
pub mod Defaults
pub mod Mirror
pub mod Known
use ipp_client.Prelude.{ℕ, Option, none, some, List, [], ◌∷◌, map}
use ipp_client.Errors.{Result, ok, err}
use ipp_client.Host.{Host}
use ipp_client.Session.{Session, Exec, pure, attempt, ◌>>=◌, ◌>>◌}
use ipp_client.Events.{PrinterEvent, resynchronised, Snapshot, diff, poll_interval, backoff_after}
use ipp_client.Client.{Client}
use ipp_client.Client.Default.{invalidate_default_printer_cache}
use ipp_client.Client.Queries.{snapshot}

-- The variables that live across turns.
pub record Poller : Type 0 where
  pub previous : Option Snapshot
  pub backoff : ℕ

abbrev pub start_poller : Poller
start_poller = record { previous = none; backoff = 0 }

-- What a turn yields, how long it sleeps after that, and the variables for the next turn.
pub record Turn : Type 0 where
  pub yields : List (Result PrinterEvent)
  pub sleep : ℕ
  pub next : Poller

abbrev pub events_for : Option Snapshot → Snapshot → List PrinterEvent
events_for none current = resynchronised current.printers current.jobs ∷ []
events_for (some before) current = diff before current

-- The match on the outcome of `snapshot`.
unfoldable pub turn : Poller → Result Snapshot → Turn
turn p (ok current) = record {
  yields = map ok (events_for p.previous current);
  sleep = poll_interval;
  next = record { previous = some current; backoff = 0 };
}
turn p (err e) =
    let backoff = backoff_after p.backoff in
    record {
      yields = err e ∷ [];
      sleep = backoff;
      next = record { previous = none; backoff = backoff };
    }

module _ {S : Type 0} (h : Host S) (c : Client) where
  abbrev pub refresh : Option Snapshot → Exec S (Unit {0})
  refresh none = invalidate_default_printer_cache
  refresh (some before) = pure tt

  -- One turn of the loop. It has no error of its own: errors are yielded.
  unfoldable pub poll : Poller → Exec S Turn
  unfolding invalidate_default_printer_cache snapshot turn
  poll p = do refresh p.previous; outcome ← attempt (snapshot h c); pure (turn p outcome)
