-- ===== src/Client/Stream/Defaults.antt =====
-- How often `IppClient::events` asks for the default printer (ipp-async/src/client.rs).
use ipp_client.Prelude.{
  ℕ, ◌+◌, ◌≤◌, Bool, true, false, ◌≡◌, refl, ap, inl, inr, List, [], ◌∷◌, ◌++◌, arith,
}
use ipp_client.Errors.{Result, ok, err}
use ipp_client.Host.{Host}
use ipp_client.Session.{Session}
use ipp_client.Events.{Snapshot}
use ipp_client.Client.{Client}
use ipp_client.Client.Stream.{start_poller}
use ipp_client.Client.Stream.Watch.{watch, outcomes}
use ipp_client.Client.Stream.Queries.{Query, get_default, Grows}
use ipp_client.Client.Stream.Asked.{Start, Body}
use ipp_client.Client.Stream.Log.{is_ok, Log, watch-Log}

abbrev is_default : Query → ℕ
is_default get_default = 1
is_default _ = 0

abbrev pub defaults : List Query → ℕ
defaults [] = 0
defaults (q ∷ qs) = is_default q + defaults qs

abbrev failure : {A : Type 0} → Result A → ℕ
failure (ok a) = 0
failure (err e) = 1

abbrev pub failures : {A : Type 0} → List (Result A) → ℕ
failures [] = 0
failures (o ∷ os) = failure o + failures os

defaults-append : (qs rs : List Query) → defaults (qs ++ rs) ≡ defaults qs + defaults rs
defaults-append [] rs = omega arith
defaults-append (q ∷ qs) rs = omega (arith, defaults-append qs rs)

abbrev starts : Bool → ℕ
starts true = 0
starts false = 1

Start-defaults : (held : Bool) (d : List Query) → Start held d → defaults d ≤ starts held
Start-defaults true d e = rw e (omega arith)
Start-defaults false d (inl e) = rw e (omega arith)
Start-defaults false d (inr e) = rw e (omega arith)

Body-defaults : {A : Type 0} (o : Result A) (rest : List Query) → Body o rest → defaults rest ≡ 0
Body-defaults (ok a) rest e = ap defaults e
Body-defaults (err x) rest (inl e) = ap defaults e
Body-defaults (err x) rest (inr (inl e)) = ap defaults e
Body-defaults (err x) rest (inr (inr e)) = ap defaults e

starts-failure : {A : Type 0} (o : Result A) → starts (is_ok o) ≡ failure o
starts-failure (ok a) = refl
starts-failure (err e) = refl

Log-defaults :
    (held : Bool) (os : List (Result Snapshot)) (qs : List Query)
    → Log held os qs
    → defaults qs ≤ starts held + failures os
Log-defaults held [] qs e = rw e (omega arith)
Log-defaults held (o ∷ os) qs (d, rest, later, e, start, body, log) = rw e (
    omega (
      arith,
      defaults-append d (rest ++ later),
      defaults-append rest later,
      Start-defaults held d start,
      Body-defaults o rest body,
      Log-defaults (is_ok o) os later log,
      starts-failure o,
    ))

module _ {S : Type 0} (h : Host S) (c : Client) where
  -- Over any number of turns, whatever the service answers, the loop sends queries and nothing
  -- else: for each snapshot that it reads, one for the printers and then one for the jobs, or for a
  -- snapshot that fails an initial part of these; and before them at most one for the default, and
  -- only if the loop holds no snapshot. So the default is asked for at most once, and once more for
  -- each failure.
  pub watch-asked :
      (n : ℕ) (s : Session S)
      → let (events, last, end) = watch h c n start_poller s in
        let os = outcomes h c n start_poller s in
        (qs : List Query) × Grows s end qs × Log false os qs × (defaults qs ≤ 1 + failures os)
  watch-asked n s =
      let (qs, grown, log) = watch-Log h c n start_poller s tt in
      (qs, grown, log, Log-defaults false (outcomes h c n start_poller s) qs log)
