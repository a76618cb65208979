-- ===== src/Client/Stream/Watch.antt =====
-- The loop of `IppClient::events` (ipp-async/src/client.rs) over a service: some turns in a row,
-- and what a consumer of them knows.
use ipp_client.Prelude.{
  ℕ, zero, suc, ◌≡◌, refl, ap, ◌∙◌, sym, subst, Option, none, some, List, [], ◌∷◌, ◌++◌, All,
}
use ipp_client.Errors.{Result, ok, err}
use ipp_client.Host.{Host}
use ipp_client.Session.{Session, continue, attempt, pure}
use ipp_client.Events.{PrinterEvent, Snapshot}
use ipp_client.Events.Replay.{View, follow}
use ipp_client.Client.{Client}
use ipp_client.Client.Default.{invalidate_default_printer_cache}
use ipp_client.Client.Queries.{snapshot}
use ipp_client.Client.Stream.{Poller, Turn, start_poller, refresh, turn, poll}
use ipp_client.Client.Stream.Laws.{after, yielded, heard, OutcomeIsValid, InStep, yielded-follow}

module _ {S : Type 0} (h : Host S) (c : Client) where
  abbrev pub Watched : Type 0
  Watched = List (Result PrinterEvent) × Poller × Session S

  -- A turn and what comes after it.
  abbrev pub and_on : Poller → (Poller → Session S → Watched) → Result Turn × Session S → Watched
  and_on p rest (err e, s) = ([], p, s)
  and_on p rest (ok t, s) =
      let (events, last, end) = rest t.next s in (t.yields ++ events, last, end)

  -- So many turns: all that they yield, and the variables and the session that they leave.
  unfoldable pub watch : ℕ → Poller → Session S → Watched
  watch zero p s = ([], p, s)
  watch (suc n) p s = and_on p (watch n) (poll h c p s)

  -- The session in which a turn asks for its snapshot.
  abbrev pub refreshed : Option Snapshot → Session S → Session S
  refreshed none s = record s { cache = none }
  refreshed (some before) s = s

  -- The outcomes of the snapshots of so many turns.
  unfoldable pub outcomes : ℕ → Poller → Session S → List (Result Snapshot)
  outcomes zero p s = []
  outcomes (suc n) p s =
      let (outcome, t) = snapshot h c (refreshed p.previous s) in
      outcome ∷ outcomes n (turn p outcome).next t

  refresh_lem : (o : Option Snapshot) (s : Session S) → refresh h c o s ≡ (ok tt, refreshed o s)
  unfolding invalidate_default_printer_cache
  refresh_lem none s = refl
  refresh_lem (some before) s = refl

  pub poll_lem :
      (p : Poller) (s : Session S)
      → let (outcome, t) = snapshot h c (refreshed p.previous s) in
        poll h c p s ≡ (ok (turn p outcome), t)
  unfolding poll
  poll_lem p s =
      ap
        (λ (x : Result (Unit {0}) × Session S).
          continue x.0
            (λ u t.
              continue (attempt (snapshot h c) t).0 (λ o. pure (turn p o))
                (attempt (snapshot h c) t).1)
            x.1)
        (refresh_lem p.previous s)

  pub watch-yielded :
      (n : ℕ) (p : Poller) (s : Session S)
      → ((watch n p s).0 ≡ yielded p (outcomes n p s))
        × ((watch n p s).1 ≡ after p (outcomes n p s))
  unfolding watch outcomes yielded after
  watch-yielded zero p s = (refl, refl)
  watch-yielded (suc n) p s =
      let (outcome, t) = snapshot h c (refreshed p.previous s) in
      let (events, last) = watch-yielded n (turn p outcome).next t in
      let one = ap (and_on p (watch n)) (poll_lem p s) in
      (
        ap (λ (w : Watched). w.0) one ∙ ap (λ rest. (turn p outcome).yields ++ rest) events,
        ap (λ (w : Watched). w.1) one ∙ last,
      )

  -- After any number of turns of the loop, whatever the service answers, and as long as no
  -- snapshot lists an id or a name twice: a consumer that follows the events yielded since the
  -- start has the view of the snapshot that the loop keeps, whenever it keeps one; no view is
  -- assumed at the start.
  pub watch-follow :
      (n : ℕ) (s : Session S) (v : View)
      → All OutcomeIsValid (outcomes n start_poller s)
      → let (events, last, end) = watch n start_poller s in
        InStep last.previous (follow v (heard events))
  watch-follow n s v valid =
      let (events, last) = watch-yielded n start_poller s in
      subst (λ (q : Poller). InStep q.previous (follow v (heard (watch n start_poller s).0)))
        (sym last)
        (subst
          (λ es.
            InStep (after start_poller (outcomes n start_poller s)).previous (follow v (heard es)))
          (sym events) (yielded-follow (outcomes n start_poller s) v valid))
