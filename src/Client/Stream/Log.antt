-- ===== src/Client/Stream/Log.antt =====
-- The queries of the turns of `IppClient::events` (ipp-async/src/client.rs), in a row.
use mathlib.Core.List.{append_assoc}
use ipp_client.Prelude.{
  ℕ, zero, suc, String, Bool, true, false, ◌≡◌, refl, ap, sym, subst, Option, none, some, List, [],
  ◌∷◌, ◌++◌,
}
use ipp_client.Errors.{Result, ok, err}
use ipp_client.Host.{Host}
use ipp_client.Session.{Session}
use ipp_client.Events.{Snapshot}
use ipp_client.Client.{Client}
use ipp_client.Client.Queries.{snapshot}
use ipp_client.Client.Stream.{Poller, turn}
use ipp_client.Client.Stream.Watch.{Watched, watch, and_on, outcomes, refreshed, poll_lem}
use ipp_client.Client.Stream.Queries.{Query, Grows, Grows-nil, Grows-trans}
use ipp_client.Client.Stream.Asked.{Start, Body, is_cached, snapshot-Told}

abbrev pub is_ok : {A : Type 0} → Result A → Bool
is_ok (ok a) = true
is_ok (err e) = false

-- The queries of turns with these outcomes, from a loop that holds a snapshot or holds none.
abbrev pub Log : Bool → List (Result Snapshot) → List Query → Type 0
Log held [] qs = qs ≡ []
Log held (o ∷ os) qs =
    (d : List Query) × (rest : List Query) × (later : List Query) × (qs ≡ d ++ (rest ++ later))
    × Start held d
    × Body o rest
    × Log (is_ok o) os later

module _ {S : Type 0} (h : Host S) (c : Client) where
  -- A loop that holds a snapshot has the default in its cache.
  abbrev Holds : Option Snapshot → Session S → Type 0
  Holds none s = Unit
  Holds (some before) s = (name : Option String) × (s.cache ≡ some name)

  abbrev pub is_held : Option Snapshot → Bool
  is_held none = false
  is_held (some before) = true

  cached-Holds :
      (o : Option Snapshot) (s : Session S) (name : Option String) → s.cache ≡ some name → Holds o s
  cached-Holds none s name e = tt
  cached-Holds (some before) s name e = (name, e)

  refreshed-Start :
      (o : Option Snapshot) (s : Session S) (d : List Query)
      → Holds o s
      → Start (is_cached h c (refreshed h c o s).cache) d
      → Start (is_held o) d
  refreshed-Start none s d held starts = starts
  refreshed-Start (some before) s d (name, e) starts =
      subst (λ o. Start (is_cached h c o) d) e starts

  refreshed-Grows :
      (o : Option Snapshot) (s t : Session S) (qs : List Query)
      → Grows (refreshed h c o s) t qs
      → Grows s t qs
  refreshed-Grows none s t qs grown = grown
  refreshed-Grows (some before) s t qs grown = grown

  next-Log :
      (p : Poller) (o : Result Snapshot) (os : List (Result Snapshot)) (qs : List Query)
      → Log (is_held (turn p o).next.previous) os qs
      → Log (is_ok o) os qs
  unfolding turn
  next-Log p (ok current) os qs log = log
  next-Log p (err e) os qs log = log

  pub watch-Log :
      (n : ℕ) (p : Poller) (s : Session S)
      → Holds p.previous s
      → (qs : List Query) × Grows s (watch h c n p s).2 qs
        × Log (is_held p.previous) (outcomes h c n p s) qs
  unfolding watch outcomes
  watch-Log zero p s held = ([], Grows-nil s, refl)
  watch-Log (suc n) p s held =
      let (outcome, t) = snapshot h c (refreshed h c p.previous s) in
      let q : Poller = (turn p outcome).next in
      let (d, rest, grown, starts, kind, cached) = snapshot-Told h c (refreshed h c p.previous s) in
      let (later, more, log) = watch-Log n q t (cached-Holds q.previous t cached.0 cached.1) in
      let end : (watch h c (suc n) p s).2 ≡ (watch h c n q t).2 =
        ap (λ (w : Watched h c). w.2) (ap (and_on h c p (watch h c n)) (poll_lem h c p s)) in
      let all : Grows s (watch h c n q t).2 ((d ++ rest) ++ later) =
        Grows-trans s t (watch h c n q t).2 (d ++ rest) later
          (refreshed-Grows p.previous s t (d ++ rest) grown) more in
      (
        d ++ (rest ++ later),
        subst (λ u. Grows s u (d ++ (rest ++ later))) (sym end)
            (subst (Grows s (watch h c n q t).2) (append_assoc d rest later) all),
        (
          d,
          rest,
          later,
          refl,
          refreshed-Start p.previous s d held starts,
          kind,
          next-Log p outcome (outcomes h c n q t) later log,
        ),
      )
