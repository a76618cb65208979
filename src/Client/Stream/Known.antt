-- ===== src/Client/Stream/Known.antt =====
-- What a consumer of `IppClient::events` knows of the daemon after a turn that the daemon answers
-- (ipp-async/src/client.rs, events.rs).
use ipp_client.Prelude.{
  String, ◌||◌, ℕ, zero, suc, ◌≡◌, refl, ap, ◌∙◌, sym, subst, Option, some, List, [], ◌∷◌, ◌++◌,
  map, All, All-append, str_eq,
}
use ipp_client.Errors.{ok}
use ipp_client.Host.{Host}
use ipp_client.Session.{Session}
use ipp_client.Model.Printer.{Printer}
use ipp_client.Model.Job.{Job}
use ipp_client.Events.{name_of}
use ipp_client.Events.Keyed.{Unique, has}
use ipp_client.Events.Replay.{View, view, follow, SameView, IsValid}
use ipp_client.Client.{Client}
use ipp_client.Client.Transfer.{mark_default}
use ipp_client.Client.Queries.{snapshot}
use ipp_client.Client.Stream.{Poller, start_poller, turn}
use ipp_client.Client.Stream.Laws.{after, after-ok, heard, OutcomeIsValid, InStep}
use ipp_client.Client.Stream.Watch.{
  Watched, watch, outcomes, refreshed, poll_lem, and_on, watch-yielded, watch-follow,
}
use ipp_client.Client.Stream.Mirror.{Reports, mirrored, snapshot-mirrored}

module _ {S : Type 0} (h : Host S) (c : Client) where
  -- The last of some turns.
  watch-last :
      (n : ℕ) (p : Poller) (s : Session S)
      → let (events, last, t) = watch h c n p s in
        let (o, u) = snapshot h c (refreshed h c last.previous t) in
        ((watch h c (suc n) p s).2 ≡ u)
        × (outcomes h c (suc n) p s ≡ outcomes h c n p s ++ (o ∷ []))
  unfolding watch outcomes
  watch-last zero p s = (ap (λ w. w.2) (ap (and_on h c p (watch h c 0)) (poll_lem h c p s)), refl)
  watch-last (suc n) p s =
      let (o, t) = snapshot h c (refreshed h c p.previous s) in
      let one = λ (k : ℕ). ap (and_on h c p (watch h c k)) (poll_lem h c p s) in
      let (end, os) = watch-last n (turn p o).next t in
      subst
        (λ (w : Watched h c).
          let (o, u) = snapshot h c (refreshed h c w.1.previous w.2) in
          ((watch h c (suc (suc n)) p s).2 ≡ u)
          × (outcomes h c (suc (suc n)) p s ≡ outcomes h c (suc n) p s ++ (o ∷ [])))
        (sym (one n)) (ap (λ w. w.2) (one (suc n)) ∙ end, ap (λ os. o ∷ os) os)

  has-marked :
      (d : Option String) (name : String) (ps : List Printer)
      → has name_of str_eq name (map (mark_default d) ps) ≡ has name_of str_eq name ps
  has-marked d name [] = refl
  has-marked d name (p ∷ ps) = ap (λ b. str_eq p.name name || b) (has-marked d name ps)

  names-Unique :
      (d : Option String) (ps : List Printer)
      → Unique name_of str_eq ps
      → Unique name_of str_eq (map (mark_default d) ps)
  names-Unique d [] u = tt
  names-Unique d (p ∷ ps) (fresh, u) = (has-marked d p.name ps ∙ fresh, names-Unique d ps u)

  -- After any number of turns of the loop, whatever the service has answered, let there be one
  -- more in which the crate takes the requests of a snapshot, and these printers and these jobs are
  -- what can be decoded of the server's answers of success. Then a consumer that has followed the
  -- events yielded since the start knows these printers and these jobs and no others: every job by
  -- its id and every printer by its name, marked as the default if and only if its name is the
  -- default's that is then in the cache. No snapshot lists an id or a name twice.
  pub watch-known :
      (n : ℕ) (s : Session S) (v : View) (ps : List Printer) (js : List Job)
      → All OutcomeIsValid (outcomes h c n start_poller s)
      → IsValid (record { printers = ps; jobs = js })
      → (let (events, last, t) = watch h c n start_poller s in
          Reports h c (refreshed h c last.previous t) ps js)
      → (d : Option String) × (let (events, last, end) = watch h c (suc n) start_poller s in
          (end.cache ≡ some d) × SameView (follow v (heard events)) (view (mirrored h c d ps js)))
  watch-known n s v ps js valid unique told =
      let (events, last, t) = watch h c n start_poller s in
      let (end, os) = watch-last n start_poller s in
      let (d, both, cached) = snapshot-mirrored h c (refreshed h c last.previous t) ps js told in
      let now = mirrored h c d ps js in
      let all_os : outcomes h c (suc n) start_poller s
          ≡ outcomes h c n start_poller s ++ (ok now ∷ []) =
        os ∙ ap (λ x. outcomes h c n start_poller s ++ (x.0 ∷ [])) both in
      let now-IsValid : IsValid now = record {
        jobs = unique.jobs;
        printers = names-Unique d ps unique.printers;
      } in
      let all-IsValid =
        subst (All OutcomeIsValid) (sym all_os)
          (All-append OutcomeIsValid (outcomes h c n start_poller s) _ valid (now-IsValid, tt)) in
      let kept =
        (watch-yielded h c (suc n) start_poller s).1
        ∙ ap (after start_poller) all_os
        ∙ after-ok start_poller (outcomes h c n start_poller s) now in
      let same =
        subst
          (λ (q : Poller).
            InStep q.previous (follow v (heard (watch h c (suc n) start_poller s).0)))
          kept (watch-follow h c (suc n) s v all-IsValid) in
      (d, (ap (λ (u : Session S). u.cache) end ∙ cached, same))
