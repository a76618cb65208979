-- ===== src/Client/Default/Settles.antt =====
-- How one call of `IppClient::default_printer` ends, whatever it finds and is answered
-- (ipp-async/src/client.rs).
use ipp_client.Prelude.{
  String, ◌≡◌, refl, ap, ◌∙◌, sym, subst, inl, inr, Option, none, some, List, [], ◌∷◌, and_then,
  Option-cases, if◌then◌else◌, Bool-cases,
}
use ipp_client.Ipp.{operation_attributes, keyword, cups_get_default, new_request, Request, Response}
use ipp_client.Errors.{Error, Result, ok, err, ◌>>=◌}
use ipp_client.Host.{Host, Outcome, done, failed}
use ipp_client.Future.{Future, ready, store, follow, on_ok, pure, attempt, ◌>>◌}
use ipp_client.Future.Pool.{Outside}
use ipp_client.Future.Pool.Laws.{CacheIs, Settles, follow-Settles}
use ipp_client.Lpoptions.{parse_default, user_lpoptions}
use ipp_client.Client.{Client}
use ipp_client.Client.Requests.{start, put}
use ipp_client.Client.Transfer.{check_status, received}
use ipp_client.Client.Transfer.Async.{exchange, send}
use ipp_client.Client.Default.{first_name, or_no_default}
use ipp_client.Client.Default.Async.{
  default_printer_from_all, lpoptions_default, server_default, chosen_or_served, resolve_default,
  cached_or_resolved, default_printer,
}

module _ {S : Type 0} (h : Host S) (c : Client) where
  -- What the server's answer makes of the default printer.
  abbrev pub told : Outcome Response → Option String
  told (done resp) = if h.is_success resp.status then first_name resp else none
  told (failed e) = none

  -- The request for the server's default.
  abbrev pub default_request : Result Request
  default_request = do
    request ← start h (new_request cups_get_default none)
    put h operation_attributes "requested-attributes" (keyword "printer-name") request

  -- Where a default printer, or its absence, comes from, if tasks were answered what is `Given`.
  pub data Origin (Given : Outside → Type 0) : Option String → Type 0 where
    from_file :
        (now : Outside) (name : String)
        → Given now
        → and_then now.contents parse_default ≡ some name
        → Origin Given (some name)
    from_server :
        (now : Outside) (name : Option String)
        → Given now
        → told now.heard ≡ name
        → Origin Given name
    unbuilt : (e : Error) → default_request ≡ err e → Origin Given none

  module _ (Given : Outside → Type 0) where
    -- A name that is found comes from somewhere.
    abbrev Chosen : Option String → Type 0
    Chosen none = Unit
    Chosen (some name) = Origin Given (some name)

    -- A result that is a value, about which more is known.
    abbrev pub Yields : (Option String → Type 0) → Result (Option String) → Type 0
    Yields P r = (x : Option String) × (r ≡ ok x) × P x

    abbrev Told : Result (Option String) → Type 0
    Told r = Origin Given (or_no_default h c r)

    Settles-from_all :
        (paths : List String)
        → Settles Given (Origin Given) (Yields Chosen) (default_printer_from_all paths)
    unfolding Settles default_printer_from_all
    Settles-from_all [] = (none, refl, tt)
    Settles-from_all (path ∷ rest) = λ now given.
        elim (Option-cases (and_then now.contents parse_default)) [
          | inr (name, e) ↦ rw (Settles, e) (some name, refl, from_file now name given e)
          | inl e ↦ rw (Settles, e) (Settles-from_all rest)
        ]

    abbrev passed : Result Response → Option String
    passed (ok resp) = if h.is_success resp.status then first_name resp else none
    passed (err e) = none

    told-passed : (o : Outcome Response) → told o ≡ passed (received h o)
    told-passed (done resp) = refl
    told-passed (failed e) = refl

    abbrev Received : Result Response → Type 0
    Received r = (now : Outside) × Given now × (told now.heard ≡ passed r)

    abbrev named : Result Response → Option String
    named (ok resp) = first_name resp
    named (err e) = none

    -- What is named in a response whose status was checked.
    abbrev Answered : Result Response → Type 0
    Answered r = (now : Outside) × Given now × (told now.heard ≡ named r)

    checked-Settles :
        (label : String) (r : Result Response)
        → Received r
        → Settles Given
            (Origin Given)
            Answered
            (on_ok (λ resp. ready (check_status h resp label) >> pure resp) r)
    unfolding Settles follow check_status
    checked-Settles label (ok resp) (now, given, e) = elim (Bool-cases (h.is_success resp.status)) [
      | inl y ↦ rw (Settles, follow, y) (now, given, e ∙ rw y refl)
      | inr n ↦ rw (Settles, follow, n) (now, given, e ∙ rw n refl)
    ]
    checked-Settles label (err x) seen = seen

    send-Settles :
        (request : Request) (label : String)
        → Settles Given (Origin Given) Answered (send h c request label)
    unfolding Settles send exchange
    send-Settles request label =
        follow-Settles Given (Origin Given) Received Answered (exchange h c request) _
          (λ now given. (now, given, told-passed now.heard)) (checked-Settles label)

    asked-Settles :
        (request : Request)
        → Settles Given
            (Origin Given)
            Told
            (follow (send h c request "CUPS-Get-Default") (on_ok λ resp. pure (first_name resp)))
    unfolding Settles
    asked-Settles request =
        follow-Settles Given (Origin Given) Answered Told _ _
          (send-Settles request "CUPS-Get-Default") found
      where
        found :
            (r : Result Response)
            → Answered r
            → Settles Given (Origin Given) Told (on_ok (λ resp. pure (first_name resp)) r)
        found (ok resp) (now, given, e) = from_server now (first_name resp) given e
        found (err x) (now, given, e) = from_server now none given e

    -- What follows a step of the building, which may fail.
    built-Settles :
        (r : Result Request) (next : Request → Future (Option String))
        → ((e : Error) → r ≡ err e → default_request ≡ err e)
        → ((request : Request) → r ≡ ok request → Settles Given (Origin Given) Told (next request))
        → Settles Given (Origin Given) Told (on_ok next r)
    unfolding Settles
    built-Settles (ok request) next failing following = following request refl
    built-Settles (err e) next failing following = unbuilt e (failing e refl)

    server_default-Settles : Settles Given (Origin Given) Told (server_default h c)
    unfolding Settles follow server_default
    server_default-Settles =
        built-Settles (start h (new_request cups_get_default none)) _ (λ e p. rw p refl)
          λ r p.
            built-Settles
              (put h operation_attributes "requested-attributes" (keyword "printer-name") r) _
              (λ e q.
                ap
                  (λ x.
                    x
                    >>= put h operation_attributes "requested-attributes" (keyword "printer-name"))
                  p
                ∙ q)
              λ request q. asked-Settles request

    -- A result that is a value, with what is known of it.
    on_value :
        {X Y : Type 0} (T : X → Type 0) (R : Result Y → Type 0) (next : X → Future Y)
        → ((x : X) → T x → Settles Given (Origin Given) R (next x))
        → (r : Result X) → (x : X) × (r ≡ ok x) × T x
        → Settles Given (Origin Given) R (on_ok next r)
    on_value T R next each r (x, p, t) =
        subst (λ r. Settles Given (Origin Given) R (on_ok next r)) (sym p) (each x t)

    served-Settles :
        Settles Given
          (Origin Given)
          (Yields (Origin Given))
          (follow (attempt (server_default h c)) (on_ok λ found. pure (or_no_default h c found)))
    unfolding Settles
    served-Settles =
        follow-Settles Given (Origin Given) (λ r. (x : _) × (r ≡ ok x) × Told x) _ _ _
          (follow-Settles Given (Origin Given) Told _ _ _ server_default-Settles
            λ r told. (r, refl, told))
          (on_value Told _ _ λ r told. (or_no_default h c r, refl, told))

    chosen_or_served-Settles :
        (x : Option String)
        → Chosen x
        → Settles Given (Origin Given) (Yields (Origin Given)) (chosen_or_served h c x)
    unfolding Settles chosen_or_served
    chosen_or_served-Settles (some name) found = (some name, refl, found)
    chosen_or_served-Settles none found = served-Settles

    resolve_default-Settles :
        Settles Given (Origin Given) (Yields (Origin Given)) (resolve_default h c)
    unfolding resolve_default lpoptions_default
    resolve_default-Settles =
        follow-Settles Given (Origin Given) (Yields Chosen) _ _ _
          (Settles-from_all (user_lpoptions h.home ∷ "/etc/cups/lpoptions" ∷ []))
          (on_value Chosen _ (chosen_or_served h c) chosen_or_served-Settles)

    cached-Settles :
        (cache : Option (Option String))
        → CacheIs (Origin Given) cache
        → Settles Given (Origin Given) (Yields (Origin Given)) (cached_or_resolved h c cache)
    unfolding Settles cached_or_resolved
    cached-Settles (some name) origin = (name, refl, origin)
    cached-Settles none origin =
        follow-Settles Given (Origin Given) (Yields (Origin Given)) _ _ _ resolve_default-Settles
          (on_value (Origin Given) _ (λ x. store (some x) (pure x)) λ x o. (o, (x, refl, o)))

    pub default_printer-Settles :
        Settles Given (Origin Given) (Yields (Origin Given)) (default_printer h c)
    unfolding Settles default_printer
    default_printer-Settles = cached-Settles
