-- ===== src/Client/Default/Steps.antt =====
-- How many steps `IppClient::default_printer` takes (ipp-async/src/client.rs).
use ipp_client.Prelude.{
  ℕ, String, ◌≡◌, ◌≤◌, refl, ap, ◌∙◌, sym, subst, Option, none, some, List, [], ◌∷◌, and_then,
  length,
}
use ipp_client.Ipp.{operation_attributes, keyword, cups_get_default, new_request, Request}
use ipp_client.Errors.{Result, ok, err}
use ipp_client.Host.{Host}
use ipp_client.Future.{Future, ready, follow, on_ok, pure}
use ipp_client.Future.Pool.{Moment, drive}
use ipp_client.Future.Pool.Steps.{
  Ends, done, transmits, reads, looks, stores, drive-Ends, follow-Ends,
}
use ipp_client.Lpoptions.{parse_default, user_lpoptions}
use ipp_client.Client.{Client}
use ipp_client.Client.Requests.{start, put}
use ipp_client.Client.Transfer.{check_status, received}
use ipp_client.Client.Transfer.Async.{exchange, send}
use ipp_client.Client.Default.{first_name, or_no_default}
use ipp_client.Client.Default.Async.{
  default_printer_from_all, lpoptions_default, server_default, chosen_or_served, resolve_default,
  cached_or_resolved, default_printer,
}

module _ {S : Type 0} (h : Host S) (c : Client) where
  abbrev pub Succeeds : {A : Type 0} → Result A → Type 0
  Succeeds {A = A} r = (x : A) × (r ≡ ok x)

  abbrev Any : {A : Type 0} → Result A → Type 0
  Any r = Unit

  result-Ends :
      {A B : Type 0} (r : Result A) (next : A → Future B) (n : ℕ)
      → ((a : A) → Ends Any n (next a))
      → Ends Any n (on_ok next r)
  result-Ends (ok a) next n each = each a
  result-Ends (err e) next n each = done _ tt

  send-Ends : (request : Request) (label : String) → Ends Any 1 (send h c request label)
  unfolding send exchange follow
  send-Ends request label = transmits _ _ _ λ o.
      result-Ends (received h o) _ 0
        λ resp. result-Ends (check_status h resp label) _ 0 λ u. done _ tt

  server_default-Ends : Ends Any 1 (server_default h c)
  unfolding server_default follow
  server_default-Ends = result-Ends (start h (new_request cups_get_default none)) _ 1 λ r.
      result-Ends (put h operation_attributes "requested-attributes" (keyword "printer-name") r) _ 1
        λ q.
          follow-Ends Any Any 0 (on_ok λ resp. pure (first_name resp))
            (send-Ends q "CUPS-Get-Default") λ x u. result-Ends x _ 0 λ resp. done _ tt

  -- What a file names, else what the rest of the files name.
  found-Ends :
      (n : ℕ) (found : Option String) (later : Future (Option String))
      → Ends Succeeds n later
      → Ends Succeeds n (elim found [ some dest ↦ ready (ok (some dest)) | none ↦ later ])
  found-Ends n (some dest) later e = done _ (some dest, refl)
  found-Ends n none later e = e

  from_all-Ends :
      (paths : List String) → Ends Succeeds (length paths) (default_printer_from_all paths)
  unfolding default_printer_from_all
  from_all-Ends [] = done _ (none, refl)
  from_all-Ends (path ∷ rest) =
      reads path _ λ contents.
        found-Ends (length rest) (and_then contents parse_default) _ (from_all-Ends rest)

  -- What follows a result that is a value.
  value-Ends :
      {A B : Type 0} (n : ℕ) (next : A → Future B)
      → ((a : A) → Ends Succeeds n (next a))
      → (r : Result A) → Succeeds r
      → Ends Succeeds n (on_ok next r)
  value-Ends n next each r (a, e) = subst (λ r. Ends Succeeds n (on_ok next r)) (sym e) (each a)

  chosen-Ends : (x : Option String) → Ends Succeeds 1 (chosen_or_served h c x)
  unfolding chosen_or_served
  chosen-Ends (some name) = done _ (some name, refl)
  chosen-Ends none =
      follow-Ends Succeeds Succeeds 0 _
        (follow-Ends Any Succeeds 0 _ server_default-Ends λ r u. done _ (r, refl))
        (value-Ends 0 _ λ r. done _ (or_no_default h c r, refl))

  resolve_default-Ends : Ends Succeeds 3 (resolve_default h c)
  unfolding resolve_default lpoptions_default
  resolve_default-Ends =
      follow-Ends Succeeds Succeeds 1 _
        (from_all-Ends (user_lpoptions h.home ∷ "/etc/cups/lpoptions" ∷ []))
        (value-Ends 1 _ chosen-Ends)

  cached-Ends : (cache : Option (Option String)) → Ends Succeeds 4 (cached_or_resolved h c cache)
  unfolding cached_or_resolved
  cached-Ends (some name) = done _ (name, refl)
  cached-Ends none =
      follow-Ends Succeeds Succeeds 1 _ resolve_default-Ends
        (value-Ends 1 _ λ x. stores _ _ (done _ (x, refl)))

  -- A call of `default_printer` ends after at most five steps, and does not fail, whatever the
  -- server answers, the files hold, and other tasks leave in the cache between its steps.
  pub default_printer-Ends :
      (ms : List Moment)
      → 5 ≤ length ms
      → (name : Option String) × (drive ms (default_printer h c) ≡ ready (ok name))
  unfolding default_printer
  default_printer-Ends ms l =
      let (r, e, (name, p)) = drive-Ends Succeeds ms (looks _ cached-Ends) l in
      (name, e ∙ ap ready p)
