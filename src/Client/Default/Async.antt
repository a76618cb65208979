-- ===== src/Client/Default/Async.antt =====
-- ipp-async/src/client.rs and lpoptions.rs: the default printer and its cache, step by step.
-- Each file is read, the server is asked, and the lock is taken in a step of its own.
use ipp_client.Prelude.{
  String, Option, none, some, List, [], ◌∷◌, and_then, inl, inr, Option-cases, ◌≡◌, refl, ap, ◌∙◌,
  sym,
}
use ipp_client.Ipp.{operation_attributes, keyword, cups_get_default, new_request}
use ipp_client.Errors.{Result, ok}
use ipp_client.Host.{Host}
use ipp_client.Session.{Session, pure as pure_now}
use ipp_client.Future
use ipp_client.Future.{
  Future, ready, read_file, look, store, pure, attempt, on_ok, ◌>>=◌, Runs, Runs->>=, Runs-attempt,
}
use ipp_client.Lpoptions
use ipp_client.Lpoptions.{parse_default, user_lpoptions}
use ipp_client.Client.{Client}
use ipp_client.Client.Requests.{start, put}
use ipp_client.Client.Transfer.Async.{send, send-Runs, lift-Runs}
use ipp_client.Client.Default
use ipp_client.Client.Default.{first_name, or_no_default, store_default}
use ipp_client.Client.Default.Laws.{hit, miss, resolve_default-some, resolve_default-none}

-- The loop over the paths of the lpoptions.
unfoldable pub default_printer_from_all : List String → Future (Option String)
default_printer_from_all [] = pure none
default_printer_from_all (path ∷ rest) =
    let later = default_printer_from_all rest in
    read_file path λ contents. elim (and_then contents parse_default) [
      | some dest ↦ pure (some dest)
      | none ↦ later
    ]

unfoldable pub lpoptions_default : Option String → Future (Option String)
unfolding default_printer_from_all
lpoptions_default home = default_printer_from_all (user_lpoptions home ∷ "/etc/cups/lpoptions" ∷ [])

module _ {S : Type 0} (h : Host S) (c : Client) where
  unfoldable pub server_default : Future (Option String)
  unfolding send
  server_default = do
    request ← ready (start h (new_request cups_get_default none))
    request ←
        ready (put h operation_attributes "requested-attributes" (keyword "printer-name") request)
    resp ← send h c request "CUPS-Get-Default"
    pure (first_name resp)

  -- The match on what the lpoptions name.
  unfoldable pub chosen_or_served : Option String → Future (Option String)
  unfolding server_default
  chosen_or_served (some chosen) = pure (some chosen)
  chosen_or_served none = do found ← attempt server_default; pure (or_no_default h c found)

  unfoldable pub resolve_default : Future (Option String)
  unfolding lpoptions_default chosen_or_served
  resolve_default = do chosen ← lpoptions_default h.home; chosen_or_served chosen

  -- The match on what the lock held: the answer, or a resolution whose result is stored.
  unfoldable pub cached_or_resolved : Option (Option String) → Future (Option String)
  unfolding resolve_default
  cached_or_resolved (some cached) = pure cached
  cached_or_resolved none = do resolved ← resolve_default; store (some resolved) (pure resolved)

  unfoldable pub default_printer : Future (Option String)
  unfolding cached_or_resolved
  default_printer = look cached_or_resolved

  -- Alone, the loop reads what the loop over all files at once reads, and changes nothing.
  from_all-Runs :
      (paths : List String) (s : Session S)
      → Future.run h (default_printer_from_all paths) s
        ≡ pure_now (Lpoptions.default_printer_from_all (h.read_to_string s.server) paths) s
  unfolding Future.run default_printer_from_all Lpoptions.default_printer_from_all
  from_all-Runs [] s = refl
  from_all-Runs (path ∷ rest) s =
      elim (Option-cases (and_then (h.read_to_string s.server path) parse_default)) [
        | inr (dest, e) ↦ rw (Future.run, Lpoptions.default_printer_from_all, e)
        | inl e ↦ rw (Future.run, Lpoptions.default_printer_from_all, e) (from_all-Runs rest s)
      ]

  server_default-Runs : Runs h server_default (Default.server_default h c)
  unfolding server_default Default.server_default
  server_default-Runs = Runs->>= h _ _ _ _ (lift-Runs h c _) λ r.
      Runs->>= h _ _ _ _ (lift-Runs h c _)
        λ q. Runs->>= h _ _ _ _ (send-Runs h c q "CUPS-Get-Default") λ resp. lift-Runs h c _

  served-Runs :
      Runs h
        (do found ← attempt server_default; pure (or_no_default h c found))
        λ s. (
          ok (or_no_default h c (Default.server_default h c s).0),
          (Default.server_default h c s).1,
        )
  served-Runs = Runs->>= h _ _ _ _ (Runs-attempt h _ _ server_default-Runs) λ found. lift-Runs h c _

  chosen_or_served-Runs :
      (s : Session S) (x : Option String)
      → Lpoptions.default_printer (h.read_to_string s.server) h.home ≡ x
      → Future.run h (chosen_or_served x) s ≡ Default.resolve_default h c s
  unfolding Future.run chosen_or_served
  chosen_or_served-Runs s (some chosen) e = sym (resolve_default-some h c s chosen e)
  chosen_or_served-Runs s none e = served-Runs s ∙ sym (resolve_default-none h c s e)

  resolve_default-Runs : Runs h resolve_default (Default.resolve_default h c)
  unfolding resolve_default lpoptions_default Lpoptions.default_printer
      Lpoptions.default_printer_from
  resolve_default-Runs s =
      Future.run-follow h (lpoptions_default h.home) (on_ok chosen_or_served) s
      ∙ ap (λ x. Future.run h (on_ok chosen_or_served x.0) x.1)
          (from_all-Runs (user_lpoptions h.home ∷ "/etc/cups/lpoptions" ∷ []) s)
      ∙ chosen_or_served-Runs s _ refl

  -- Asking for the default printer with nothing between its steps is the action that asks at once.
  pub default_printer-Runs :
      (s : Session S) → Future.run h default_printer s ≡ Default.default_printer h c s
  unfolding Future.run default_printer cached_or_resolved
  default_printer-Runs s = elim (Option-cases s.cache) [
    | inr (name, e) ↦ ap held e ∙ sym (hit h c s name e)
    | inl e ↦
        ap held e
        ∙ Runs->>= h _ _ (Default.resolve_default h c) (store_default h c) resolve_default-Runs
            (λ resolved t. refl) s
        ∙ sym (miss h c s e)
  ]
    where
      held : Option (Option String) → Result (Option String) × Session S
      held cache = Future.run h (cached_or_resolved cache) s
