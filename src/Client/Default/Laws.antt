-- ===== src/Client/Default/Laws.antt =====
-- The cache of the default printer (ipp-async/src/client.rs).
use mathlib.Core.Path.{ap₂}
use ipp_client.Prelude.{String, ◌≡◌, refl, ap, ◌∙◌, sym, inl, inr, Option, none, some, Option-cases}
use ipp_client.Errors.{Result, ok}
use ipp_client.Host.{Host}
use ipp_client.Session.{Session, Exec, continue, ◌>>=◌}
use ipp_client.Lpoptions
use ipp_client.Client.{Client}
use ipp_client.Client.Default.{
  server_default, resolve_default, default_printer, store_default, or_no_default,
  invalidate_default_printer_cache,
}

module _ {S : Type 0} (h : Host S) (c : Client) where
  pub hit :
      (s : Session S) (name : Option String)
      → s.cache ≡ some name
      → default_printer h c s ≡ (ok name, s)
  unfolding default_printer
  hit s name e = rw e

  -- `resolve_default`, with its answer stored.
  abbrev pub resolve_and_store : Exec S (Option String)
  resolve_and_store = do resolved ← resolve_default h c; store_default h c resolved

  pub miss : (s : Session S) → s.cache ≡ none → default_printer h c s ≡ resolve_and_store s
  unfolding default_printer
  miss s e = rw e

  pub resolve_default-some :
      (s : Session S) (name : String)
      → Lpoptions.default_printer (h.read_to_string s.server) h.home ≡ some name
      → resolve_default h c s ≡ (ok (some name), s)
  unfolding resolve_default
  resolve_default-some s name l = rw (resolve_default, l)

  pub resolve_default-none :
      (s : Session S)
      → Lpoptions.default_printer (h.read_to_string s.server) h.home ≡ none
      → resolve_default h c s
        ≡ (ok (or_no_default h c (server_default h c s).0), (server_default h c s).1)
  unfolding resolve_default
  resolve_default-none s l = rw (resolve_default, l)

  stored :
      (r : Result (Option String) × Session S) (name : Option String) (t : Session S)
      → r ≡ (ok name, t)
      → continue r.0 (λ resolved. store_default h c resolved) r.1
        ≡ (ok name, record t { cache = some name })
  stored r name t e =
      ap
        (λ (r : Result (Option String) × Session S).
          continue r.0 (λ resolved. store_default h c resolved) r.1)
        e

  -- On an empty cache, a default that the user's or the system's lpoptions name is the answer; it
  -- goes to the cache, and no request is sent.
  pub default_printer-lpoptions :
      (s : Session S) (name : String)
      → s.cache ≡ none
      → Lpoptions.default_printer (h.read_to_string s.server) h.home ≡ some name
      → default_printer h c s ≡ (ok (some name), record s { cache = some (some name) })
  default_printer-lpoptions s name e l = miss s e ∙ stored _ _ _ (resolve_default-some s name l)

  -- On an empty cache and without a default in the lpoptions, the answer is what the server says
  -- to one request, and no default if that fails; it goes to the cache in both cases.
  pub default_printer-server :
      (s : Session S)
      → s.cache ≡ none
      → Lpoptions.default_printer (h.read_to_string s.server) h.home ≡ none
      → default_printer h c s ≡ (
        ok (or_no_default h c (server_default h c s).0),
        record (server_default h c s).1 {
          cache = some (or_no_default h c (server_default h c s).0);
        },
      )
  default_printer-server s e l = miss s e ∙ stored _ _ _ (resolve_default-none s l)

  -- Whose answer it is: what is cached, else what the lpoptions name, else what the server says.
  abbrev pub chosen : Option (Option String) → Option String → Option String → Option String
  chosen (some cached) named served = cached
  chosen none (some name) served = some name
  chosen none none served = served

  -- The session that is left, but for its cache: the server is asked in the last case alone.
  abbrev pub left_by : Option (Option String) → Option String → Session S → Session S → Session S
  left_by none none before asked = asked
  left_by _ _ before asked = before

  -- Asking for the default printer never fails. The answer is what is cached; else what the
  -- lpoptions name; else what the server says, where its failure reads as no default. The answer
  -- is then in the cache, and in the first two cases nothing else changes and no request is sent.
  pub default_printer_lem :
      (s : Session S)
      → let named = Lpoptions.default_printer (h.read_to_string s.server) h.home in
        let served = server_default h c s in
        let name = chosen s.cache named (or_no_default h c served.0) in
        default_printer h c s
        ≡ (ok name, record (left_by s.cache named s served.1) { cache = some name })
  default_printer_lem s = elim (Option-cases s.cache) [
    | inr (name, e) ↦
        hit s name e
        ∙ ap (λ cache. (ok name, record s { cache = cache })) e
        ∙ ap (λ cache. outcome cache named) (sym e)
    | inl e ↦ elim (Option-cases named) [
      | inr (name, l) ↦ default_printer-lpoptions s name e l ∙ ap₂ outcome (sym e) (sym l)
      | inl l ↦ default_printer-server s e l ∙ ap₂ outcome (sym e) (sym l)
    ]
  ]
    where
      named : Option String
      named = Lpoptions.default_printer (h.read_to_string s.server) h.home

      outcome : Option (Option String) → Option String → Result (Option String) × Session S
      outcome cache named =
          let served = server_default h c s in
          let name = chosen cache named (or_no_default h c served.0) in
          (ok name, record (left_by cache named s served.1) { cache = some name })

  -- Asking for the default printer never fails, and leaves the answer in the cache.
  pub default_printer-cached :
      (s : Session S)
      → (name : Option String) × (t : Session S) × (default_printer h c s ≡ (ok name, t))
        × (t.cache ≡ some name)
  default_printer-cached s = elim (Option-cases s.cache) [
    | inr (name, e) ↦ (name, s, hit s name e, e)
    | inl e ↦ elim (Option-cases (Lpoptions.default_printer (h.read_to_string s.server) h.home)) [
      | inr (name, l) ↦ (some name, _, default_printer-lpoptions s name e l, refl)
      | inl l ↦ (_, _, default_printer-server s e l, refl)
    ]
  ]

  -- Asking again gives the same answer and changes nothing, so that no second request is sent.
  pub default_printer-again :
      (s : Session S) → default_printer h c (default_printer h c s).1 ≡ default_printer h c s
  default_printer-again s =
      let (name, t, e, k) = default_printer-cached s in
      ap (λ x. default_printer h c x.1) e ∙ hit t name k ∙ sym e

  -- What is asked of the server after the cache is invalidated does not depend on what was cached.
  pub default_printer-invalidated :
      (s : Session S) (cache : Option (Option String))
      → default_printer h c (invalidate_default_printer_cache s).1
        ≡ default_printer h c (invalidate_default_printer_cache (record s { cache = cache })).1
  unfolding invalidate_default_printer_cache
  default_printer-invalidated s cache = refl
