-- ===== src/Client/Stream/Asked.antt =====
-- What the turns of `IppClient::events` ask of the daemon (ipp-async/src/client.rs).
use ipp_client.Prelude.{
  String, Bool, true, false, ◌≡◌, refl, ap, ◌∙◌, sym, subst, ◌⊎◌, inl, inr, Option, none, some,
  Option-cases, List, [], ◌∷◌, ◌++◌,
}
use ipp_client.Errors.{Error, Result, ok, err}
use ipp_client.Host.{Host}
use ipp_client.Session.{Session, Exec, continue, continue-cases, pure, ◌>>=◌}
use ipp_client.Lpoptions
use ipp_client.Model.Printer.{Printer}
use ipp_client.Events.{Snapshot}
use ipp_client.Client.{Client}
use ipp_client.Client.Requests.{not_completed}
use ipp_client.Client.Default.{default_printer, server_default}
use ipp_client.Client.Default.Laws.{hit, default_printer-lpoptions, default_printer-server}
use ipp_client.Client.Queries.{snapshot, printers, jobs}
use ipp_client.Client.Stream.Queries.{
  Query, get_default, get_printers, get_jobs, Grows, Grows-nil, Grows-trans, Asked, Asks,
  server_default-Asks, listed, listed-Asks, jobs-Asks,
}

-- The default is asked for only if nothing is held.
abbrev pub Start : Bool → List Query → Type 0
Start true d = d ≡ []
Start false d = (d ≡ []) ⊎ (d ≡ get_default ∷ [])

-- A snapshot that is read has asked for the printers and then for the jobs, and one that failed
-- has asked for a part of that.
abbrev pub Body : {A : Type 0} → Result A → List Query → Type 0
Body (ok a) rest = rest ≡ get_printers ∷ get_jobs ∷ []
Body (err e) rest = (rest ≡ []) ⊎ (rest ≡ get_printers ∷ []) ⊎ (rest ≡ get_printers ∷ get_jobs ∷ [])

module _ {S : Type 0} (h : Host S) (c : Client) where
  abbrev pub is_cached : Option (Option String) → Bool
  is_cached none = false
  is_cached (some name) = true

  Asked-Start :
      {A : Type 0} (x : Result A) (s t : Session S)
      → Asked get_default x s t
      → (d : List Query) × Grows s t d × Start false d
  Asked-Start (ok a) s t grown = (get_default ∷ [], grown, inr refl)
  Asked-Start (err e) s t (inl grown) = ([], grown, inl refl)
  Asked-Start (err e) s t (inr grown) = (get_default ∷ [], grown, inr refl)

  default_printer-Start :
      (s : Session S)
      → (name : Option String) × (t : Session S) × (d : List Query) × (default_printer h c s
          ≡ (ok name, t))
        × (t.cache ≡ some name)
        × Grows s t d
        × Start (is_cached s.cache) d
  unfolding Asks
  default_printer-Start s = elim (Option-cases s.cache) [
    | inr (name, e) ↦ (
      name,
      s,
      [],
      hit h c s name e,
      e,
      Grows-nil s,
      subst (λ o. Start (is_cached o) []) (sym e) refl,
    )
    | inl e ↦ elim (Option-cases (Lpoptions.default_printer (h.read_to_string s.server) h.home)) [
      | inr (name, l) ↦ (
        some name,
        _,
        [],
        default_printer-lpoptions h c s name e l,
        refl,
        Grows-nil s,
        subst (λ o. Start (is_cached o) []) (sym e) (inl refl),
      )
      | inl l ↦
          let (same, asked) = server_default-Asks h c s in
          let (d, grown, starts) =
            Asked-Start (server_default h c s).0 s (server_default h c s).1 asked in
          (
            _,
            _,
            d,
            default_printer-server h c s e l,
            refl,
            grown,
            subst (λ o. Start (is_cached o) d) (sym e) starts,
          )
    ]
  ]

  -- The printers and then the jobs.
  body :
      {A B C : Type 0} (first : Exec S A) (second : Exec S B) (pair : A → B → C)
      → Asks first get_printers
      → Asks second get_jobs
      → (t : Session S)
      → let r = (first >>= λ a. (second >>= λ b. pure (pair a b))) t in
        (r.1.cache ≡ t.cache) × (rest : List Query) × Grows t r.1 rest × Body r.0 rest
  unfolding Asks
  body {A = A} {B = B} {C = C} first second pair ask_first ask_second t =
      let u = (first t).1 in
      let (same, asked) = ask_first t in
      continue-cases
        (λ (y : Result C × Session S).
          (y.1.cache ≡ t.cache) × (rest : List Query) × Grows t y.1 rest × Body y.0 rest)
        (first t).0 (λ a. (second >>= λ b. pure (pair a b))) u
        (λ e failed.
          let (rest, grown, kind) =
            failing e (subst (λ x. Asked get_printers x t u) failed asked) in
          (same, rest, grown, kind))
        λ a given.
          let grown = subst (λ x. Asked get_printers x t u) given asked in
          let (same2, asked2) = ask_second u in
          let v = (second u).1 in
          continue-cases
            (λ (y : Result C × Session S).
              (y.1.cache ≡ t.cache) × (rest : List Query) × Grows t y.1 rest × Body y.0 rest)
            (second u).0 (λ b. pure (pair a b)) v
            (λ e failed.
              let (rest, later, kind) =
                failing_behind e grown (subst (λ x. Asked get_jobs x u v) failed asked2) in
              (same2 ∙ same, rest, later, kind))
            λ b given2. (
              same2 ∙ same,
              get_printers ∷ get_jobs ∷ [],
              Grows-trans t u v (get_printers ∷ []) (get_jobs ∷ []) grown
                  (subst (λ x. Asked get_jobs x u v) given2 asked2),
              refl,
            )
    where
      failing :
          (e : Error)
          → Asked {A = A} get_printers (err e) t (first t).1
          → (rest : List Query) × Grows t (first t).1 rest × Body {A = C} (err e) rest
      failing e (inl grown) = ([], grown, inl refl)
      failing e (inr grown) = (get_printers ∷ [], grown, inr (inl refl))

      failing_behind :
          (e : Error)
          → Grows t (first t).1 (get_printers ∷ [])
          → Asked {A = B} get_jobs (err e) (first t).1 (second (first t).1).1
          → (rest : List Query) × Grows t (second (first t).1).1 rest × Body {A = C} (err e) rest
      failing_behind e grown (inl none_more) = (
        get_printers ∷ [],
        Grows-trans t (first t).1 (second (first t).1).1 (get_printers ∷ []) [] grown none_more,
        inr (inl refl),
      )
      failing_behind e grown (inr more) = (
        get_printers ∷ get_jobs ∷ [],
        Grows-trans t (first t).1 (second (first t).1).1 (get_printers ∷ []) (get_jobs ∷ []) grown
            more,
        inr (inr refl),
      )

  -- What is told of a snapshot that is asked for in a session.
  abbrev pub Told : Session S → Result Snapshot × Session S → Type 0
  Told s r =
      (d : List Query) × (rest : List Query) × Grows s r.1 (d ++ rest)
      × Start (is_cached s.cache) d
      × Body r.0 rest
      × ((name : Option String) × (r.1.cache ≡ some name))

  abbrev with_jobs : List Printer → Exec S Snapshot
  with_jobs ps = do js ← jobs h c not_completed; pure (record { printers = ps; jobs = js })

  abbrev behind_default : Result (Option String) × Session S → Result Snapshot × Session S
  behind_default x = let y = continue x.0 (listed h c) x.1 in continue y.0 with_jobs y.1

  pub snapshot-Told : (s : Session S) → Told s (snapshot h c s)
  unfolding snapshot printers
  snapshot-Told s =
      let (name, t, d, e, cached, grown, starts) = default_printer-Start s in
      let (same, rest, later, kind) =
        body {C = Snapshot} (listed h c name) (jobs h c not_completed)
          (λ ps js. record { printers = ps; jobs = js }) (listed-Asks h c name)
          (jobs-Asks h c not_completed) t in
      subst (Told s) (sym (ap behind_default e)) (
        d,
        rest,
        Grows-trans s t ((listed h c name >>= with_jobs) t).1 d rest grown later,
        starts,
        kind,
        (name, same ∙ cached),
      )
