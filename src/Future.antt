-- ===== src/Future.antt =====
-- An asynchronous method step by step: what it awaits, and where it takes the lock of the cache.
-- Between two steps other tasks may run, and a future may be dropped at any step.
pub mod Pool
use ipp_client.Prelude.{String, Option, List, [], ◌∷◌, ◌++◌, ◌≡◌, refl, ap, ◌∙◌}
use ipp_client.Ipp.{Request, Response}
use ipp_client.Errors.{Error, Result, ok, err}
use ipp_client.Host.{Host, Outcome, Transport}
use ipp_client.Session.{Session, Exec, continue, attempt as attempt_now}

-- `look` locks the cache and copies it out, `store` locks it and writes; both give the lock back
-- before the next step.
pub data Future (A : Type 0) : Type 0 where
  ready : Result A → Future A
  transmit : Transport → Request → (Outcome Response → Future A) → Future A
  read_file : String → (Option String → Future A) → Future A
  look : (Option (Option String) → Future A) → Future A
  store : Option (Option String) → Future A → Future A

module _ {A B : Type 0} where
  -- What follows a future, whether or not it failed.
  unfoldable pub follow : Future A → (Result A → Future B) → Future B
  follow (ready r) next = next r
  follow (transmit t request k) next = transmit t request (λ o. follow (k o) next)
  follow (read_file path k) next = read_file path (λ x. follow (k x) next)
  follow (look k) next = look (λ c. follow (k c) next)
  follow (store c rest) next = store c (follow rest next)

  abbrev pub on_ok : (A → Future B) → Result A → Future B
  on_ok next (ok a) = next a
  on_ok next (err e) = ready (err e)

  infixl 5 ◌>>=◌ ◌>>◌
  abbrev pub ◌>>=◌ : Future A → (A → Future B) → Future B
  future >>= next = follow future (on_ok next)

  abbrev pub ◌>>◌ : Future A → Future B → Future B
  future >> second = future >>= λ value. second

abbrev pub pure : {A : Type 0} → A → Future A
pure a = ready (ok a)

-- The order in which what follows is put together does not matter.
pub follow-follow :
    {A B C : Type 0} (future : Future A) (next : Result A → Future B) (last : Result B → Future C)
    → follow (follow future next) last ≡ follow future (λ r. follow (next r) last)
unfolding follow
follow-follow (ready r) next last = refl
follow-follow (transmit t request k) next last =
    λ i. transmit t request (λ o. follow-follow (k o) next last i)
follow-follow (read_file path k) next last =
    λ i. read_file path (λ x. follow-follow (k x) next last i)
follow-follow (look k) next last = λ i. look (λ c. follow-follow (k c) next last i)
follow-follow (store c rest) next last = λ i. store c (follow-follow rest next last i)

-- The result as a value, for a `match` on it.
abbrev pub attempt : {A : Type 0} → Future A → Future (Result A)
attempt future = follow future λ r. pure r

-- A task that runs alone, to its end.
module _ {S : Type 0} (h : Host S) where
  unfoldable pub run : {A : Type 0} → Future A → Exec S A
  run (ready r) s = (r, s)
  run (transmit t request k) s =
      let (o, server) = h.send t request s.server in
      run (k o) (record s { server = server; sent = s.sent ++ (request ∷ []) })
  run (read_file path k) s = run (k (h.read_to_string s.server path)) s
  run (look k) s = run (k s.cache) s
  run (store c rest) s = run rest (record s { cache = c })

  -- What follows runs in the session that the first part leaves.
  pub run-follow :
      {A B : Type 0} (future : Future A) (next : Result A → Future B) (s : Session S)
      → run (follow future next) s ≡ run (next (run future s).0) (run future s).1
  unfolding run follow
  run-follow (ready r) next s = refl
  run-follow (transmit t request k) next s =
      let (o, server) = h.send t request s.server in
      run-follow (k o) next (record s { server = server; sent = s.sent ++ (request ∷ []) })
  run-follow (read_file path k) next s = run-follow (k (h.read_to_string s.server path)) next s
  run-follow (look k) next s = run-follow (k s.cache) next s
  run-follow (store c rest) next s = run-follow rest next (record s { cache = c })

  -- A future that, run alone, does what an action does.
  abbrev pub Runs : {A : Type 0} → Future A → Exec S A → Type 0
  Runs future action = (s : Session S) → run future s ≡ action s

  module _ {A B : Type 0} where
    run-on_ok :
        (r : Result A) (next : A → Future B) (then : A → Exec S B) (s : Session S)
        → ((a : A) → Runs (next a) (then a))
        → run (on_ok next r) s ≡ continue r then s
    unfolding run
    run-on_ok (ok a) next then s each = each a s
    run-on_ok (err e) next then s each = refl

    pub Runs->>= :
        (future : Future A) (next : A → Future B) (action : Exec S A) (then : A → Exec S B)
        → Runs future action
        → ((a : A) → Runs (next a) (then a))
        → Runs (future >>= next) (λ t. continue (action t).0 then (action t).1)
    Runs->>= future next action then first each s =
        run-follow future (on_ok next) s
        ∙ run-on_ok (run future s).0 next then (run future s).1 each
        ∙ ap (λ (x : Result A × Session S). continue x.0 then x.1) (first s)

  pub Runs-attempt :
      {A : Type 0} (future : Future A) (action : Exec S A)
      → Runs future action
      → Runs (attempt future) (attempt_now action)
  unfolding run
  Runs-attempt {A = A} future action first s =
      run-follow future (λ r. pure r) s ∙ ap (λ (x : Result A × Session S). (ok x.0, x.1)) (first s)
