-- ===== src/Future/Pool.antt =====
-- Several tasks on one client: they call the same method, and share the cache. A schedule says
-- which task goes on next, and what the outside holds for it then.
pub mod Laws
pub mod Steps
use ipp_client.Prelude.{ℕ, zero, suc, String, Option, none, List, [], ◌∷◌}
use ipp_client.Ipp.{Request, Response}
use ipp_client.Host.{Outcome}
use ipp_client.Future.{Future, ready, transmit, read_file, look, store}

abbrev pub Cache : Type 0
Cache = Option (Option String)

-- What a task would be answered if it went on now: by the server, or by the file that it reads.
pub record Outside : Type 0 where
  pub heard : Outcome Response
  pub contents : Option String

-- One step of a task; a task that is done stays as it is.
unfoldable pub resume : {A : Type 0} → Outside → Cache → Future A → Future A × Cache
resume now cache (ready r) = (ready r, cache)
resume now cache (transmit t request k) = (k now.heard, cache)
resume now cache (read_file path k) = (k now.contents, cache)
resume now cache (look k) = (k cache, cache)
resume now cache (store c rest) = (rest, c)

pub record Pool (A : Type 0) : Type 0 where
  pub cache : Cache
  pub tasks : List (Future A)

-- The tasks are numbered from the youngest.
pub data Event : Type 0 where
  begins invalidates : Event
  drops : ℕ → Event
  resumes : ℕ → Outside → Event

module _ {A : Type 0} where
  unfoldable pub resume_at : ℕ → Outside → Cache → List (Future A) → List (Future A) × Cache
  unfolding resume
  resume_at i now cache [] = ([], cache)
  resume_at zero now cache (f ∷ fs) = let (g, c) = resume now cache f in (g ∷ fs, c)
  resume_at (suc i) now cache (f ∷ fs) = let (gs, c) = resume_at i now cache fs in (f ∷ gs, c)

  unfoldable pub drop_at : ℕ → List (Future A) → List (Future A)
  drop_at i [] = []
  drop_at zero (f ∷ fs) = fs
  drop_at (suc i) (f ∷ fs) = f ∷ drop_at i fs

  -- What the tasks are: calls of one method.
  module _ (call : Future A) where
    unfoldable pub act : Event → Pool A → Pool A
    unfolding resume_at drop_at
    act begins pool = record { cache = pool.cache; tasks = call ∷ pool.tasks }
    act invalidates pool = record { cache = none; tasks = pool.tasks }
    act (drops i) pool = record { cache = pool.cache; tasks = drop_at i pool.tasks }
    act (resumes i now) pool =
        let (tasks, cache) = resume_at i now pool.cache pool.tasks in
        record { cache = cache; tasks = tasks }

    unfoldable pub play : List Event → Pool A → Pool A
    unfolding act
    play [] pool = pool
    play (e ∷ es) pool = play es (act e pool)

-- What one task finds when it goes on, other tasks having changed the cache as they did.
pub record Moment : Type 0 where
  pub outside : Outside
  pub cache : Cache

module _ {A : Type 0} where
  unfoldable pub drive : List Moment → Future A → Future A
  unfolding resume
  drive [] future = future
  drive (m ∷ ms) future = drive ms (resume m.outside m.cache future).0

  -- The requests that a future hands over if it is dropped after these steps. A request that is
  -- under way when the future is dropped has been handed over: that is the step that sent it.
  unfoldable pub handed : List Moment → Future A → List Request
  handed [] future = []
  handed (m ∷ ms) (ready r) = []
  handed (m ∷ ms) (transmit t request k) = request ∷ handed ms (k m.outside.heard)
  handed (m ∷ ms) (read_file path k) = handed ms (k m.outside.contents)
  handed (m ∷ ms) (look k) = handed ms (k m.cache)
  handed (m ∷ ms) (store c rest) = handed ms rest
