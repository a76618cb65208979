-- ===== src/Future/Pool/Laws.antt =====
-- An invariant of any schedule: what is cached and what tasks answer keeps a predicate that the
-- answers of the outside justify.
use ipp_client.Prelude.{ℕ, zero, suc, String, Option, none, some, List, [], ◌∷◌, All}
use ipp_client.Errors.{Result}
use ipp_client.Future.{Future, ready, transmit, read_file, look, store, follow}
use ipp_client.Future.Pool.{
  Cache, Outside, Pool, Event, begins, invalidates, drops, resumes, resume, resume_at, drop_at, act,
  play,
}

-- `Given` is what the outside may answer.
abbrev pub EventIs : (Outside → Type 0) → Event → Type 0
EventIs Given (resumes i now) = Given now
EventIs Given begins = Unit
EventIs Given invalidates = Unit
EventIs Given (drops i) = Unit

abbrev pub CacheIs : (Option String → Type 0) → Cache → Type 0
CacheIs P none = Unit
CacheIs P (some name) = P name

-- `Given` is what the outside may answer, `P` what a cached value is to be, `Q` a result.
module _ {A : Type 0} (Given : Outside → Type 0) (P : Option String → Type 0)
    (Q : Result A → Type 0) where
  -- Whatever a task is answered, what it stores and how it ends are as they are to be.
  unfoldable pub Settles : Future A → Type 0
  Settles (ready r) = Q r
  Settles (transmit t request k) = (now : Outside) → Given now → Settles (k now.heard)
  Settles (read_file path k) = (now : Outside) → Given now → Settles (k now.contents)
  Settles (look k) = (cache : Cache) → CacheIs P cache → Settles (k cache)
  Settles (store c rest) = CacheIs P c × Settles rest

  resume-Settles :
      (now : Outside) (cache : Cache) (f : Future A)
      → Given now
      → CacheIs P cache
      → Settles f
      → Settles (resume now cache f).0 × CacheIs P (resume now cache f).1
  unfolding resume Settles
  resume-Settles now cache (ready r) given c s = (s, c)
  resume-Settles now cache (transmit t request k) given c s = (s now given, c)
  resume-Settles now cache (read_file path k) given c s = (s now given, c)
  resume-Settles now cache (look k) given c s = (s cache c, c)
  resume-Settles now cache (store d rest) given c s = (s.1, s.0)

  resume_at-Settles :
      (i : ℕ) (now : Outside) (cache : Cache) (fs : List (Future A))
      → Given now
      → CacheIs P cache
      → All Settles fs
      → CacheIs P (resume_at i now cache fs).1 × All Settles (resume_at i now cache fs).0
  unfolding resume_at
  resume_at-Settles i now cache [] given c s = (c, s)
  resume_at-Settles zero now cache (f ∷ fs) given c s =
      let (one, held) = resume-Settles now cache f given c s.0 in (held, (one, s.1))
  resume_at-Settles (suc i) now cache (f ∷ fs) given c s =
      let (held, rest) = resume_at-Settles i now cache fs given c s.1 in (held, (s.0, rest))

  drop_at-Settles : (i : ℕ) (fs : List (Future A)) → All Settles fs → All Settles (drop_at i fs)
  unfolding drop_at
  drop_at-Settles i [] s = s
  drop_at-Settles zero (f ∷ fs) s = s.1
  drop_at-Settles (suc i) (f ∷ fs) s = (s.0, drop_at-Settles i fs s.1)

  abbrev pub PoolIs : Pool A → Type 0
  PoolIs pool = CacheIs P pool.cache × All Settles pool.tasks

  act-PoolIs :
      (call : Future A) (e : Event) (pool : Pool A)
      → Settles call
      → EventIs Given e
      → PoolIs pool
      → PoolIs (act call e pool)
  unfolding act
  act-PoolIs call begins pool one e p = (p.0, (one, p.1))
  act-PoolIs call invalidates pool one e p = (tt, p.1)
  act-PoolIs call (drops i) pool one e p = (p.0, drop_at-Settles i pool.tasks p.1)
  act-PoolIs call (resumes i now) pool one e p =
      resume_at-Settles i now pool.cache pool.tasks e p.0 p.1

  pub play-PoolIs :
      (call : Future A) (es : List Event) (pool : Pool A)
      → Settles call
      → All (EventIs Given) es
      → PoolIs pool
      → PoolIs (play call es pool)
  unfolding play
  play-PoolIs call [] pool one e p = p
  play-PoolIs call (x ∷ es) pool one e p =
      play-PoolIs call es (act call x pool) one e.1 (act-PoolIs call x pool one e.0 p)

-- What follows a task that ends as it is to.
pub follow-Settles :
    {A B : Type 0} (Given : Outside → Type 0) (P : Option String → Type 0) (Q : Result A → Type 0)
    (R : Result B → Type 0) (f : Future A) (next : Result A → Future B)
    → Settles Given P Q f
    → ((r : Result A) → Q r → Settles Given P R (next r))
    → Settles Given P R (follow f next)
unfolding Settles follow
follow-Settles Given P Q R (ready r) next s each = each r s
follow-Settles Given P Q R (transmit t request k) next s each =
    λ now given. follow-Settles Given P Q R (k now.heard) next (s now given) each
follow-Settles Given P Q R (read_file path k) next s each =
    λ now given. follow-Settles Given P Q R (k now.contents) next (s now given) each
follow-Settles Given P Q R (look k) next s each =
    λ cache c. follow-Settles Given P Q R (k cache) next (s cache c) each
follow-Settles Given P Q R (store d rest) next s each =
    (s.0, follow-Settles Given P Q R rest next s.1 each)

-- What some task was answered on this schedule.
pub data Saw (now : Outside) : List Event → Type 0 where
  here : (i : ℕ) {es : List Event} → Saw now (resumes i now ∷ es)
  later : (e : Event) {es : List Event} → Saw now es → Saw now (e ∷ es)

pub All-Saw :
    (Given : Outside → Type 0) (es : List Event)
    → ((now : Outside) → Saw now es → Given now)
    → All (EventIs Given) es
All-Saw Given [] each = tt
All-Saw Given (e ∷ es) each = (one e each, All-Saw Given es λ now saw. each now (later e saw))
  where
    one : (e : Event) → ((now : Outside) → Saw now (e ∷ es) → Given now) → EventIs Given e
    one begins each = tt
    one invalidates each = tt
    one (drops i) each = tt
    one (resumes i now) each = each now (here i)
