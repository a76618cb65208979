-- ===== src/Client/Default/Tasks.antt =====
-- Where the answers of `IppClient::default_printer` come from when many tasks ask for it at once
-- and the cache is invalidated meanwhile (ipp-async/src/client.rs).
use ipp_client.Prelude.{String, Option, none, List, [], ◌∷◌, All}
use ipp_client.Host.{Host}
use ipp_client.Future.{Future, ready, transmit, read_file, look, store}
use ipp_client.Future.Pool.{Outside, Event, play}
use ipp_client.Future.Pool.Laws.{CacheIs, Settles, Saw, All-Saw, play-PoolIs}
use ipp_client.Client.{Client}
use ipp_client.Client.Default.Settles.{Origin, Yields, default_printer-Settles}
use ipp_client.Client.Default.Async.{default_printer}

module _ {S : Type 0} (h : Host S) (c : Client) where
  -- An answer of a task, if it is done.
  abbrev pub Answers : (Outside → Type 0) → Future (Option String) → Type 0
  Answers Given (ready r) = Yields h c Given (Origin h c Given) r
  Answers Given _ = Unit

  settled-Answers :
      (Given : Outside → Type 0) (fs : List (Future (Option String)))
      → All (Settles Given (Origin h c Given) (Yields h c Given (Origin h c Given))) fs
      → All (Answers Given) fs
  unfolding Settles
  settled-Answers Given [] s = tt
  settled-Answers Given (f ∷ fs) s = (one f s.0, settled-Answers Given fs s.1)
    where
      one :
          (f : Future (Option String))
          → Settles Given (Origin h c Given) (Yields h c Given (Origin h c Given)) f
          → Answers Given f
      one (ready r) s = s
      one (transmit t q k) s = tt
      one (read_file p k) s = tt
      one (look k) s = tt
      one (store d rest) s = tt

  -- Let any number of tasks ask for the default printer, go on in any order and be dropped at any
  -- step, while the cache is invalidated at any time. If at the start nothing is cached and no
  -- call is under way, then no call fails, and what a call answers and what is cached is at any
  -- time named by a file that some task has read since then, or told by an answer of the server
  -- that some task has got since then, unless the request for the server cannot be built.
  pub play-Origin :
      (es : List Event)
      → let Seen = λ (now : Outside). Saw now es in
        let pool = play (default_printer h c) es (record { cache = none; tasks = [] }) in
        CacheIs (Origin h c Seen) pool.cache × All (Answers Seen) pool.tasks
  play-Origin es =
      let (cache, tasks) =
        play-PoolIs (λ (now : Outside). Saw now es) _ _ (default_printer h c) es _
          (default_printer-Settles h c _) (All-Saw _ es λ now saw. saw) (tt, tt) in
      (cache, settled-Answers _ _ tasks)
