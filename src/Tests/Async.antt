-- ===== src/Tests/Async.antt =====
-- Calls that are interleaved, and futures that are dropped.
use ipp_client.Prelude.{String, ◌≡◌, refl, Option, none, some, List, [], ◌∷◌, All, arith}
use ipp_client.Ipp.{printer_attributes, job_attributes}
use ipp_client.Errors.{ok}
use ipp_client.Host.{done, failed}
use ipp_client.Future.{ready, follow}
use ipp_client.Future.Pool.{
  Outside, Event, begins, invalidates, resumes, Pool, play, Moment, drive, handed,
}
use ipp_client.Future.Pool.Laws.{CacheIs, Saw}
use ipp_client.Attrs
use ipp_client.Client.Requests.{start, put}
use ipp_client.Client.Transfer.{check_status}
use ipp_client.Client.Default.Async.{default_printer}
use ipp_client.Client.Default.Settles.{Origin}
use ipp_client.Client.Default.Tasks.{Answers, play-Origin}
use ipp_client.Client.Default.Steps.{default_printer-Ends}
use ipp_client.Client.Print.Async.{print_stream_at}
use ipp_client.Client.Print.Dropped.{Handed, print_stream_at-Handed}
use ipp_client.Tests.Scene.{uri_of, lost, obliging, client, reply, job_group, printer_group}

-- The server tells its default; no file can be read.
abbrev telling : String → Outside
telling name = record {
  heard = done (reply 0 printer_attributes (printer_group name ∷ []));
  contents = none;
}

abbrev quiet : Pool (Option String)
quiet = record { cache = none; tasks = [] }

-- A call looks into the cache, reads both files, and is told `old`; the cache is invalidated, and
-- the call then stores its answer. A second call begins behind the invalidation.
abbrev overtaken : List Event
overtaken =
    begins
    ∷ resumes 0 (telling "old")
    ∷ resumes 0 (telling "old")
    ∷ resumes 0 (telling "old")
    ∷ resumes 0 (telling "old")
    ∷ invalidates
    ∷ resumes 0 (telling "new")
    ∷ begins
    ∷ resumes 0 (telling "new")
    ∷ []

-- The call that began behind the invalidation answers what was told before it.
test_stale : play (default_printer obliging client) overtaken quiet ≡ record {
  cache = some (some "old");
  tasks = ready (ok (some "old")) ∷ ready (ok (some "old")) ∷ [];
}
unfolding play default_printer follow start put check_status Attrs.text
test_stale = refl

play-Origin_example :
    let pool = play (default_printer obliging client) overtaken quiet in
    CacheIs (Origin obliging client λ (now : Outside). Saw now overtaken) pool.cache
    × All (Answers obliging client λ (now : Outside). Saw now overtaken) pool.tasks
play-Origin_example = play-Origin obliging client overtaken

-- The server tells its default, and the file names one.
abbrev chosen : Moment
chosen = record {
  outside = record { heard = failed lost; contents = some "Default attic media=a4\n" };
  cache = none;
}

abbrev five : List Moment
five = chosen ∷ chosen ∷ chosen ∷ chosen ∷ chosen ∷ []

default_printer-Ends_example :
    (name : Option String) × (drive five (default_printer obliging client) ≡ ready (ok name))
default_printer-Ends_example = default_printer-Ends obliging client five (omega arith)

-- The job is created, and the connection is then lost.
abbrev broken : List Moment
broken =
    record {
      outside = record { heard = done (reply 0 job_attributes (job_group ∷ [])); contents = none };
      cache = none;
    }
    ∷ chosen
    ∷ chosen
    ∷ []

print_stream_at-Handed_example :
    let uri = uri_of "ipp://print.example/office" in
    Handed obliging client uri 7 none "letter" broken
      (handed broken (print_stream_at obliging client uri 7 none "letter"))
print_stream_at-Handed_example =
    print_stream_at-Handed obliging client (uri_of "ipp://print.example/office") 7 none "letter"
      broken
