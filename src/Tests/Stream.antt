-- ===== src/Tests/Stream.antt =====
-- The events of two snapshots, and of runs of the polling loop.
use ipp_client.Prelude.{
  ℕ, String, Option, some, none, false, ◌+◌, ◌==◌, if◌then◌else◌, pos, ◌≤◌, ◌≡◌, ◌↔◌, refl, min,
  ◌^◌, List, [], ◌∷◌, ◌++◌, All, map,
}
use ipp_client.Errors.{Error, Result, ok, err, transport}
use ipp_client.Events.{resynchronised, Snapshot, diff, poll_interval, max_backoff}
use ipp_client.Events.Replay.{SameView, View, view, follow, IsValid, follow-diff}
use ipp_client.Events.Order.{IsChange, diff-IsChange}
use ipp_client.Attrs
use ipp_client.Lpoptions
use ipp_client.Model.Printer
use ipp_client.Model.PrinterState
use ipp_client.Events.Once.{count, about_job, about_printer, diff-count}
use ipp_client.Events.Unchanged.{diff-empty_iff}
use ipp_client.Client.Stream.{start_poller, turn, poll}
use ipp_client.Client.Stream.Watch.{watch, outcomes, watch-follow}
use ipp_client.Client.Queries.{snapshot, printers, jobs}
use ipp_client.Client.Default.{
  default_printer, resolve_default, server_default, invalidate_default_printer_cache,
}
use ipp_client.Client.{parse_or}
use ipp_client.Client.Queries.Query.{for_jobs, keyword_texts, texts_of}
use ipp_client.Client.Requests.{
  printer_attribute_names, not_completed, start, put, with_name, request_attributes, keywords,
  bounded, jobs_request,
}
use ipp_client.Client.Transfer.{transmit, send, check_status}
use ipp_client.Client.Stream.Queries.{Query, query_of, get_default, get_printers, get_jobs, Grows}
use ipp_client.Client.Stream.Log.{Log}
use ipp_client.Client.Stream.Defaults.{defaults, failures as failed_turns, watch-asked}
use ipp_client.Host.{Host, done, failed}
use ipp_client.Ipp.{printer_attributes, Response, Bound}
use ipp_client.Session.{Session}
use ipp_client.Model.Printer.{Printer}
use ipp_client.Subscription.{decode_all}
use ipp_client.Client.Transfer.Gives.{Fit}
use ipp_client.Client.Stream.Mirror.{Reports, mirrored}
use ipp_client.Client.Stream.Known.{watch-known}
use ipp_client.Client.Stream.Laws.{
  after, heard, InStep, OutcomeIsValid, turn-failures, turn-recovery,
}
use ipp_client.Tests.Scene.{
  scripted, reply, printer_group, empty_group, uri_of, lost, morning, noon, printer_at, listing,
  client, fresh,
}

noon-IsValid : IsValid noon
noon-IsValid = record { jobs = (refl, (refl, tt)); printers = (refl, tt) }

morning-IsValid : IsValid morning
morning-IsValid = record { jobs = (refl, (refl, tt)); printers = (refl, (refl, tt)) }

follow-diff_example : SameView (follow (view morning) (diff morning noon)) (view noon)
follow-diff_example = follow-diff morning noon noon-IsValid

diff-IsChange_example : All (IsChange (view morning) (view noon)) (diff morning noon)
diff-IsChange_example = diff-IsChange morning noon noon-IsValid

-- Job 2, which is changed, and the office printer, which is changed.
diff-count_example :
    (count (about_job (pos 2)) (diff morning noon) ≤ 1)
    × (count (about_printer "office") (diff morning noon) ≤ 1)
diff-count_example = diff-count morning noon (pos 2) "office" morning-IsValid noon-IsValid

-- The same printers in the other order.
abbrev morning_again : Snapshot
morning_again = record {
  printers = printer_at "attic" ∷ printer_at "office" ∷ [];
  jobs = morning.jobs;
}

morning_again-IsValid : IsValid morning_again
morning_again-IsValid = record { jobs = (refl, (refl, tt)); printers = (refl, (refl, tt)) }

diff-empty_iff_example :
    (diff morning morning_again ≡ []) ↔ SameView (view morning) (view morning_again)
diff-empty_iff_example = diff-empty_iff morning morning_again morning_again-IsValid

-- A success, a failure, and two successes.
abbrev earlier : List (Result Snapshot)
earlier = ok morning ∷ err (transport lost) ∷ ok morning ∷ ok noon ∷ []

abbrev nothing_seen : View
nothing_seen = view (record { printers = []; jobs = [] })

abbrev failures : List Error
failures = transport lost ∷ transport lost ∷ transport lost ∷ []

turn-failures_example :
    ((turn
        (after start_poller ((earlier ++ (ok noon ∷ [])) ++ map err failures))
        (err (transport lost))).yields
      ≡ err (transport lost) ∷ [])
    × ((turn
          (after start_poller ((earlier ++ (ok noon ∷ [])) ++ map err failures))
          (err (transport lost))).sleep
        ≡ min (2 ^ 3) max_backoff)
turn-failures_example = turn-failures earlier noon failures (transport lost)

turn-recovery_example :
    ((turn (after start_poller (earlier ++ (err (transport lost) ∷ []))) (ok noon)).yields
      ≡ ok (resynchronised noon.printers noon.jobs) ∷ [])
    × ((turn (after start_poller (earlier ++ (err (transport lost) ∷ []))) (ok noon)).sleep
        ≡ poll_interval)
turn-recovery_example = turn-recovery earlier (transport lost) noon

listing-IsValid : OutcomeIsValid (snapshot listing client fresh).0
unfolding snapshot printers default_printer Lpoptions.default_printer Printer.decode
    Attrs.require_text Attrs.require_int PrinterState.from_ipp
listing-IsValid = record { jobs = tt; printers = (refl, tt) }

-- Three turns against a service that lists two printers, one of them not decodable, and no job.
watch-follow_example :
    let (events, last, end) = watch listing client 3 start_poller fresh in
    InStep last.previous (follow nothing_seen (heard events))
unfolding outcomes snapshot printers default_printer Lpoptions.default_printer Printer.decode
    Attrs.require_text Attrs.require_int PrinterState.from_ipp turn
watch-follow_example =
    watch-follow listing client 3 fresh nothing_seen
      (listing-IsValid, (listing-IsValid, (listing-IsValid, tt)))

abbrev listed_groups : Response
listed_groups = reply 0 printer_attributes (empty_group ∷ printer_group "office" ∷ [])

abbrev one_office : List Printer
one_office = decode_all listed_groups printer_attributes Printer.decode

one_office-IsValid : IsValid (record { printers = one_office; jobs = [] })
unfolding decode_all Printer.decode Attrs.require_text Attrs.require_int PrinterState.from_ipp
one_office-IsValid = record { jobs = tt; printers = (refl, tt) }

all-Fit : (texts : List (Bound × String)) → Fit listing texts
all-Fit [] = tt
all-Fit (t ∷ texts) = (refl, all-Fit texts)

listing-Reports : (s : Session ℕ) → Reports listing client s one_office []
unfolding parse_or decode_all
listing-Reports s = record {
  root = uri_of client.base;
  listing = listed_groups;
  active = listed_groups;
  base = refl;
  built = refl;
  fit = all-Fit (keyword_texts printer_attribute_names);
  taken = refl;
  jobs_fit = all-Fit (texts_of (for_jobs not_completed));
  jobs_taken = (refl, (refl, (refl, tt)));
  answered = refl;
  success = refl;
  decoded = refl;
  jobs_answered = refl;
  jobs_success = refl;
  jobs_decoded = refl;
}

-- A second turn against the same service.
watch-known_example :
    (d : Option String) × (let (events, last, end) = watch listing client 2 start_poller fresh in
      (end.cache ≡ some d)
      × SameView
          (follow nothing_seen (heard events))
          (view (mirrored listing client d one_office [])))
unfolding outcomes snapshot printers default_printer Lpoptions.default_printer Printer.decode
    Attrs.require_text Attrs.require_int PrinterState.from_ipp turn
watch-known_example =
    watch-known listing client 1 fresh nothing_seen one_office [] (listing-IsValid, tt)
      one_office-IsValid (listing-Reports _)

-- The default is asked for once over two turns.
test_asked :
    map query_of (watch listing client 2 start_poller fresh).2.sent
    ≡ map some (get_default ∷ get_printers ∷ get_jobs ∷ get_printers ∷ get_jobs ∷ [])
unfolding watch poll invalidate_default_printer_cache snapshot printers jobs jobs_request
    default_printer resolve_default server_default Lpoptions.default_printer start put with_name
    transmit send check_status request_attributes keywords bounded parse_or turn
test_asked = refl

-- The first answer has no success, and the others have.
abbrev recovering : Host ℕ
recovering =
    scripted
      (λ n.
        if n == 1
        then failed lost
        else done (reply 0 printer_attributes (printer_group "office" ∷ [])))
      none

watch-asked_example :
    let (events, last, end) = watch recovering client 3 start_poller fresh in
    let os = outcomes recovering client 3 start_poller fresh in
    (qs : List Query) × Grows fresh end qs × Log false os qs × (defaults qs ≤ 1 + failed_turns os)
watch-asked_example = watch-asked recovering client 3 fresh
