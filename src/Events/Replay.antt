-- ===== src/Events/Replay.antt =====
-- A consumer of the events of ipp-async/src/events.rs, who keeps the jobs by id and the printers
-- by name: what `diff` emits takes it from one snapshot to the next.
use mathlib.Core.List.{foldl, foldl-append, append_assoc}
use text.Mathlib.TextEquality.{eq_iff}
use ipp_client.Prelude.{
  ◌≡◌, refl, String, Option, none, some, List, [], ◌∷◌, ◌++◌, arith, str_eq, beq_ℤ, beq_ℤ_iff,
  if◌then◌else◌,
}
use ipp_client.Model.Job.{Job, JobId}
use ipp_client.Model.Printer.{Printer}
use ipp_client.Events.{
  PrinterEvent, job_added, job_changed, job_removed, printer_changed, printer_removed,
  resynchronised, Snapshot, id_of, name_of, job_removals, job_update, job_updates, printer_removals,
  printer_update, printer_updates, diff,
}
use ipp_client.Events.Equality.{beq_job, beq_job_iff, beq_printer, beq_printer_iff}
use ipp_client.Events.Keyed.{lookup, Unique, after_loops, updates_self, removals_self}

pub record View : Type 0 where
  pub job : JobId → Option Job
  pub printer : String → Option Printer

abbrev pub view : Snapshot → View
view s = record {
  job = λ k. lookup id_of beq_ℤ k s.jobs;
  printer = λ n. lookup name_of str_eq n s.printers;
}

-- What an event does to the entry of one job, and of one printer.
abbrev pub job_effect : JobId → Option Job → PrinterEvent → Option Job
job_effect k o (job_added j) = if beq_ℤ j.id k then some j else o
job_effect k o (job_changed j) = if beq_ℤ j.id k then some j else o
job_effect k o (job_removed i) = if beq_ℤ i k then none else o
job_effect k o (resynchronised printers jobs) = lookup id_of beq_ℤ k jobs
job_effect k o _ = o

abbrev pub printer_effect : String → Option Printer → PrinterEvent → Option Printer
printer_effect n o (printer_changed p) = if str_eq p.name n then some p else o
printer_effect n o (printer_removed m) = if str_eq m n then none else o
printer_effect n o (resynchronised printers jobs) = lookup name_of str_eq n printers
printer_effect n o _ = o

abbrev pub apply : View → PrinterEvent → View
apply v e = record {
  job = λ k. job_effect k (v.job k) e;
  printer = λ n. printer_effect n (v.printer n) e;
}

unfoldable pub follow : View → List PrinterEvent → View
follow v [] = v
follow v (e ∷ es) = follow (apply v e) es

pub record SameView (a b : View) : Type 0 where
  pub jobs : (k : JobId) → a.job k ≡ b.job k
  pub printers : (n : String) → a.printer n ≡ b.printer n

-- Ids and names are listed once.
pub record IsValid (s : Snapshot) : Type 0 where
  pub jobs : Unique id_of beq_ℤ s.jobs
  pub printers : Unique name_of str_eq s.printers

pub job-follow :
    (k : JobId) (v : View) (es : List PrinterEvent)
    → (follow v es).job k ≡ foldl (job_effect k) (v.job k) es
unfolding follow
job-follow k v [] = refl
job-follow k v (e ∷ es) = job-follow k (apply v e) es

pub printer-follow :
    (n : String) (v : View) (es : List PrinterEvent)
    → (follow v es).printer n ≡ foldl (printer_effect n) (v.printer n) es
unfolding follow
printer-follow n v [] = refl
printer-follow n v (e ∷ es) = printer-follow n (apply v e) es

-- The loops over one kind of thing leave the other kind alone.
module _ (k : JobId) (o : Option Job) where
  job-printer_removals :
      (old next : List Printer) → foldl (job_effect k) o (printer_removals old next) ≡ o
  unfolding printer_removals
  job-printer_removals [] next = refl
  job-printer_removals (p ∷ old) next = ground (arith, job-printer_removals old next)

  job-printer_updates :
      (old next : List Printer) → foldl (job_effect k) o (printer_updates old next) ≡ o
  unfolding printer_updates
  job-printer_updates old [] = refl
  job-printer_updates old (p ∷ next) =
      rw foldl-append (ground (arith, job-printer_updates old next))

module _ (n : String) where
  printer-job_removals :
      (o : Option Printer) (old next : List Job)
      → foldl (printer_effect n) o (job_removals old next) ≡ o
  unfolding job_removals
  printer-job_removals o [] next = refl
  printer-job_removals o (j ∷ old) next = ground (arith, printer-job_removals o old next)

  printer-job_updates :
      (o : Option Printer) (old next : List Job)
      → foldl (printer_effect n) o (job_updates old next) ≡ o
  unfolding job_updates
  printer-job_updates o old [] = refl
  printer-job_updates o old (j ∷ next) =
      rw foldl-append (ground (arith, printer-job_updates o old next))

job_loops :
    (k : JobId) (old next : List Job)
    → Unique id_of beq_ℤ next
    → foldl
        (job_effect k)
        (lookup id_of beq_ℤ k old)
        (job_removals old next ++ job_updates old next)
      ≡ lookup id_of beq_ℤ k next
unfolding job_removals job_updates
job_loops k old next u =
    after_loops id_of beq_ℤ beq_ℤ_iff beq_job beq_job_iff job_effect (λ job. job_removed job.id)
      (λ k o a. refl) job_update (λ k o p a. ground arith) k old next u

printer_loops :
    (n : String) (old next : List Printer)
    → Unique name_of str_eq next
    → foldl
        (printer_effect n)
        (lookup name_of str_eq n old)
        (printer_removals old next ++ printer_updates old next)
      ≡ lookup name_of str_eq n next
unfolding printer_removals printer_updates
printer_loops n old next u =
    after_loops name_of str_eq eq_iff beq_printer beq_printer_iff printer_effect
      (λ printer. printer_removed printer.name) (λ k o a. refl) printer_update
      (λ k o p a. ground arith) n old next u

-- A consumer who knows one snapshot and applies the events of the diff, in their order, knows the
-- next snapshot: every job by its id and every printer by its name, those that are gone included,
-- if the next snapshot lists no id and no name twice.
pub follow-diff : (s t : Snapshot) → IsValid t → SameView (follow (view s) (diff s t)) (view t)
unfolding diff
follow-diff s t valid = record {
  jobs = λ k.
      rw
        (
          job-follow,
          ← append_assoc (job_removals s.jobs t.jobs),
          foldl-append (job_effect k) _ (job_removals s.jobs t.jobs ++ job_updates s.jobs t.jobs),
          foldl-append (job_effect k) _ (printer_removals s.printers t.printers),
          job-printer_removals,
          job-printer_updates,
        )
        (job_loops k s.jobs t.jobs valid.jobs);
  printers = λ n.
      rw (printer-follow, foldl-append, printer-job_removals, foldl-append, printer-job_updates)
        (printer_loops n s.printers t.printers valid.printers);
}

-- A snapshot that lists no id and no name twice differs from itself by no event.
pub diff_self : (s : Snapshot) → IsValid s → diff s s ≡ []
unfolding diff job_removals job_updates printer_removals printer_updates
diff_self s valid = rw (
  removals_self id_of beq_ℤ beq_ℤ_iff (λ job. job_removed job.id) s.jobs,
  updates_self id_of beq_ℤ beq_ℤ_iff job_update quiet_job s.jobs valid.jobs,
  removals_self name_of str_eq eq_iff (λ printer. printer_removed printer.name) s.printers,
  updates_self name_of str_eq eq_iff printer_update quiet_printer s.printers valid.printers,
)
  where
    quiet_job : (j : Job) → job_update (some j) j ≡ []
    quiet_job j = rw ((beq_job_iff j j).1 refl)

    quiet_printer : (p : Printer) → printer_update (some p) p ≡ []
    quiet_printer p = rw ((beq_printer_iff p p).1 refl)
