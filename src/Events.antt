-- ===== src/Events.antt =====
-- ipp-async/src/events.rs: snapshots of the print system, the events between two of them, and the
-- delays of the poll path, in seconds.
pub mod Equality
pub mod Keyed
pub mod Replay
pub mod Order
pub mod Unchanged
pub mod Once
pub mod Backoff
use ipp_client.Prelude.{
  ℕ, ◌*◌, min, String, Bool, Option, none, some, List, [], ◌∷◌, ◌++◌, str_eq, beq_ℤ, ◌==◌,
  if◌then◌else◌,
}
use ipp_client.Model.Job.{Job, JobId}
use ipp_client.Model.Printer.{Printer}
use Equality.{beq_job, beq_printer}
use Keyed.{removals, updates}

pub data PrinterEvent : Type 0 where
  job_added job_changed : Job → PrinterEvent
  job_removed : JobId → PrinterEvent
  printer_changed : Printer → PrinterEvent
  printer_removed : String → PrinterEvent
  resynchronised : List Printer → List Job → PrinterEvent

pub record Snapshot : Type 0 where
  pub printers : List Printer
  pub jobs : List Job

-- `job.id == j.id`, `printer.name == p.name`: the loops of `diff` over jobs and over printers are
-- `removals` and `updates` at these keys.
abbrev pub id_of : Job → JobId
id_of j = j.id

abbrev pub name_of : Printer → String
name_of p = p.name

-- The loop that pushes `JobRemoved`.
unfoldable pub job_removals : List Job → List Job → List PrinterEvent
unfolding removals
job_removals = removals id_of beq_ℤ (λ job. job_removed job.id)

-- The match of one job against the one found in the previous snapshot.
abbrev pub job_update : Option Job → Job → List PrinterEvent
job_update none job = job_added job ∷ []
job_update (some previous) job = if beq_job previous job then [] else job_changed job ∷ []

-- The loop that pushes `JobAdded` and `JobChanged`.
unfoldable pub job_updates : List Job → List Job → List PrinterEvent
unfolding updates
job_updates = updates id_of beq_ℤ job_update

-- The loop that pushes `PrinterRemoved`.
unfoldable pub printer_removals : List Printer → List Printer → List PrinterEvent
unfolding removals
printer_removals = removals name_of str_eq (λ printer. printer_removed printer.name)

abbrev pub printer_update : Option Printer → Printer → List PrinterEvent
printer_update none printer = printer_changed printer ∷ []
printer_update (some previous) printer =
    if beq_printer previous printer then [] else printer_changed printer ∷ []

-- The loop that pushes `PrinterChanged`.
unfoldable pub printer_updates : List Printer → List Printer → List PrinterEvent
unfolding updates
printer_updates = updates name_of str_eq printer_update

unfoldable pub diff : Snapshot → Snapshot → List PrinterEvent
unfolding job_removals job_updates printer_removals printer_updates
diff self next =
    job_removals self.jobs next.jobs
    ++ (job_updates self.jobs next.jobs
        ++ (printer_removals self.printers next.printers
            ++ printer_updates self.printers next.printers))

abbrev pub poll_interval : ℕ
poll_interval = 3

abbrev pub max_backoff : ℕ
max_backoff = 30

unfoldable pub backoff_after : ℕ → ℕ
backoff_after previous = if previous == 0 then 1 else min (previous * 2) max_backoff
