-- ===== src/Model/States.antt =====
-- The numbers of states and qualities (ipp-async/src/model.rs).
use ipp_client.Prelude.{ℤ, pos, negsuc, Bool, ltb, ◌≡◌, ◌↔◌, true, some, arith, beq_ℤ_iff}
use ipp_client.Errors.{ok}
use ipp_client.Model.PrinterState
use ipp_client.Model.PrinterState.{PrinterState}
use ipp_client.Model.JobState
use ipp_client.Model.JobState.{JobState, is_active}
use ipp_client.Model.PrintQuality
use ipp_client.Model.PrintQuality.{PrintQuality}

-- The numbers of RFC 8011.
abbrev pub printer_number : PrinterState → ℤ
printer_number PrinterState.idle = pos 3
printer_number PrinterState.processing = pos 4
printer_number PrinterState.stopped = pos 5

abbrev pub job_number : JobState → ℤ
job_number JobState.pending = pos 3
job_number JobState.pending_held = pos 4
job_number JobState.processing = pos 5
job_number JobState.processing_stopped = pos 6
job_number JobState.canceled = pos 7
job_number JobState.aborted = pos 8
job_number JobState.completed = pos 9

abbrev pub below_seven : ℤ → Bool
below_seven (pos n) = ltb n 7
below_seven (negsuc n) = true

-- A number is read as a state of a printer, or of a job, if and only if it is the state's number
-- in RFC 8011; a job's state is active if and only if its number is below 7.
pub from_ipp-numbers :
    ((v : ℤ) (s : PrinterState) → (PrinterState.from_ipp v ≡ ok s) ↔ (v ≡ printer_number s))
    × ((v : ℤ) (s : JobState) → (JobState.from_ipp v ≡ ok s) ↔ (v ≡ job_number s))
    × ((s : JobState) → (is_active s ≡ true) ↔ (below_seven (job_number s) ≡ true))
unfolding PrinterState.from_ipp JobState.from_ipp is_active
from_ipp-numbers = (λ v s. printer v s, λ v s. job v s, active)
  where
    printer : (v : ℤ) (s : PrinterState) → (PrinterState.from_ipp v ≡ ok s) ↔ (v ≡ printer_number s)
    printer v s = ground (arith, beq_ℤ_iff v (pos 3), beq_ℤ_iff v (pos 4), beq_ℤ_iff v (pos 5))

    job : (v : ℤ) (s : JobState) → (JobState.from_ipp v ≡ ok s) ↔ (v ≡ job_number s)
    job v s = ground (
      arith,
      beq_ℤ_iff v (pos 3),
      beq_ℤ_iff v (pos 4),
      beq_ℤ_iff v (pos 5),
      beq_ℤ_iff v (pos 6),
      beq_ℤ_iff v (pos 7),
      beq_ℤ_iff v (pos 8),
      beq_ℤ_iff v (pos 9),
    )

    active : (s : JobState) → (is_active s ≡ true) ↔ (below_seven (job_number s) ≡ true)
    active s = ground arith

-- The number of a quality is read back as it, and only that number is.
pub quality_round_trip :
    (v : ℤ) (q : PrintQuality) → (PrintQuality.from_ipp v ≡ some q) ↔ (v ≡ PrintQuality.to_ipp q)
unfolding PrintQuality.from_ipp PrintQuality.to_ipp
quality_round_trip v q =
    ground (arith, beq_ℤ_iff v (pos 3), beq_ℤ_iff v (pos 4), beq_ℤ_iff v (pos 5))
