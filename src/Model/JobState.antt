-- ===== src/Model/JobState.antt =====
-- ipp-async/src/model.rs: `JobState`, from the IPP `job-state`.
use ipp_client.Prelude.{ℤ, pos, ◌<>◌, Bool, true, false, beq_ℤ, show_ℤ, if◌then◌else◌}
use ipp_client.Errors.{Result, ok, err, decode}

pub data JobState : Type 0 where
  pending pending_held processing processing_stopped canceled aborted completed : JobState

unfoldable pub from_ipp : ℤ → Result JobState
from_ipp value =
    if beq_ℤ value (pos 3)
    then ok pending
    else if beq_ℤ value (pos 4)
    then ok pending_held
    else if beq_ℤ value (pos 5)
    then ok processing
    else if beq_ℤ value (pos 6)
    then ok processing_stopped
    else if beq_ℤ value (pos 7)
    then ok canceled
    else if beq_ℤ value (pos 8)
    then ok aborted
    else if beq_ℤ value (pos 9)
    then ok completed
    else err (decode "job-state" ("unknown value " <> show_ℤ value))

unfoldable pub is_active : JobState → Bool
is_active pending = true
is_active pending_held = true
is_active processing = true
is_active processing_stopped = true
is_active _ = false
