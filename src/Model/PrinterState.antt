-- ===== src/Model/PrinterState.antt =====
-- ipp-async/src/model.rs: `PrinterState`, from the IPP `printer-state`.
use ipp_client.Prelude.{ℤ, pos, ◌<>◌, beq_ℤ, show_ℤ, if◌then◌else◌}
use ipp_client.Errors.{Result, ok, err, decode}

pub data PrinterState : Type 0 where
  idle processing stopped : PrinterState

unfoldable pub from_ipp : ℤ → Result PrinterState
from_ipp value =
    if beq_ℤ value (pos 3)
    then ok idle
    else if beq_ℤ value (pos 4)
    then ok processing
    else if beq_ℤ value (pos 5)
    then ok stopped
    else err (decode "printer-state" ("unknown value " <> show_ℤ value))
