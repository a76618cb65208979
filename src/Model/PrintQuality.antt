-- ===== src/Model/PrintQuality.antt =====
-- ipp-async/src/model.rs: `PrintQuality`, to and from the IPP `print-quality`.
use ipp_client.Prelude.{ℤ, pos, Option, none, some, beq_ℤ, if◌then◌else◌}

pub data PrintQuality : Type 0 where
  draft normal high : PrintQuality

unfoldable pub from_ipp : ℤ → Option PrintQuality
from_ipp value =
    if beq_ℤ value (pos 3)
    then some draft
    else if beq_ℤ value (pos 4)
    then some normal
    else if beq_ℤ value (pos 5)
    then some high
    else none

unfoldable pub to_ipp : PrintQuality → ℤ
to_ipp draft = pos 3
to_ipp normal = pos 4
to_ipp high = pos 5
