-- ===== src/Prelude/Time.antt =====
-- `std::time::Duration`: whole seconds, and the nanoseconds of the fraction.
use Prim.Native.Nat.{ℕ}

pub record Duration : Type 0 where
  pub secs : ℕ
  pub nanos : ℕ

-- `as_secs` leaves the fraction out.
abbrev pub as_secs : Duration → ℕ
as_secs d = d.secs

abbrev pub from_secs : ℕ → Duration
from_secs n = record { secs = n; nanos = 0 }
