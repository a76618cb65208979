-- ===== src/Events/Backoff.antt =====
-- The delays between retries, `backoff_after` of ipp-async/src/events.rs.
use native.Mathlib.Nat.{pow-suc}
use ipp_client.Prelude.{ℕ, zero, suc, ◌*◌, ◌^◌, ◌<◌, min, ◌≡◌, ◌∙◌, refl, arith, ap}
use ipp_client.Events.{backoff_after, max_backoff}

-- The delay behind so many failures in a row, from none.
abbrev pub delay_after : ℕ → ℕ
delay_after zero = 0
delay_after (suc failures) = backoff_after (delay_after failures)

doubled : (p : ℕ) → 0 < p → backoff_after (min p max_backoff) ≡ min (p * 2) max_backoff
unfolding backoff_after
doubled p h = ground arith

pow-pos : (k : ℕ) → 0 < 2 ^ k
pow-pos zero = omega arith
pow-pos (suc k) = omega (arith, pow-suc 2 k, pow-pos k)

-- The delay behind the failure number k + 1 in a row is 2 ^ k seconds, and never more than 30.
pub delay_after_lem : (k : ℕ) → delay_after (suc k) ≡ min (2 ^ k) max_backoff
unfolding backoff_after
delay_after_lem zero = refl
delay_after_lem (suc k) =
    ap backoff_after (delay_after_lem k) ∙ doubled (2 ^ k) (pow-pos k) ∙ rw pow-suc
