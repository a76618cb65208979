-- ===== src/Events/Equality.antt =====
-- The derived `PartialEq` of jobs and printers.
use mathlib.Core.Bool.{Bool-discrete}
use mathlib.Core.Logic.{dite}
use native.Mathlib.Decide.{ℕ_discrete}
use ipp_client.Prelude.{String, ◌≡◌, ◌↔◌, Bool, true, false, str_eq, eq_iff, refl}
use ipp_client.Model.Job.{Job}
use ipp_client.Model.Printer.{Printer}

String-discrete : Discrete String
String-discrete s t =
    dite (Bool-discrete (str_eq s t) true) (λ same. yes ((eq_iff s t).0 same))
      (λ differ. no (λ p. differ ((eq_iff s t).1 p)))

Job-discrete : Discrete Job
unfolding String-discrete
Job-discrete = hlevel (String-discrete, ℕ_discrete)

Printer-discrete : Discrete Printer
unfolding String-discrete
Printer-discrete = hlevel (String-discrete, ℕ_discrete)

abbrev decision : {A : Type 0} → Dec A → Bool
decision d = elim d [ yes _ ↦ true | no _ ↦ false ]

unfoldable pub beq_job : Job → Job → Bool
unfolding Job-discrete
beq_job a b = decision (Job-discrete a b)

unfoldable pub beq_printer : Printer → Printer → Bool
unfolding Printer-discrete
beq_printer a b = decision (Printer-discrete a b)

decision_iff : {A : Type 0} (d : Dec A) → (decision d ≡ true) ↔ A
decision_iff (yes a) = (λ _. a, λ _. refl)
decision_iff (no n) = (λ h. cc, λ a. absurd (n a))

pub beq_job_iff : (a b : Job) → (beq_job a b ≡ true) ↔ (a ≡ b)
unfolding beq_job
beq_job_iff a b = decision_iff (Job-discrete a b)

pub beq_printer_iff : (a b : Printer) → (beq_printer a b ≡ true) ↔ (a ≡ b)
unfolding beq_printer
beq_printer_iff a b = decision_iff (Printer-discrete a b)
