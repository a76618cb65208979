-- ===== src/Model/Decoded.antt =====
-- What holds of every printer and job that is decoded (ipp-async/src/model.rs).
use ipp_client.Prelude.{
  ℤ, ◌≡◌, ap, subst, ◌⊎◌, inl, inr, true, Bool-cases, Option, Option-cases, none, some, List, [],
  map, All, any, is_positive, ◌≤◌, ◌==◌, keep_if,
}
use ipp_client.Ipp.{Group}
use ipp_client.Errors.{ok, >>=-eq-ok, ok-injective}
use ipp_client.Attrs
use ipp_client.Model.JobState
use ipp_client.Model.StateReason.{StateReason, Severity, rank, max_of}
use ipp_client.Model.StateReason.Laws.{max_of_lem}
use ipp_client.Model.Printer.{Printer, highest_severity}
use ipp_client.Model.Job
use ipp_client.Model.Job.{Job, JobProgress, indeterminate, pages, progress_of, fraction}

abbrev pub severities : Printer → List Severity
severities p = map (λ (r : StateReason). r.severity) p.reasons

-- A printer without reasons has no highest severity; that of any other is the severity of one of
-- its reasons, and no reason is more severe.
pub highest_severity_lem :
    (p : Printer)
    → ((highest_severity p ≡ none) × (severities p ≡ []))
      ⊎ ((s : Severity) × (highest_severity p ≡ some s)
          × All (λ r. rank r ≤ rank s) (severities p)
          × (any (λ r. rank r == rank s) (severities p) ≡ true))
unfolding highest_severity
highest_severity_lem p = elim (Option-cases (max_of (severities p))) [
  | inl e ↦ inl (e, (max_of_lem (severities p)).0.0 e)
  | inr (s, e) ↦
      let (bound, attained) = (max_of_lem (severities p)).1 s e in inr (s, e, bound, attained)
]

-- The progress and the printed pages that a decoder makes of what a group says.
abbrev pub IsCounted : {F : Type 0} → (ℤ → ℤ → F) → JobProgress → Type 0
IsCounted ratio indeterminate = Unit
IsCounted ratio (pages so_far total) =
    (is_positive total ≡ true) × (fraction ratio (pages so_far total) ≡ some (ratio so_far total))

abbrev pub IsPositive : Option ℤ → Type 0
IsPositive none = Unit
IsPositive (some n) = is_positive n ≡ true

counted :
    {F : Type 0} (ratio : ℤ → ℤ → F) (total so_far : Option ℤ)
    → IsCounted ratio (progress_of total so_far)
unfolding fraction
counted ratio none so_far = tt
counted ratio (some total) none = tt
counted ratio (some total) (some so_far) = elim (Bool-cases (is_positive total)) [
  | inl e ↦ rw e (e, rw (fraction, e))
  | inr e ↦ rw e tt
]

IsPositive-kept : (o : Option ℤ) → IsPositive (keep_if o is_positive)
IsPositive-kept none = tt
IsPositive-kept (some n) = elim (Bool-cases (is_positive n)) [ inl e ↦ rw e e | inr e ↦ rw e tt ]

-- A job that is decoded has a positive total whenever its progress counts pages, and then a
-- fraction of it, so that no fraction divides by zero; and the number of pages that it has printed
-- is positive if it is known.
pub decode-progress :
    {F : Type 0} (ratio : ℤ → ℤ → F) (g : Group) (j : Job)
    → Job.decode g ≡ ok j
    → IsCounted ratio j.progress × IsPositive j.pages_printed
unfolding Job.decode
decode-progress ratio g j e =
    let a = Attrs.new g in
    let (id, e1, p1) = >>=-eq-ok (Attrs.require_int a "job-id") _ e in
    let (value, e2, p2) = >>=-eq-ok (Attrs.require_int a "job-state") _ p1 in
    let (state, e3, p3) = >>=-eq-ok (JobState.from_ipp value) _ p2 in
    let k = ok-injective p3 in
    let so_far = Attrs.int a "job-impressions-completed" in
    (
      subst (IsCounted ratio) (ap (λ (j : Job). j.progress) k)
          (counted ratio (Attrs.int a "job-impressions") so_far),
      subst IsPositive (ap (λ (j : Job). j.pages_printed) k) (IsPositive-kept so_far),
    )
