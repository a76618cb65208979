-- ===== src/Events/Unchanged.antt =====
-- When `diff` of ipp-async/src/events.rs emits nothing.
use ipp_client.Prelude.{◌≡◌, ◌↔◌, refl, ◌∙◌, subst, List, [], ◌∷◌, All}
use ipp_client.Events.{
  PrinterEvent, job_added, job_changed, job_removed, printer_changed, printer_removed,
  resynchronised, Snapshot, diff,
}
use ipp_client.Events.Replay.{View, view, follow, SameView, IsValid, follow-diff}
use ipp_client.Events.Order.{IsChange, diff-IsChange}

unchanged : (v w : View) (e : PrinterEvent) → SameView v w → ¬ IsChange v w e
unchanged v w (job_added j) same (before, after) = cc (same.jobs j.id)
unchanged v w (job_changed j) same (there, differs, after) = differs (same.jobs j.id ∙ after)
unchanged v w (job_removed i) same (there, gone) = there (same.jobs i ∙ gone)
unchanged v w (printer_changed p) same (differs, after) = differs (same.printers p.name ∙ after)
unchanged v w (printer_removed n) same (there, gone) = there (same.printers n ∙ gone)
unchanged v w (resynchronised ps js) same change = change

nothing_changed :
    (v w : View) (es : List PrinterEvent) → SameView v w → All (IsChange v w) es → es ≡ []
nothing_changed v w [] same changes = refl
nothing_changed v w (e ∷ es) same changes = absurd (unchanged v w e same changes.0)

follow-nil :
    (v w : View) (es : List PrinterEvent) → es ≡ [] → SameView (follow v es) w → SameView v w
unfolding follow
follow-nil v w es e same = subst (λ es. SameView (follow v es) w) e same

-- The diff of two snapshots is empty if and only if every job by its id and every printer by its
-- name is the same in both, whatever the order in which they list them, if the next snapshot lists
-- no id and no name twice.
pub diff-empty_iff : (s t : Snapshot) → IsValid t → (diff s t ≡ []) ↔ SameView (view s) (view t)
diff-empty_iff s t valid = (
  λ e. follow-nil (view s) (view t) (diff s t) e (follow-diff s t valid),
  λ same. nothing_changed (view s) (view t) (diff s t) same (diff-IsChange s t valid),
)
