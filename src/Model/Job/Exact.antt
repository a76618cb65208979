-- ===== src/Model/Job/Exact.antt =====
-- The attributes of a job, written and decoded (ipp-async/src/model.rs).
use Prim.Native.String.{[], ◌∷◌}
use mathlib.Core.Path.{ap₂}
use ipp_client.Prelude.{
  ℕ, ℤ, pos, negsuc, String, ◌<>◌, ◌≡◌, refl, ap, sym, ◌∙◌, subst, ◌↔◌, not, Bool-cases, inl, inr,
  Option, none, some, and_then, keep_if, unwrap_or, is_positive, [], ◌∷◌, arith,
}
use ipp_client.Prelude.Text.{Lacks, is_empty, last_piece}
use ipp_client.Prelude.Text.Laws.{last_piece-append, last_piece-Lacks}
use ipp_client.Ipp.{Group}
use ipp_client.Errors.{ok, >>=-eq-ok, ok-injective}
use ipp_client.Attrs
use ipp_client.Model.JobState
use ipp_client.Model.JobState.{JobState}
use ipp_client.Model.Written.{name_back, int_back, reasons_back}
use ipp_client.Model.Wire.{IsKnown, IsWire, int-IsKnown, required-IsI32}
use ipp_client.Model.States.{job_number, from_ipp-numbers}
use ipp_client.Model.Job
use ipp_client.Model.Job.{
  Job, JobProgress, indeterminate, pages, progress_of, seconds, printer_name_from_uri,
}
use ipp_client.Model.Job.Written.{
  IsTime, Agree, IsCounted, IsReported, total_of, so_far_of, time_value, group_of, group_of-IsWire,
}

time_back : (t : Option ℕ) → IsTime t → seconds (and_then (time_value t) Attrs.as_int) ≡ t
unfolding Attrs.as_int
time_back none h = refl
time_back (some n) h = ground arith

nonempty_back : (s : String) → unwrap_or (keep_if (some s) (λ s. not (is_empty s))) "" ≡ s
nonempty_back [] = refl
nonempty_back (c ∷ s) = refl

printer_back :
    (name : String)
    → Lacks b'/' name
    → unwrap_or (printer_name_from_uri ("ipp://localhost/printers" <> ("/" ∷ name))) "" ≡ name
unfolding printer_name_from_uri
printer_back name h =
    ap (λ piece. unwrap_or (keep_if (some piece) (λ s. not (is_empty s))) "")
      (last_piece-append "/" "ipp://localhost/printers" name h)
    ∙ nonempty_back name

state_back : (s : JobState) → JobState.from_ipp (job_number s) ≡ ok s
state_back s = (from_ipp-numbers.1 (job_number s) s).1 refl

counts_back :
    (p : JobProgress) (printed : Option ℤ)
    → Agree p printed
    → (progress_of (total_of p) (so_far_of p printed) ≡ p)
      × (keep_if (so_far_of p printed) is_positive ≡ printed)
counts_back indeterminate none h = (refl, refl)
counts_back indeterminate (some n) h = (refl, rw h)
counts_back (pages so_far total) printed (positive, same) = (rw positive, sym same)

-- A job that a server can report is decoded from its attributes.
decode-group_of : (j : Job) → IsReported j → Job.decode (group_of j) ≡ ok j
unfolding Job.decode Attrs.require_int Attrs.text Attrs.int Attrs.texts Attrs.value Attrs.flatten
    Attrs.as_int Attrs.as_text
decode-group_of j reported =
    let (progress, printed) = counts_back j.progress j.pages_printed reported.counts in
    let total = int_back (total_of j.progress) in
    let so_far = int_back (so_far_of j.progress j.pages_printed) in
    rw (state_back j.state) λ i. ok (record {
      id = j.id;
      printer = printer_back j.printer reported.printer i;
      name = name_back j.name i;
      user = name_back j.user i;
      state = j.state;
      reasons = reasons_back j.reasons i;
      progress = (ap₂ progress_of total so_far ∙ progress) i;
      created = time_back j.created reported.created i;
      pages_printed = (ap (λ o. keep_if o is_positive) so_far ∙ printed) i;
      completed = time_back j.completed reported.completed i;
    })

printer-Lacks :
    (uri : Option String) → Lacks b'/' (unwrap_or (and_then uri printer_name_from_uri) "")
unfolding printer_name_from_uri
printer-Lacks none = tt
printer-Lacks (some uri) =
    subst (Lacks b'/') (sym (nonempty_back (last_piece b'/' uri))) (last_piece-Lacks "/" uri)

seconds-IsTime : (t : Option ℤ) → IsKnown t → IsTime (seconds t)
seconds-IsTime none h = tt
seconds-IsTime (some (pos n)) h = ground arith
seconds-IsTime (some (negsuc n)) h = tt

printed-Agree : (so_far : Option ℤ) → Agree indeterminate (keep_if so_far is_positive)
printed-Agree none = tt
printed-Agree (some n) = elim (Bool-cases (is_positive n)) [ inl e ↦ rw e e | inr e ↦ rw e tt ]

counts-Agree :
    (total so_far : Option ℤ) → Agree (progress_of total so_far) (keep_if so_far is_positive)
counts-Agree none so_far = printed-Agree so_far
counts-Agree (some t) none = tt
counts-Agree (some t) (some n) = elim (Bool-cases (is_positive t)) [
  | inl e ↦ rw e (e, refl)
  | inr e ↦ rw e (printed-Agree (some n))
]

progress-IsCounted :
    (total so_far : Option ℤ)
    → IsKnown total
    → IsKnown so_far
    → IsCounted (progress_of total so_far)
progress-IsCounted none so_far h k = tt
progress-IsCounted (some t) none h k = tt
progress-IsCounted (some t) (some n) h k = elim (Bool-cases (is_positive t)) [
  | inl e ↦ rw e (k, h)
  | inr e ↦ rw e tt
]

kept-IsKnown : (n : Option ℤ) → IsKnown n → IsKnown (keep_if n is_positive)
kept-IsKnown none h = tt
kept-IsKnown (some n) h = elim (Bool-cases (is_positive n)) [ inl e ↦ rw e h | inr e ↦ rw e tt ]

-- A job that is decoded from a group whose integers are of 32 bits is one that a server can report.
decode-IsReported : (g : Group) (j : Job) → IsWire g → Job.decode g ≡ ok j → IsReported j
unfolding Job.decode Attrs.require_int
decode-IsReported g j wire e =
    let a = Attrs.new g in
    let int = λ (name : String). int-IsKnown g name wire in
    let (id, e1, p1) = >>=-eq-ok (Attrs.require_int a "job-id") _ e in
    let (value, e2, p2) = >>=-eq-ok (Attrs.require_int a "job-state") _ p1 in
    let (state, e3, p3) = >>=-eq-ok (JobState.from_ipp value) _ p2 in
    subst IsReported (ok-injective p3) (record {
      id = required-IsI32 (Attrs.int a "job-id") _ id (int "job-id") e1;
      printer = printer-Lacks (Attrs.text a "job-printer-uri");
      created = seconds-IsTime (Attrs.int a "time-at-creation") (int "time-at-creation");
      completed = seconds-IsTime (Attrs.int a "time-at-completed") (int "time-at-completed");
      counts =
          counts-Agree (Attrs.int a "job-impressions") (Attrs.int a "job-impressions-completed");
      progress =
          progress-IsCounted (Attrs.int a "job-impressions")
            (Attrs.int a "job-impressions-completed") (int "job-impressions")
            (int "job-impressions-completed");
      printed =
          kept-IsKnown (Attrs.int a "job-impressions-completed") (int "job-impressions-completed");
    })

-- A job whose parts are written as attributes, each under its own name, has integers of 32 bits
-- there and is decoded from them as it is, if and only if: the printer's name has no slash; its id
-- and counts are of 32 bits, and the times that are known positive and below 2 ^ 31 seconds; and
-- the counts agree, that is, a progress in pages has a positive total and the pages printed are the
-- pages so far if these are positive, and without such a progress the pages printed, if known, are
-- positive. Texts have no greatest length here.
pub decode-IsReported_iff :
    (j : Job) → (IsWire (group_of j) × (Job.decode (group_of j) ≡ ok j)) ↔ IsReported j
decode-IsReported_iff j = (
  λ (wire, e). decode-IsReported (group_of j) j wire e,
  λ reported. (group_of-IsWire j reported, decode-group_of j reported),
)
