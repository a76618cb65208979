-- ===== src/Model/Job/Written.antt =====
-- A job written as attributes (ipp-async/src/model.rs).
use Prim.Native.String.{◌∷◌}
use ipp_client.Prelude.{
  ℕ, ℤ, pos, ◌<◌, ◌^◌, ◌<>◌, ◌≡◌, true, Option, none, some, map_option, keep_if, is_positive, ◌∷◌,
  str_eq, arith, if◌then◌else◌,
}
use ipp_client.Prelude.Text.{Lacks}
use ipp_client.Ipp.{Value, name_without_language, integer, enum, array, Group}
use ipp_client.Model.JobState.{JobState}
use ipp_client.Model.Written.{keywords_of}
use ipp_client.Model.Wire.{
  IsI32, IsKnown, Carried, IsWire, Carried-if, keywords_of-Scalars, name-Carried, int-Carried,
}
use ipp_client.Model.States.{job_number}
use ipp_client.Model.Job.{Job, JobProgress, indeterminate, pages}

-- A time is positive and below 2 ^ 31 seconds, if it is known.
abbrev pub IsTime : Option ℕ → Type 0
IsTime none = Unit
IsTime (some n) = (0 < n) × (n < 2 ^ 31)

-- Pages are counted against a positive total, and those that are printed are the pages so far if
-- that is positive. Without a total they may still be known.
abbrev pub Agree : JobProgress → Option ℤ → Type 0
Agree indeterminate none = Unit
Agree indeterminate (some printed) = is_positive printed ≡ true
Agree (pages so_far total) printed =
    (is_positive total ≡ true) × (printed ≡ keep_if (some so_far) is_positive)

abbrev pub IsCounted : JobProgress → Type 0
IsCounted indeterminate = Unit
IsCounted (pages so_far total) = IsI32 so_far × IsI32 total

-- The jobs that a server can report.
pub record IsReported (j : Job) : Type 0 where
  pub id : IsI32 j.id
  pub printer : Lacks b'/' j.printer
  pub created : IsTime j.created
  pub completed : IsTime j.completed
  pub counts : Agree j.progress j.pages_printed
  pub progress : IsCounted j.progress
  pub printed : IsKnown j.pages_printed

abbrev pub total_of : JobProgress → Option ℤ
total_of indeterminate = none
total_of (pages so_far total) = some total

abbrev pub so_far_of : JobProgress → Option ℤ → Option ℤ
so_far_of indeterminate printed = printed
so_far_of (pages so_far total) printed = some so_far

abbrev pub time_value : Option ℕ → Option Value
time_value t = map_option t (λ n. integer (pos n))

-- The attributes of a job as a server writes them, each part under its own name.
abbrev pub group_of : Job → Group
group_of j name =
    if str_eq name "job-id"
    then some (integer j.id)
    else if str_eq name "job-state"
    then some (enum (job_number j.state))
    else if str_eq name "job-state-reasons"
    then some (array (keywords_of j.reasons))
    else if str_eq name "job-name"
    then map_option j.name name_without_language
    else if str_eq name "job-originating-user-name"
    then map_option j.user name_without_language
    else if str_eq name "job-printer-uri"
    then some (Value.uri ("ipp://localhost/printers" <> ("/" ∷ j.printer)))
    else if str_eq name "job-impressions"
    then map_option (total_of j.progress) integer
    else if str_eq name "job-impressions-completed"
    then map_option (so_far_of j.progress j.pages_printed) integer
    else if str_eq name "time-at-creation"
    then time_value j.created
    else if str_eq name "time-at-completed"
    then time_value j.completed
    else none

number-IsI32 : (s : JobState) → IsI32 (job_number s)
number-IsI32 s = ground arith

total-IsKnown : (p : JobProgress) → IsCounted p → IsKnown (total_of p)
total-IsKnown indeterminate h = tt
total-IsKnown (pages so_far total) h = h.1

so_far-IsKnown :
    (p : JobProgress) (printed : Option ℤ)
    → IsCounted p
    → IsKnown printed
    → IsKnown (so_far_of p printed)
so_far-IsKnown indeterminate printed h k = k
so_far-IsKnown (pages so_far total) printed h k = h.0

time-Carried : (t : Option ℕ) → IsTime t → Carried (time_value t)
time-Carried none h = tt
time-Carried (some n) h = h.1

pub group_of-IsWire : (j : Job) → IsReported j → IsWire (group_of j)
unfolding IsWire
group_of-IsWire j r name = Carried-if (str_eq name "job-id") _ _ r.id (
    Carried-if (str_eq name "job-state") _ _ (number-IsI32 j.state) (
      Carried-if (str_eq name "job-state-reasons") _ _ (keywords_of-Scalars j.reasons) (
        Carried-if (str_eq name "job-name") _ _ (name-Carried j.name) (
          Carried-if (str_eq name "job-originating-user-name") _ _ (name-Carried j.user) (
            Carried-if (str_eq name "job-printer-uri") _ _ tt (
              Carried-if (str_eq name "job-impressions") _ _
                (int-Carried (total_of j.progress) (total-IsKnown j.progress r.progress))
                (Carried-if (str_eq name "job-impressions-completed") _ _
                  (int-Carried (so_far_of j.progress j.pages_printed)
                    (so_far-IsKnown j.progress j.pages_printed r.progress r.printed))
                  (Carried-if (str_eq name "time-at-creation") _ _
                    (time-Carried j.created r.created)
                    (Carried-if (str_eq name "time-at-completed") _ none
                      (time-Carried j.completed r.completed) tt)))))))))
