-- ===== src/Model/Job.antt =====
-- ipp-async/src/model.rs: `JobProgress` and `Job`, from a job-attributes group. A time is the
-- number of seconds since the Unix epoch.
pub mod Written
pub mod Exact
use ipp_client.Prelude.{
  ℕ, ℤ, String, Option, none, some, List, and_then, map_option, keep_if, unwrap_or, is_positive,
  to_ℕ, not, if◌then◌else◌,
}
use ipp_client.Prelude.Text.{is_empty, last_piece}
use ipp_client.Ipp.{Group}
use ipp_client.Errors.{Result, ok, ◌>>=◌}
use ipp_client.Attrs
use ipp_client.Model.JobState
use ipp_client.Model.JobState.{JobState}
use ipp_client.Model.StateReason
use ipp_client.Model.StateReason.{StateReason}

abbrev pub JobId : Type 0
JobId = ℤ

pub data JobProgress : Type 0 where
  indeterminate : JobProgress
  pages : ℤ → ℤ → JobProgress

-- `ratio done total` is the quotient in `f32`, clamped to the range from 0.0 to 1.0.
unfoldable pub fraction : {F : Type 0} → (ℤ → ℤ → F) → JobProgress → Option F
fraction ratio indeterminate = none
fraction ratio (pages done total) = if is_positive total then some (ratio done total) else none

pub record Job : Type 0 where
  pub id : JobId
  pub printer : String
  pub name : Option String
  pub user : Option String
  pub state : JobState
  pub reasons : List StateReason
  pub progress : JobProgress
  pub created : Option ℕ
  pub pages_printed : Option ℤ
  pub completed : Option ℕ

unfoldable pub printer_name_from_uri : String → Option String
printer_name_from_uri uri = keep_if (some (last_piece b'/' uri)) (λ s. not (is_empty s))

abbrev pub progress_of : Option ℤ → Option ℤ → JobProgress
progress_of (some total) (some done) = if is_positive total then pages done total else indeterminate
progress_of _ _ = indeterminate

-- A time that is present and positive.
abbrev pub seconds : Option ℤ → Option ℕ
seconds t = map_option (keep_if t is_positive) to_ℕ

unfoldable pub decode : Group → Result Job
decode group = do
  let a = Attrs.new group
  id ← Attrs.require_int a "job-id"
  value ← Attrs.require_int a "job-state"
  state ← JobState.from_ipp value
  ok (record {
    id = id;
    printer = unwrap_or (and_then (Attrs.text a "job-printer-uri") printer_name_from_uri) "";
    name = Attrs.text a "job-name";
    user = Attrs.text a "job-originating-user-name";
    state = state;
    reasons = StateReason.parse_list (Attrs.texts a "job-state-reasons");
    progress =
        progress_of (Attrs.int a "job-impressions") (Attrs.int a "job-impressions-completed");
    created = seconds (Attrs.int a "time-at-creation");
    pages_printed = keep_if (Attrs.int a "job-impressions-completed") is_positive;
    completed = seconds (Attrs.int a "time-at-completed");
  })
