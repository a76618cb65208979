-- ===== src/Model/StateReason.antt =====
-- ipp-async/src/model.rs: `Severity` and `StateReason`, from `*-state-reasons` keywords.
pub mod Laws
use ipp_client.Prelude.{
  ℕ, String, Bool, Option, none, some, List, [], ◌∷◌, map, filter, not, str_eq, ltb, if◌then◌else◌,
}
use ipp_client.Prelude.Text.{strip_suffix}

-- Ordered as declared: report, warning, error.
pub data Severity : Type 0 where
  report warning error : Severity

abbrev pub rank : Severity → ℕ
rank report = 0
rank warning = 1
rank error = 2

pub record StateReason : Type 0 where
  pub keyword : String
  pub severity : Severity

-- The table of suffixes, in the order of the loop.
abbrev pub suffixes : List (String × Severity)
suffixes = ("-error", error) ∷ ("-warning", warning) ∷ ("-report", report) ∷ []

unfoldable pub parse_loop : List (String × Severity) → String → StateReason
parse_loop [] raw = record { keyword = raw; severity = report }
parse_loop ((suffix, severity) ∷ rest) raw =
    let later = parse_loop rest raw in
    elim (strip_suffix suffix raw) [
      | some keyword ↦ record { keyword = keyword; severity = severity }
      | none ↦ later
    ]

unfoldable pub parse : String → StateReason
unfolding parse_loop
parse raw = parse_loop suffixes raw

unfoldable pub parse_list : List String → List StateReason
parse_list raw = map parse (filter (λ r. not (str_eq r "none")) raw)

-- `Iterator::max`: of equals the last; `none` on no elements.
abbrev max_severity : Severity → Severity → Severity
max_severity a b = if ltb (rank b) (rank a) then a else b

abbrev max_from : Severity → List Severity → Severity
max_from best [] = best
max_from best (s ∷ rest) = max_from (max_severity best s) rest

unfoldable pub max_of : List Severity → Option Severity
max_of [] = none
max_of (s ∷ rest) = some (max_from s rest)
