-- ===== src/Model/StateReason/Laws.antt =====
-- Splitting a reason's keyword from its severity (ipp-async/src/model.rs).
use mathlib.Core.Option.{some-injective}
use ipp_client.Prelude.{
  ◌≤◌, String, ◌<>◌, ◌≡◌, ◌≢◌, refl, true, none, some, List, [], ◌∷◌, ◌⊎◌, inl, inr, subst, ◌↔◌,
  Option-cases, All, any, arith, ◌==◌,
}
use ipp_client.Prelude.Text.{strip_suffix}
use ipp_client.Prelude.Text.Affix.{strip_suffix-append, strip_suffix-eq-some, strip_suffix_other}
use ipp_client.Model.StateReason.{
  Severity, report, warning, error, rank, parse, parse_loop, max_of, max_from, max_severity,
}

-- The suffix by which IPP marks a severity.
abbrev pub suffix_of : Severity → String
suffix_of report = "-report"
suffix_of warning = "-warning"
suffix_of error = "-error"

-- Whatever the keyword, also an empty one and one that ends in a suffix itself: the last suffix,
-- and only that, is taken off and names the severity.
pub parse-suffix_of :
    (k : String) (s : Severity) → parse (k <> suffix_of s) ≡ record { keyword = k; severity = s }
unfolding parse
parse-suffix_of k error = rw (strip_suffix-append k "-error", parse_loop)
parse-suffix_of k warning = rw (
  strip_suffix_other "-error" k "-warning" refl refl (omega arith),
  strip_suffix-append k "-warning",
  parse_loop,
)
parse-suffix_of k report = rw (
  strip_suffix_other "-error" k "-report" refl refl (omega arith),
  strip_suffix_other "-warning" k "-report" refl refl (omega arith),
  strip_suffix-append k "-report",
  parse_loop,
)

ends_in_none :
    (raw : String)
    → strip_suffix "-error" raw ≡ none
    → strip_suffix "-warning" raw ≡ none
    → strip_suffix "-report" raw ≡ none
    → (k : String) (s : Severity) → raw ≢ k <> suffix_of s
ends_in_none raw e w r k error p = cc (strip_suffix-append k "-error")
ends_in_none raw e w r k warning p = cc (strip_suffix-append k "-warning")
ends_in_none raw e w r k report p = cc (strip_suffix-append k "-report")

-- A raw keyword is its parsed keyword followed by the suffix of the parsed severity, or it ends in
-- no suffix and is kept whole with the severity `report`.
pub parse_cases :
    (raw : String)
    → (raw ≡ (parse raw).keyword <> suffix_of (parse raw).severity)
      ⊎ ((parse raw ≡ record { keyword = raw; severity = report })
          × ((k : String) (s : Severity) → raw ≢ k <> suffix_of s))
unfolding parse
parse_cases raw = elim (Option-cases (strip_suffix "-error" raw)) [
  | inr (k, e) ↦ inl (rw (e, parse_loop) (strip_suffix-eq-some "-error" raw k e))
  | inl e ↦ elim (Option-cases (strip_suffix "-warning" raw)) [
    | inr (k, w) ↦ inl (rw (e, w, parse_loop) (strip_suffix-eq-some "-warning" raw k w))
    | inl w ↦ elim (Option-cases (strip_suffix "-report" raw)) [
      | inr (k, r) ↦ inl (rw (e, w, r, parse_loop) (strip_suffix-eq-some "-report" raw k r))
      | inl r ↦ inr (rw (e, w, r, parse_loop), ends_in_none raw e w r)
    ]
  ]
]

-- The fold keeps a bound of all that it has seen, and stays with one of them.
max_from_bounds :
    (best : Severity) (rest : List Severity)
    → (rank best ≤ rank (max_from best rest)) × All (λ s. rank s ≤ rank (max_from best rest)) rest
max_from_bounds best [] = (omega arith, tt)
max_from_bounds best (s ∷ rest) =
    let (h, all) = max_from_bounds (max_severity best s) rest in (ground arith, (ground arith, all))

max_from_attained :
    (best : Severity) (rest : List Severity)
    → (any (λ s. rank s == rank (max_from best rest)) (best ∷ rest) ≡ true)
max_from_attained best [] = ground arith
max_from_attained best (s ∷ rest) = ground (arith, max_from_attained (max_severity best s) rest)

-- The maximum of some severities is one of them and no other is higher; there is none exactly of
-- no severities.
pub max_of_lem :
    (severities : List Severity)
    → ((max_of severities ≡ none) ↔ (severities ≡ []))
      × ((s : Severity)
          → max_of severities ≡ some s
          → All (λ r. rank r ≤ rank s) severities × (any (λ r. rank r == rank s) severities ≡ true))
unfolding max_of
max_of_lem [] = ((λ h. refl, λ h. refl), λ s h. cc)
max_of_lem (r ∷ rest) = (
  (λ h. cc, λ h. cc),
  λ s h.
      subst
        (λ s.
          All (λ r. rank r ≤ rank s) (r ∷ rest) × (any (λ r. rank r == rank s) (r ∷ rest) ≡ true))
        (some-injective _ _ h) (max_from_bounds r rest, max_from_attained r rest),
)
